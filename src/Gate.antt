-- ===== src/Gate.antt =====
-- What the handlers of src/ngx-http-pow-gate/src share: the request, the configuration of its
-- location (`Cfg` of runtime.rs), what other crates and the state of the worker give, and how a
-- handler ends. The metrics that `record` writes are not modelled.
use ngx_http_pow_gate.Common.{
  ℕ, ◌≡◌, Bool, true, false, Option, none, some, List, [], ◌∷◌, ◌++◌, ◌>>=◌,
}
use ngx_http_pow_gate.Common.Int.{ℤ}
use ngx_http_pow_gate.Common.Bytes.{codes}
use ngx_http_pow_gate.Binding.{Scope, for_host, binding}
use ngx_http_pow_gate.Clearance.{Clearance}
use ngx_http_pow_gate.Context.{IpAddr, AddressPolicy}
use ngx_http_pow_gate.Finish.{Grant, Response}
use ngx_http_pow_gate.Nojs
use ngx_http_pow_gate.Pow.{Bound, Challenge}
use ngx_http_pow_gate.Runtime.{Text, Headers, CookieConfig, header, client_ip}
use ngx_http_pow_gate.Wire.{Wire}
pub mod Session
pub mod Pages
pub mod Endpoints
pub mod Access
pub mod Passing
pub mod Minting
pub mod Cookies
mod Examples

pub record Request : Type 0 where
  pub method : List ℕ
  pub uri : List ℕ
  pub unparsed_uri : List ℕ
  pub args : List ℕ
  pub server : List ℕ
  pub headers : Headers
  pub sockaddr : Option (List ℕ)
  pub content_length_n : ℤ

-- `Cfg`; the authenticator is made of the key.
pub record Cfg : Type 0 where
  pub scope : Scope
  pub key : List ℕ
  pub key_ok : Bool
  pub difficulty : ℕ
  pub address : AddressPolicy
  pub clearance_ttl : ℤ
  pub proof_skew : ℤ
  pub require_proof : Bool
  pub replay : Bool
  pub replay_max_body : ℕ
  pub endpoint : List ℕ
  pub cookie : CookieConfig

-- A submission: `Submission` of engine/pow.rs
pub record Submission : Type 0 where
  pub version : ℕ
  pub signature : List ℕ
  pub salt : List ℕ
  pub exp : ℤ
  pub token : List ℕ
  pub nonce : ℕ
  pub pubkey : List ℕ
  pub difficulty : ℕ

-- The crates, the clock and the random bytes of one request, and what the ledger and the
-- verifiers of the worker answer in it.
pub record World : Type 0 where
  pub wire : Wire
  pub text : Text
  pub now : ℤ
  pub random : List ℕ
  pub sha256 : List ℕ → List ℕ
  pub verify_signature : List ℕ → List ℕ → List ℕ → Bool
  pub from_sec1_bytes : List ℕ → Bool
  pub ip_text : IpAddr → List ℕ
  pub write_text : List ℕ → List ℕ
  pub write_fields : List ℕ → List ℕ → List ℕ → List ℕ → List ℕ
  pub write_clearance : Clearance → List ℕ
  pub read_clearance : List ℕ → Option Clearance
  pub write_grant : Nojs.Grant → List ℕ
  pub read_grant : List ℕ → Option Nojs.Grant
  pub write_bound : Bound → List ℕ
  -- the challenge with the clock of the server
  pub write_challenge : Challenge → ℤ → List ℕ
  pub read_submission : List ℕ → Option Submission
  -- `redemption::issuer`
  pub issuer : Option (List ℕ)
  pub cluster_enabled : Bool
  pub cluster_available : Bool
  -- `verifier_result`, without its reason
  pub confirmed : List ℕ → IpAddr → Bool

-- How a handler ends: it lets the request pass, gives nginx a status, sends a response, hands a
-- prepared grant to the ledger, or waits for the body of the request.
pub data Action : Type 0 where
  declined : Action
  status : ℕ → Action
  respond : Response → Action
  redeem : (token : List ℕ) → (expires : ℤ) → Grant → Action
  read_for_verify : Action
  read_for_replay : Action

-- `unwrap_or_default`
abbrev pub or_empty : Option (List ℕ) → List ℕ
or_empty none = []
or_empty (some s) = s

-- `client_context`
unfoldable pub client_context : World → Cfg → Request → Option (List ℕ)
client_context world cfg r = do
  issuer ← world.issuer
  ip ← client_ip r.sockaddr
  scope ← for_host world.write_text world.write_fields cfg.scope r.server
  let agent = or_empty (header world.text r.headers (codes "user-agent"))
  binding world.wire world.ip_text cfg.key ip agent scope issuer cfg.address

-- ===== src/Nojs.antt =====
-- The grant of the challenge without JavaScript: src/pow-gate-core/src/nojs.rs. The JSON of `serde`
-- and the random bytes of `getrandom` are parameters.
use ngx_http_pow_gate.Common.{
  ℕ, zero, suc, ◌+◌, ◌≤◌, ◌≡◌, Bool, true, false, not, ◌&&◌, ◌||◌, ltb, leb, ◌==◌, if◌then◌else◌,
  Option, none, some, List, [], ◌∷◌, ◌++◌, length,
}
use ngx_http_pow_gate.Common.Int.{ℤ, pos, ltb_ℤ, leb_ℤ, abs_diff, add_i64}
use ngx_http_pow_gate.Common.Bytes.{codes}
use ngx_http_pow_gate.Common.Parse.{split_once}
use ngx_http_pow_gate.Mac.{ct_eq, hmac}
use ngx_http_pow_gate.Uri.{same_site_path}
use ngx_http_pow_gate.Wire.{Wire}
pub mod Timing
pub mod Verdicts
pub mod RoundTrip
mod Examples

pub record Grant : Type 0 where
  pub path : List ℕ
  pub context : List ℕ
  pub id : List ℕ
  pub version : ℕ
  pub iat : ℤ
  pub delay : ℤ

pub data Verdict : Type 0 where
  ok : Grant → Verdict
  too_early : Grant → Verdict
  bad : Verdict

-- `NOJS_GRACE`
abbrev pub nojs_grace : ℕ
nojs_grace = 120

unfoldable pub mac_input : List ℕ → List ℕ
mac_input payload_b64 = codes "nojs-v2|" ++ payload_b64

-- The tests of an authentic grant, its wait apart.
unfoldable pub is_current : ℤ → List ℕ → Grant → Bool
is_current now context grant =
    grant.version == 2
    && ct_eq grant.context context
    && same_site_path grant.path
    && (leb_ℤ (pos 1) grant.delay && leb_ℤ grant.delay (pos 30))
    && leb_ℤ grant.iat now
    && ltb (abs_diff now grant.iat) nojs_grace

unfoldable pub timed : ℤ → Grant → Verdict
timed now grant = if ltb_ℤ now (add_i64 grant.iat grant.delay) then too_early grant else ok grant

-- A grant that has been read.
unfoldable pub judged : ℤ → List ℕ → Option Grant → Verdict
judged now context none = bad
judged now context (some grant) = if is_current now context grant then timed now grant else bad

module _ (w : Wire) where
  module _ (write_json : Grant → List ℕ) where
    -- `issue`, with the sixteen bytes of the identifier.
    unfoldable pub issue : List ℕ → List ℕ → List ℕ → ℤ → ℤ → List ℕ → List ℕ
    issue key raw path delay now context =
        let grant : Grant = record {
          path = if same_site_path path then path else codes "/";
          context = context;
          id = w.b64url raw;
          version = 2;
          iat = now;
          delay = delay;
        } in
        let payload_b64 = w.b64url (write_json grant) in
        payload_b64 ++ b'.' ∷ w.b64url (hmac w.hmac_sha256 key (mac_input payload_b64))

  module _ (read_json : List ℕ → Option Grant) where
    abbrev pub parsed : Option (List ℕ) → Option Grant
    parsed none = none
    parsed (some raw) = read_json raw

    -- The tag has been decoded, or could not be.
    unfoldable pub checked : List ℕ → List ℕ → ℤ → List ℕ → Option (List ℕ) → Verdict
    checked key payload_b64 now context none = bad
    checked key payload_b64 now context (some provided) =
        if ct_eq (hmac w.hmac_sha256 key (mac_input payload_b64)) provided
        then judged now context (parsed (w.unb64url payload_b64))
        else bad

    unfoldable pub opened : List ℕ → ℤ → List ℕ → Option (List ℕ × List ℕ) → Verdict
    opened key now context none = bad
    opened key now context (some (payload_b64, tag_b64)) =
        checked key payload_b64 now context (w.unb64url tag_b64)

    -- `verify`
    unfoldable pub verify : List ℕ → List ℕ → ℤ → List ℕ → Verdict
    verify key token now context =
        if ltb 8192 (length token) then bad else opened key now context (split_once b'.' token)

-- ===== src/Gate/Access.antt =====
-- The decision on a request: src/ngx-http-pow-gate/src/access.rs, and `should_capture` and
-- `body_ready` of src/ngx-http-pow-gate/src/replay.rs.
use ngx_http_pow_gate.Common.{
  ℕ, Bool, true, false, not, ◌&&◌, ◌||◌, ltb, leb, if◌then◌else◌, Option, none, some, List, [], ◌∷◌,
  length, drop,
}
use ngx_http_pow_gate.Common.Int.{ℤ}
use ngx_http_pow_gate.Common.Bytes.{codes, eq_bytes, starts_with}
use ngx_http_pow_gate.Context.{Assurance, pow, no_js, IpAddr}
use ngx_http_pow_gate.Decision.{Decision, parse}
use ngx_http_pow_gate.Finish.{Response}
use ngx_http_pow_gate.Nojs
use ngx_http_pow_gate.Proof.{signed_decimal}
use ngx_http_pow_gate.Replay.{Captured, new, inject, script_tag, method_replayable, same_letters}
use ngx_http_pow_gate.Runtime.{header, client_ip, content_length}
use ngx_http_pow_gate.Gate.{
  Request, Cfg, World, Action, declined, status, respond, read_for_replay, client_context, or_empty,
}
use ngx_http_pow_gate.Gate.Session.{Session, check_clearance}
use ngx_http_pow_gate.Gate.Pages.{nojs_page, challenge_page, html}
use ngx_http_pow_gate.Gate.Endpoints.{route_internal, pass_url, no_store_header}

-- What the handler reads of the location, the values of its variables in this request among them.
pub record Location : Type 0 where
  pub enabled : Bool
  pub decision : List ℕ
  pub trusted : Option (List ℕ)
  pub page_cache : List ℕ
  pub nojs_page_cache : List ℕ
  pub solver_query : List ℕ
  pub solver_js : List ℕ
  pub verify_enabled : Bool

-- `is_trusted`
unfoldable pub is_trusted : Option (List ℕ) → Bool
is_trusted none = false
is_trusted (some value) = eq_bytes value (codes "1")

-- `assurance_for`
unfoldable pub assurance_for : Decision → ℕ → Assurance
assurance_for (Decision.challenge_no_js delay) difficulty = no_js delay
assurance_for (Decision.challenge (some n)) difficulty = pow n
assurance_for (Decision.challenge none) difficulty = pow difficulty
assurance_for Decision.allow difficulty = pow difficulty
assurance_for Decision.deny difficulty = pow difficulty
assurance_for (Decision.verify name) difficulty = pow difficulty

-- `RENDERS_HTML`
abbrev pub renders_html : List ℕ → Bool
renders_html dest =
    same_letters dest (codes "document")
    || same_letters dest (codes "iframe")
    || same_letters dest (codes "frame")

-- How the handler ends, with the headers that it adds on its way.
pub record Handled : Type 0 where
  pub out : List (List ℕ × List ℕ)
  pub action : Action

abbrev ended : Action → Handled
ended action = record { out = []; action = action }

-- `DECLINED` where the suffix is none of the endpoints
abbrev pub or_declined : Option Action → Action
or_declined none = declined
or_declined (some action) = action

abbrev is_empty : List ℕ → Bool
is_empty [] = true
is_empty (c ∷ s) = false

-- Whether the endpoint is one of the protocol
abbrev is_protocol : List ℕ → Bool
is_protocol suffix =
    eq_bytes suffix (codes "challenge")
    || eq_bytes suffix (codes "pass")
    || eq_bytes suffix (codes "status")
    || eq_bytes suffix (codes "verify")

module _ (world : World) (cfg : Cfg) (location : Location) (r : Request) where
  -- The `no_store` of `route_internal`
  abbrev internal_out : List ℕ → List (List ℕ × List ℕ)
  internal_out suffix =
      if is_protocol suffix
        || (eq_bytes suffix (codes "solver.js")
            && not (eq_bytes r.method (codes "GET") || eq_bytes r.method (codes "HEAD")))
      then no_store_header ∷ []
      else []

  unfoldable pub internal : List ℕ → Assurance → Handled
  internal suffix required = record {
    out = internal_out suffix;
    action = or_declined (
        route_internal world cfg r location.solver_query location.solver_js location.nojs_page_cache
          suffix location.verify_enabled required);
  }

  abbrev is_long : Option ℕ → Bool
  is_long none = true
  is_long (some n) = ltb cfg.replay_max_body n

  abbrev is_asset : Option (List ℕ) → Bool
  is_asset none = false
  is_asset (some dest) = not (renders_html dest)

  -- `should_capture`
  unfoldable pub should_capture : Bool
  should_capture =
      cfg.replay
      && not (is_long (content_length r.content_length_n))
      && not (is_asset (header world.text r.headers (codes "sec-fetch-dest")))
      && method_replayable r.method

  abbrev nojs_with : ℤ → Option (List ℕ) → Action
  nojs_with delay none = status 503
  nojs_with delay (some context) =
      let grant =
        Nojs.issue world.wire world.write_grant cfg.key world.random r.unparsed_uri delay world.now
          context in
      respond (nojs_page location.nojs_page_cache (pass_url world cfg r grant) delay)

  -- The page without JavaScript
  unfoldable pub nojs_challenge : ℤ → Action
  nojs_challenge delay =
      if world.cluster_enabled && not world.cluster_available
      then status 503
      else nojs_with delay (client_context world cfg r)

  -- The page with the solver, with the request in it if it can be replayed
  unfoldable pub solver_challenge : Action
  solver_challenge =
      if should_capture then read_for_replay else respond (challenge_page location.page_cache)

  unfoldable pub challenged : Decision → Action
  challenged (Decision.challenge_no_js delay) = nojs_challenge delay
  challenged (Decision.challenge n) = solver_challenge
  challenged Decision.allow = solver_challenge
  challenged Decision.deny = solver_challenge
  challenged (Decision.verify name) = solver_challenge

  -- `clock_headers`
  abbrev clock_headers : List (List ℕ × List ℕ)
  clock_headers =
      (codes "X-Pow-Now", signed_decimal world.now)
      ∷ (codes "X-Pow-Reason", codes "proof_skew")
      ∷ []

  unfoldable pub by_session : Decision → Session → Handled
  by_session decision Session.valid = ended declined
  by_session decision Session.proof_skewed = record {
    out = no_store_header ∷ clock_headers;
    action = challenged decision;
  }
  by_session decision Session.invalid = record {
    out = no_store_header ∷ [];
    action = challenged decision;
  }

  -- The handler from its third step on
  unfoldable pub gated : Decision → Assurance → Handled
  gated decision required = by_session decision (check_clearance world cfg r required)

  unfoldable pub by_verifier : List ℕ → Assurance → Option IpAddr → Handled
  by_verifier name required none = gated (Decision.verify name) required
  by_verifier name required (some ip) =
      if world.confirmed name ip then ended declined else gated (Decision.verify name) required

  -- `deny`, and the other decisions
  unfoldable pub by_decision : Decision → Assurance → Handled
  by_decision Decision.allow required = ended declined
  by_decision Decision.deny required = record { out = no_store_header ∷ []; action = status 403 }
  by_decision (Decision.verify name) required = by_verifier name required (client_ip r.sockaddr)
  by_decision (Decision.challenge n) required = gated (Decision.challenge n) required
  by_decision (Decision.challenge_no_js delay) required =
      gated (Decision.challenge_no_js delay) required

  -- Whether the request is for the endpoint
  abbrev pub is_internal : Bool
  is_internal = not (is_empty cfg.endpoint) && starts_with r.uri cfg.endpoint

  abbrev pub required_for : Assurance
  required_for = assurance_for (parse location.decision) cfg.difficulty

  -- `pow_gate_access`, of a request that has a location
  unfoldable pub access : Handled
  access =
      if not location.enabled
      then ended declined
      else if is_internal
      then internal (drop (length cfg.endpoint) r.uri) required_for
      else if is_trusted location.trusted
      then ended declined
      else by_decision (parse location.decision) required_for

  -- `body_ready`, of a request that has a location, with its body
  unfoldable pub body_ready : (Captured → List ℕ) → Option (List ℕ) → Response
  body_ready write_captured read =
      let body = or_empty read in
      let content_type = or_empty (header world.text r.headers (codes "content-type")) in
      let page = location.page_cache in
      record {
        status = 200;
        content_type = html;
        body = elim (new r.method r.unparsed_uri content_type body) [
          | none ↦ page
          | some c ↦
              if leb (length body) cfg.replay_max_body
              then inject page (script_tag write_captured c)
              else page
        ];
        headers = no_store_header ∷ [];
      }

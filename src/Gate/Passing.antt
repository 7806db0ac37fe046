-- ===== src/Gate/Passing.antt =====
-- Which requests the gate lets through.
use ngx_http_pow_gate.Common.{
  ℕ, ◌≡◌, ◌≢◌, arith, refl, Bool, true, false, not, ltb, if◌then◌else◌, Option, none, some, List,
  length, drop, Bool-cases, Option-cases, inl, inr, ◌⊎◌, ap,
}
use ngx_http_pow_gate.Common.Int.{ℤ}
use ngx_http_pow_gate.Common.Bytes.{codes}
use ngx_http_pow_gate.Wire.{IsWire}
use ngx_http_pow_gate.Clearance.Verified.{IsAccepted, with_verified-eq-some}
use ngx_http_pow_gate.Context.{Assurance, IpAddr}
use ngx_http_pow_gate.Decision.{Decision, parse}
use ngx_http_pow_gate.Runtime.{cookie, header, client_ip}
use ngx_http_pow_gate.Gate.{Request, Cfg, World, Action, declined, client_context}
use ngx_http_pow_gate.Gate.Session.{
  Session, check_clearance, token_session, cookie_session, or_invalid, proof_of,
}
use ngx_http_pow_gate.Gate.Endpoints.{
  route_internal, pass, pass_with, passed, issue_challenge, issue_for, issue_with, verify_solution,
}
use ngx_http_pow_gate.Gate.Access.{
  Location, Handled, or_declined, access, internal, by_decision, by_verifier, gated, by_session,
  is_trusted, is_internal, required_for, challenged, nojs_challenge, solver_challenge,
}

module _ (world : World) (cfg : Cfg) (r : Request) where
  -- The request has a clearance for an assurance: the key is usable, and a cookie of the location
  -- holds a clearance that verifies in the context of the request.
  pub record Cleared (required : Assurance) : Type 0 where
    pub usable : cfg.key_ok ≡ true
    pub token : List ℕ
    pub presented : cookie world.text r.headers cfg.cookie.name ≡ some token
    pub context : List ℕ
    pub seen : client_context world cfg r ≡ some context
    pub accepted :
        IsAccepted world.wire world.read_clearance cfg.key token context required world.now
          cfg.clearance_ttl
          (proof_of world cfg r (header world.text r.headers (codes "x-pow-proof")))
          Session.valid

  cookie_session-valid :
      IsWire world.wire
      → (required : Assurance) (token context : List ℕ)
      → cookie_session world cfg r required token context ≡ Session.valid
      → IsAccepted world.wire world.read_clearance cfg.key token context required world.now
          cfg.clearance_ttl
          (proof_of world cfg r (header world.text r.headers (codes "x-pow-proof")))
          Session.valid
  unfolding cookie_session
  cookie_session-valid laws required token context h =
      with_verified-eq-some world.wire laws world.read_clearance cfg.key token context required
        world.now cfg.clearance_ttl _ Session.valid (or_invalid-valid _ h)
    where
      or_invalid-valid :
          (session : Option Session)
          → or_invalid world cfg r session ≡ Session.valid
          → session ≡ some Session.valid
      or_invalid-valid none e = absurd (cc e)
      or_invalid-valid (some s) e = ap some e

  check_clearance-valid :
      IsWire world.wire
      → (required : Assurance) → check_clearance world cfg r required ≡ Session.valid
      → Cleared required
  unfolding check_clearance token_session
  check_clearance-valid laws required h =
      let (usable, session) = passes_if cfg.key_ok _ h in
      elim (Option-cases (cookie world.text r.headers cfg.cookie.name)) [
        | inl nothing ↦ absurd (cc (rw nothing at session))
        | inr (token, presented) ↦ elim (Option-cases (client_context world cfg r)) [
          | inl nothing ↦ absurd (cc (rw (presented, nothing) at session))
          | inr (context, seen) ↦
              let (short, h1) =
                fails_if (ltb 4096 (length token)) _ (rw (presented, seen) at session) in
              record {
                usable = usable;
                token = token;
                presented = presented;
                context = context;
                seen = seen;
                accepted = cookie_session-valid laws required token context h1;
              }
        ]
      ]
    where
      passes_if :
          (b : Bool) (s : Session)
          → (if not b then Session.invalid else s) ≡ Session.valid
          → (b ≡ true) × (s ≡ Session.valid)
      passes_if true s e = (refl, e)
      passes_if false s e = absurd (cc e)

      fails_if :
          (b : Bool) (s : Session)
          → (if b then Session.invalid else s) ≡ Session.valid
          → (b ≡ false) × (s ≡ Session.valid)
      fails_if false s e = (refl, e)
      fails_if true s e = absurd (cc e)

module _ (world : World) (cfg : Cfg) (location : Location) (r : Request) where
  -- Why the gate does not stand in the way of a request.
  pub data Passes : Type 0 where
    disabled : location.enabled ≡ false → Passes
    elsewhere :
        route_internal world cfg r location.solver_query location.solver_js location.nojs_page_cache
            (drop (length cfg.endpoint) r.uri)
            location.verify_enabled
            (required_for world cfg location r)
          ≡ none
        → is_internal world cfg location r ≡ true
        → Passes
    trusted : is_trusted location.trusted ≡ true → Passes
    allowed : parse location.decision ≡ Decision.allow → Passes
    confirmed :
        (name : List ℕ) (ip : IpAddr)
        → parse location.decision ≡ Decision.verify name
        → client_ip r.sockaddr ≡ some ip
        → world.confirmed name ip ≡ true
        → Passes
    cleared : Cleared world cfg r (required_for world cfg location r) → Passes

  nojs_challenge-kept : (delay : ℤ) → nojs_challenge world cfg location r delay ≢ declined
  unfolding nojs_challenge
  nojs_challenge-kept delay e = ground arith

  solver_challenge-kept : solver_challenge world cfg location r ≢ declined
  unfolding solver_challenge
  solver_challenge-kept e = ground arith

  challenged-kept : (d : Decision) → challenged world cfg location r d ≢ declined
  unfolding challenged
  challenged-kept (Decision.challenge_no_js delay) e = nojs_challenge-kept delay e
  challenged-kept (Decision.challenge n) e = solver_challenge-kept e
  challenged-kept Decision.allow e = solver_challenge-kept e
  challenged-kept Decision.deny e = solver_challenge-kept e
  challenged-kept (Decision.verify name) e = solver_challenge-kept e

  gated-declined :
      IsWire world.wire
      → (decision : Decision) (required : Assurance)
      → (gated world cfg location r decision required).action ≡ declined
      → Cleared world cfg r required
  unfolding gated by_session
  gated-declined laws decision required h =
      check_clearance-valid world cfg r laws required
        (sessions (check_clearance world cfg r required) h)
    where
      sessions :
          (s : Session)
          → (by_session world cfg location r decision s).action ≡ declined
          → s ≡ Session.valid
      sessions Session.valid e = refl
      sessions Session.proof_skewed e = absurd (challenged-kept decision e)
      sessions Session.invalid e = absurd (challenged-kept decision e)

  -- The endpoints of the gate all end in an answer of their own.
  pass-kept :
      (template : List ℕ) (required : Assurance) → pass world cfg r template required ≢ declined
  unfolding pass pass_with passed
  pass-kept template required e = ground arith

  issue_challenge-kept : (required : Assurance) → issue_challenge world cfg r required ≢ declined
  unfolding issue_challenge issue_for issue_with
  issue_challenge-kept required e = ground arith

  verify_solution-kept : (enabled : Bool) → verify_solution world cfg r enabled ≢ declined
  unfolding verify_solution
  verify_solution-kept enabled e = ground arith

  route_internal-kept :
      (solver_query solver_js template suffix : List ℕ) (enabled : Bool) (required : Assurance)
      → route_internal world cfg r solver_query solver_js template suffix enabled required
        ≢ some declined
  unfolding route_internal
  route_internal-kept solver_query solver_js template suffix enabled required e = ground (
    arith,
    pass-kept template required,
    issue_challenge-kept required,
    verify_solution-kept enabled,
  )

  by_decision-declined :
      IsWire world.wire
      → (decision : Decision) → parse location.decision ≡ decision
      → (by_decision world cfg location r decision (required_for world cfg location r)).action
        ≡ declined
      → Passes
  unfolding by_decision by_verifier
  by_decision-declined laws Decision.allow e h = allowed e
  by_decision-declined laws Decision.deny e h = absurd (cc h)
  by_decision-declined laws (Decision.challenge n) e h =
      cleared (gated-declined laws (Decision.challenge n) (required_for world cfg location r) h)
  by_decision-declined laws (Decision.challenge_no_js delay) e h =
      cleared
        (gated-declined laws (Decision.challenge_no_js delay) (required_for world cfg location r) h)
  by_decision-declined laws (Decision.verify name) e h =
      elim (Option-cases (client_ip r.sockaddr)) [
        | inl nothing ↦ cleared (
            gated-declined laws (Decision.verify name) (required_for world cfg location r)
              (rw nothing at h))
        | inr (ip, known) ↦ elim (Bool-cases (world.confirmed name ip)) [
          | inl yes_bot ↦ confirmed name ip e known yes_bot
          | inr no_bot ↦ cleared (
              gated-declined laws (Decision.verify name) (required_for world cfg location r)
                (rw (known, no_bot) at h))
        ]
      ]

  -- A request that the gate lets through is one of a location where the gate is off, one below the
  -- endpoint that is none of the endpoints, one of a trusted network, one that the decision
  -- allows, one of an address that the named verifier confirms, or one with a clearance: the key
  -- is usable, and a cookie of the location's name holds a token that is signed under the key and
  -- reads as a clearance for the context of the request, strong enough for the decision, in its
  -- lifetime, whose callback accepted the proof of the request.
  pub access-declined : IsWire world.wire → (access world cfg location r).action ≡ declined → Passes
  unfolding access internal
  access-declined laws h = elim (either (not location.enabled) _ _ h) [
    | inl (off, e) ↦ disabled (not-true location.enabled off)
    | inr (on, h1) ↦ elim (either (is_internal world cfg location r) _ _ h1) [
      | inl (inside, e) ↦ elsewhere (nowhere _ (λ k. route_internal-kept _ _ _ _ _ _ k) e) inside
      | inr (outside, h2) ↦ elim (either (is_trusted location.trusted) _ _ h2) [
        | inl (known, e) ↦ trusted known
        | inr (unknown, h3) ↦ by_decision-declined laws (parse location.decision) refl h3
      ]
    ]
  ]
    where
      either :
          (b : Bool) (x y : Handled)
          → (if b then x else y).action ≡ declined
          → ((b ≡ true) × (x.action ≡ declined)) ⊎ ((b ≡ false) × (y.action ≡ declined))
      either true x y e = inl (refl, e)
      either false x y e = inr (refl, e)

      not-true : (b : Bool) → not b ≡ true → b ≡ false
      not-true true e = absurd (cc e)
      not-true false e = refl

      nowhere : (a : Option Action) → a ≢ some declined → or_declined a ≡ declined → a ≡ none
      nowhere none kept e = refl
      nowhere (some action) kept e = absurd (kept (ap some e))

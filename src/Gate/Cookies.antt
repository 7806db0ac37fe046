-- ===== src/Gate/Cookies.antt =====
-- No answer of a handler carries a cookie: a cookie is only ever sent by the end of a redemption.
use ngx_http_pow_gate.Common.{
  ℕ, ◌≡◌, refl, arith, Bool, true, false, not, if◌then◌else◌, Option, none, some, List, sym,
}
use ngx_http_pow_gate.Common.Bytes.{codes, eq_bytes}
use ngx_http_pow_gate.Context.{Assurance, pow, no_js, IpAddr}
use ngx_http_pow_gate.Decision.{Decision}
use ngx_http_pow_gate.Finish.{header_of}
use ngx_http_pow_gate.Pow
use ngx_http_pow_gate.Replay.{Captured}
use ngx_http_pow_gate.Runtime.{Segment, client_ip}
use ngx_http_pow_gate.Gate.{Request, Cfg, World, Submission, Action, redeem, respond}
use ngx_http_pow_gate.Gate.Session.{Session, check_clearance}
use ngx_http_pow_gate.Gate.Pages.{solver, nojs_page, challenge_page}
use ngx_http_pow_gate.Gate.Endpoints.{
  route_internal, pass, pass_with, passed, issue_challenge, issue_for, issue_with, verify_solution,
  verify_body, parsed, submission_for, submitted, solved, signed_by, status_of,
}
use ngx_http_pow_gate.Gate.Access.{
  Location, Handled, access, internal, or_declined, gated, by_session, by_verifier, by_decision,
  challenged, nojs_challenge, solver_challenge, body_ready, is_internal, is_trusted,
}

abbrev is_some : Option (List ℕ) → Bool
is_some none = false
is_some (some v) = true

-- The response of a handler has the header.
abbrev pub sets_cookie : Action → Bool
sets_cookie (respond response) = is_some (header_of (codes "Set-Cookie") response.headers)
sets_cookie Action.declined = false
sets_cookie (Action.status code) = false
sets_cookie (redeem token expires grant) = false
sets_cookie Action.read_for_verify = false
sets_cookie Action.read_for_replay = false

branch : {A : Type 0} (P : A → Type 0) (b : Bool) {x y : A} → P x → P y → P (if b then x else y)
branch P true p q = p
branch P false p q = q

module _ (world : World) (cfg : Cfg) (r : Request) where
  pass-sets_cookie :
      (template : List ℕ) (required : Assurance)
      → sets_cookie (pass world cfg r template required) ≡ false
  unfolding pass pass_with passed header_of eq_bytes nojs_page
  pass-sets_cookie template required = ground arith

  issue_challenge-sets_cookie :
      (required : Assurance) → sets_cookie (issue_challenge world cfg r required) ≡ false
  unfolding issue_challenge issue_for issue_with header_of eq_bytes
  issue_challenge-sets_cookie required = ground arith

  status_of-sets_cookie :
      (session : Session) → sets_cookie (respond (status_of world cfg r session)) ≡ false
  unfolding status_of header_of eq_bytes
  status_of-sets_cookie Session.valid = refl
  status_of-sets_cookie Session.proof_skewed = refl
  status_of-sets_cookie Session.invalid = refl

  solver-sets_cookie :
      (solver_query solver_js : List ℕ)
      → sets_cookie (respond (solver solver_query solver_js r.args)) ≡ false
  unfolding solver header_of eq_bytes
  solver-sets_cookie solver_query solver_js = refl

  verify_solution-sets_cookie :
      (enabled : Bool) → sets_cookie (verify_solution world cfg r enabled) ≡ false
  unfolding verify_solution
  verify_solution-sets_cookie enabled = ground arith

  abbrev or_none : Option Action → Bool
  or_none none = false
  or_none (some action) = sets_cookie action

  route_internal-sets_cookie :
      (solver_query solver_js template suffix : List ℕ) (enabled : Bool) (required : Assurance)
      (action : Action)
      → route_internal world cfg r solver_query solver_js template suffix enabled required
        ≡ some action
      → sets_cookie action ≡ false
  unfolding route_internal
  route_internal-sets_cookie solver_query solver_js template suffix enabled required action h =
      ground (
        arith,
        pass-sets_cookie template required,
        issue_challenge-sets_cookie required,
        verify_solution-sets_cookie enabled,
        solver-sets_cookie solver_query solver_js,
        status_of-sets_cookie (check_clearance world cfg r required),
      )

  signed_by-sets_cookie :
      (pk context : List ℕ) (difficulty : ℕ) (sub : Submission) (signature : Option (List ℕ))
      → sets_cookie (signed_by world cfg r pk context difficulty sub signature) ≡ false
  unfolding signed_by header_of eq_bytes
  signed_by-sets_cookie pk context difficulty sub none = refl
  signed_by-sets_cookie pk context difficulty sub (some signature) = ground arith

  solved-sets_cookie :
      (pk context : List ℕ) (difficulty : ℕ) (sub : Submission) (v : Pow.Verdict)
      → sets_cookie (solved world cfg r pk context difficulty sub v) ≡ false
  unfolding solved header_of eq_bytes
  solved-sets_cookie pk context difficulty sub Pow.ok =
      signed_by-sets_cookie pk context difficulty sub (world.wire.unb64url sub.signature)
  solved-sets_cookie pk context difficulty sub Pow.expired = refl
  solved-sets_cookie pk context difficulty sub Pow.bad_token = refl
  solved-sets_cookie pk context difficulty sub Pow.wrong_solution = refl

  submitted-sets_cookie :
      (difficulty : ℕ) (sub : Submission) (pk context : Option (List ℕ))
      → sets_cookie (submitted world cfg r difficulty sub pk context) ≡ false
  unfolding submitted header_of eq_bytes
  submitted-sets_cookie difficulty sub none context = refl
  submitted-sets_cookie difficulty sub (some pk) none = refl
  submitted-sets_cookie difficulty sub (some pk) (some context) =
      solved-sets_cookie pk context difficulty sub _

  parsed-sets_cookie :
      (required : Assurance) (sub : Option Submission)
      → sets_cookie (parsed world cfg r required sub) ≡ false
  unfolding parsed submission_for header_of eq_bytes
  parsed-sets_cookie required none = refl
  parsed-sets_cookie (no_js delay) (some sub) = refl
  parsed-sets_cookie (pow difficulty) (some sub) = submitted-sets_cookie difficulty sub _ _

  verify_body-sets_cookie :
      (pread : ℕ → ℕ → List ℕ) (bufs : Option (List Segment)) (required : Assurance)
      → sets_cookie (verify_body world cfg r pread bufs required) ≡ false
  unfolding verify_body header_of eq_bytes
  verify_body-sets_cookie pread bufs required =
      branch (λ a. sets_cookie a ≡ false) (not cfg.key_ok) refl (parsed-sets_cookie required _)

module _ (world : World) (cfg : Cfg) (location : Location) (r : Request) where
  -- What the access handler adds to the headers and how it ends.
  abbrev HasNone : Handled → Type 0
  HasNone h = (header_of (codes "Set-Cookie") h.out ≡ none) × (sets_cookie h.action ≡ false)

  challenged-sets_cookie :
      (decision : Decision) → sets_cookie (challenged world cfg location r decision) ≡ false
  unfolding challenged nojs_challenge solver_challenge header_of eq_bytes nojs_page challenge_page
  challenged-sets_cookie decision = ground arith

  gated-HasNone :
      (decision : Decision) (required : Assurance)
      → HasNone (gated world cfg location r decision required)
  unfolding gated by_session header_of eq_bytes
  gated-HasNone decision required = by_state (check_clearance world cfg r required)
    where
      by_state : (s : Session) → HasNone (by_session world cfg location r decision s)
      by_state Session.valid = (refl, refl)
      by_state Session.proof_skewed = (refl, challenged-sets_cookie decision)
      by_state Session.invalid = (refl, challenged-sets_cookie decision)

  by_decision-HasNone :
      (decision : Decision) (required : Assurance)
      → HasNone (by_decision world cfg location r decision required)
  unfolding by_decision by_verifier header_of eq_bytes
  by_decision-HasNone Decision.allow required = (refl, refl)
  by_decision-HasNone Decision.deny required = (refl, refl)
  by_decision-HasNone (Decision.challenge n) required =
      gated-HasNone (Decision.challenge n) required
  by_decision-HasNone (Decision.challenge_no_js delay) required =
      gated-HasNone (Decision.challenge_no_js delay) required
  by_decision-HasNone (Decision.verify name) required = by_address (client_ip r.sockaddr)
    where
      by_address :
          (ip : Option IpAddr) → HasNone (by_verifier world cfg location r name required ip)
      by_address none = gated-HasNone (Decision.verify name) required
      by_address (some ip) =
          branch HasNone (world.confirmed name ip) (refl, refl)
            (gated-HasNone (Decision.verify name) required)

  internal-HasNone :
      (suffix : List ℕ) (required : Assurance)
      → HasNone (internal world cfg location r suffix required)
  unfolding internal header_of eq_bytes
  internal-HasNone suffix required = (ground arith, routed _ refl)
    where
      routed :
          (a : Option Action)
          → a
            ≡ route_internal world cfg r location.solver_query location.solver_js
                location.nojs_page_cache suffix location.verify_enabled required
          → sets_cookie (or_declined a) ≡ false
      routed none e = refl
      routed (some action) e =
          route_internal-sets_cookie world cfg r location.solver_query location.solver_js
            location.nojs_page_cache suffix location.verify_enabled required action (sym e)

  access-HasNone : HasNone (access world cfg location r)
  unfolding access header_of
  access-HasNone =
      branch HasNone (not location.enabled) (refl, refl)
        (branch HasNone (is_internal world cfg location r) (internal-HasNone _ _)
          (branch HasNone (is_trusted location.trusted) (refl, refl) (by_decision-HasNone _ _)))

  -- Whatever the request, no answer of the module carries a cookie but the end of a redemption:
  -- neither what the access handler adds to the headers, nor its answer at an endpoint or its
  -- challenge, nor the answer to a submission once its body has been read, nor the page that
  -- replays a request.
  pub handlers-sets_cookie :
      (pread : ℕ → ℕ → List ℕ) (bufs : Option (List Segment)) (required : Assurance)
      (write_captured : Captured → List ℕ) (read : Option (List ℕ))
      → (header_of (codes "Set-Cookie") (access world cfg location r).out ≡ none)
        × (sets_cookie (access world cfg location r).action ≡ false)
        × (sets_cookie (verify_body world cfg r pread bufs required) ≡ false)
        × (sets_cookie (respond (body_ready world cfg location r write_captured read)) ≡ false)
  unfolding body_ready header_of eq_bytes
  handlers-sets_cookie pread bufs required write_captured read = (
    access-HasNone.0,
    access-HasNone.1,
    verify_body-sets_cookie world cfg r pread bufs required,
    refl,
  )

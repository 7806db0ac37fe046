-- ===== src/Gate/Endpoints.antt =====
-- The internal endpoints: `route_internal` and `status` of src/ngx-http-pow-gate/src/challenge.rs,
-- and the handlers of src/ngx-http-pow-gate/src/engine.
use ngx_http_pow_gate.Common.{
  ℕ, Bool, true, not, ◌&&◌, ◌||◌, ◌==◌, if◌then◌else◌, Option, none, some, List, [], ◌∷◌, ◌++◌,
  length,
}
use ngx_http_pow_gate.Common.Int.{ℤ, pos, ltb_ℤ, add_i64}
use ngx_http_pow_gate.Common.Bytes.{codes, eq_bytes}
use ngx_http_pow_gate.Common.Parse.{split_once}
use ngx_http_pow_gate.Clearance
use ngx_http_pow_gate.Context.{Assurance, pow, no_js}
use ngx_http_pow_gate.Finish.{Grant, Response, redirect_body}
use ngx_http_pow_gate.Nojs
use ngx_http_pow_gate.Pow
use ngx_http_pow_gate.Pow.{Challenge}
use ngx_http_pow_gate.Proof.{valid_public_key, verify_challenge, signed_decimal}
use ngx_http_pow_gate.Runtime.{
  Segment, header_limited, build_set_cookie, request_body_limited, split_on,
}
use ngx_http_pow_gate.Gate.{
  Request, Cfg, World, Submission, Action, status, respond, redeem, read_for_verify, client_context,
  or_empty,
}
use ngx_http_pow_gate.Gate.Session.{Session, check_clearance}
use ngx_http_pow_gate.Gate.Pages.{nojs_page, solver, html}

-- `VERIFY_LIMIT`
abbrev pub verify_limit : ℕ
verify_limit = 8192

abbrev pub no_store_header : List ℕ × List ℕ
no_store_header = (codes "Cache-Control", codes "no-store")

abbrev pub plain : ℕ → List ℕ → List (List ℕ × List ℕ) → Response
plain code body headers = record {
  status = code;
  content_type = codes "text/plain";
  body = body;
  headers = headers;
}

-- `finalize_status` of engine/pow.rs
abbrev pub rejected : ℕ → Action
rejected code = respond (plain code (codes "rejected\n") [])

abbrev pub unavailable : Action
unavailable = respond (plain 503 (codes "unavailable\n") [])

-- `query_param`: the value of the first pair with the name
unfoldable pub first_pair : List ℕ → List (List ℕ) → Option (List ℕ)
first_pair name [] = none
first_pair name (pair ∷ pairs) = in_pair (split_once b'=' pair) (first_pair name pairs)
  where
    in_pair : Option (List ℕ × List ℕ) → Option (List ℕ) → Option (List ℕ)
    in_pair none rest = rest
    in_pair (some (k, v)) rest = if eq_bytes k name then some v else rest

unfoldable pub query_param : Request → List ℕ → Option (List ℕ)
query_param r name = first_pair name (split_on b'&' r.args)

module _ (world : World) (cfg : Cfg) (r : Request) where
  -- `format!("{}pass?t={}", ..)`
  abbrev pub pass_url : List ℕ → List ℕ
  pass_url grant = cfg.endpoint ++ codes "pass?t=" ++ grant

  abbrev pub equal_ℤ : ℤ → ℤ → Bool
  equal_ℤ a b = not (ltb_ℤ a b) && not (ltb_ℤ b a)

  -- The grant that `pass` prepares
  abbrev pub nojs_grant : List ℕ → Assurance → Nojs.Grant → Grant
  nojs_grant context required grant = record {
    cookie =
        build_set_cookie
          (Clearance.issue world.wire world.write_clearance cfg.key [] context required world.now
            cfg.clearance_ttl)
          cfg.cookie;
    redirect = some grant.path;
    difficulty = 0;
    kind = codes "nojs";
  }

  -- `match nojs::verify(..)` of `pass`
  unfoldable pub passed : (template context token : List ℕ) → ℤ → Nojs.Verdict → Action
  passed template context token delay (Nojs.ok grant) =
      if not (equal_ℤ grant.delay delay)
      then status 400
      else redeem token (add_i64 grant.iat (pos Nojs.nojs_grace))
          (nojs_grant context (no_js delay) grant)
  passed template context token delay (Nojs.too_early grant) =
      let fresh =
        Nojs.issue world.wire world.write_grant cfg.key world.random grant.path delay world.now
          context in
      respond (nojs_page template (pass_url fresh) grant.delay)
  passed template context token delay Nojs.bad = respond (record {
    status = 302;
    content_type = html;
    body = redirect_body (codes "/");
    headers = (codes "Location", codes "/") ∷ no_store_header ∷ [];
  })

  unfoldable pub pass_with : List ℕ → Assurance → Option (List ℕ) → Action
  pass_with template (pow difficulty) context = status 400
  pass_with template (no_js delay) none = status 503
  pass_with template (no_js delay) (some context) =
      let token = or_empty (query_param r (codes "t")) in
      passed template context token delay
        (Nojs.verify world.wire world.read_grant cfg.key token world.now context)

  -- `pass`
  unfoldable pub pass : List ℕ → Assurance → Action
  pass template required =
      if not cfg.key_ok
      then unavailable
      else pass_with template required (client_context world cfg r)

  -- `filter(|s| s.len() == 87).and_then(..)` and `filter(|pk| valid_public_key(pk))`
  abbrev pub checked_key : Option (List ℕ) → Option (List ℕ)
  checked_key none = none
  checked_key (some pk) = if valid_public_key world.from_sec1_bytes pk then some pk else none

  abbrev key_text : Option (List ℕ) → Option (List ℕ)
  key_text none = none
  key_text (some s) = if length s == 87 then world.wire.unb64url s else none

  unfoldable pub issue_with : ℕ → Option (List ℕ) → Option (List ℕ) → Action
  issue_with difficulty none context = status 400
  issue_with difficulty (some pk) none = status 503
  issue_with difficulty (some pk) (some context) =
      let challenge =
        Pow.issue world.wire world.write_bound cfg.key world.random pk context difficulty world.now
          (pos 120) in
      respond (record {
        status = 200;
        content_type = codes "application/json";
        body = world.write_challenge challenge world.now;
        headers = no_store_header ∷ [];
      })

  unfoldable pub issue_for : Assurance → Action
  issue_for (no_js delay) = status 400
  issue_for (pow difficulty) =
      issue_with difficulty
        (checked_key (key_text (header_limited world.text r.headers (codes "x-pow-key") 87)))
        (client_context world cfg r)

  -- `issue_challenge`
  unfoldable pub issue_challenge : Assurance → Action
  issue_challenge required =
      if not cfg.key_ok || (world.cluster_enabled && not world.cluster_available)
      then unavailable
      else issue_for required

  -- `verify_solution`, up to the call that reads the body; `enabled` is what `enable` returns.
  unfoldable pub verify_solution : Bool → Action
  verify_solution enabled =
      if ltb_ℤ (pos verify_limit) r.content_length_n
      then status 413
      else if not enabled
      then status 503
      else read_for_verify

  abbrev pub challenge_of : Submission → Challenge
  challenge_of sub = record {
    version = sub.version;
    salt = sub.salt;
    exp = sub.exp;
    difficulty = sub.difficulty;
    token = sub.token;
  }

  -- The grant that `verify_body` prepares
  abbrev pub pow_grant : (pk context : List ℕ) → ℕ → Grant
  pow_grant pk context difficulty = record {
    cookie =
        build_set_cookie
          (Clearance.issue world.wire world.write_clearance cfg.key pk context (pow difficulty)
            world.now cfg.clearance_ttl)
          cfg.cookie;
    redirect = none;
    difficulty = difficulty;
    kind = codes "pow";
  }

  -- The signature over the token has been decoded, or could not be.
  unfoldable pub signed_by : (pk context : List ℕ) → ℕ → Submission → Option (List ℕ) → Action
  signed_by pk context difficulty sub none = rejected 400
  signed_by pk context difficulty sub (some signature) =
      if not (verify_challenge world.verify_signature pk sub.token signature)
      then rejected 400
      else redeem sub.token sub.exp (pow_grant pk context difficulty)

  unfoldable pub solved : (pk context : List ℕ) → ℕ → Submission → Pow.Verdict → Action
  solved pk context difficulty sub Pow.ok =
      signed_by pk context difficulty sub (world.wire.unb64url sub.signature)
  solved pk context difficulty sub Pow.expired = rejected 400
  solved pk context difficulty sub Pow.bad_token = rejected 400
  solved pk context difficulty sub Pow.wrong_solution = rejected 400

  unfoldable pub submitted : ℕ → Submission → Option (List ℕ) → Option (List ℕ) → Action
  submitted difficulty sub none context = rejected 400
  submitted difficulty sub (some pk) none = rejected 503
  submitted difficulty sub (some pk) (some context) = solved pk context difficulty sub (
      Pow.verify_solution world.wire world.write_bound world.sha256 cfg.key (challenge_of sub)
        sub.nonce pk context difficulty world.now)

  unfoldable pub submission_for : Assurance → Submission → Action
  submission_for (no_js delay) sub = rejected 400
  submission_for (pow difficulty) sub =
      submitted difficulty sub (checked_key (world.wire.unb64url sub.pubkey))
        (client_context world cfg r)

  unfoldable pub parsed : Assurance → Option Submission → Action
  parsed required none = rejected 400
  parsed required (some sub) = submission_for required sub

  abbrev pub read_parsed : Option (List ℕ) → Option Submission
  read_parsed none = none
  read_parsed (some body) = world.read_submission body

  -- `verify_body`, of a request that has a location; `pread` reads the temporary file.
  unfoldable pub verify_body : (pread : ℕ → ℕ → List ℕ) → Option (List Segment) → Assurance → Action
  verify_body pread bufs required =
      if not cfg.key_ok
      then rejected 503
      else parsed required (read_parsed (request_body_limited pread bufs verify_limit))

  abbrev now_header : List ℕ × List ℕ
  now_header = (codes "X-Pow-Now", signed_decimal world.now)

  unfoldable pub status_of : Session → Response
  status_of Session.valid = plain 204 [] (no_store_header ∷ now_header ∷ [])
  status_of Session.proof_skewed =
      plain 409 (codes "proof timestamp outside window\n")
        (no_store_header ∷ now_header ∷ (codes "X-Pow-Reason", codes "proof_skew") ∷ [])
  status_of Session.invalid =
      plain 409 (codes "clearance missing or invalid\n") (no_store_header ∷ now_header ∷ [])

  -- The methods of an endpoint
  unfoldable pub method_ok : List ℕ → Bool
  method_ok suffix =
      if eq_bytes suffix (codes "challenge")
        || eq_bytes suffix (codes "pass")
        || eq_bytes suffix (codes "status")
      then eq_bytes r.method (codes "GET")
      else if eq_bytes suffix (codes "solver.js")
      then eq_bytes r.method (codes "GET") || eq_bytes r.method (codes "HEAD")
      else if eq_bytes suffix (codes "verify")
      then eq_bytes r.method (codes "POST")
      else true

  -- `route_internal`, with the value of `solver_query`, the solver and what `enable` returns
  unfoldable pub route_internal :
      (solver_query solver_js template suffix : List ℕ) → Bool → Assurance → Option Action
  route_internal solver_query solver_js template suffix enabled required =
      if not (method_ok suffix)
      then some (status 405)
      else if eq_bytes suffix (codes "challenge")
      then some (issue_challenge required)
      else if eq_bytes suffix (codes "solver.js")
      then some (respond (solver solver_query solver_js r.args))
      else if eq_bytes suffix (codes "verify")
      then some (verify_solution enabled)
      else if eq_bytes suffix (codes "status")
      then some (respond (status_of (check_clearance world cfg r required)))
      else if eq_bytes suffix (codes "pass")
      then some (pass template required)
      else none

-- ===== src/Gate/Examples.antt =====
-- Runs of the theorems on a gate whose crates are small functions.
use ngx_http_pow_gate.Common.{
  ℕ, ◌≡◌, ◌≢◌, ◌↔◌, refl, true, false, none, some, List, [], ◌∷◌, replicate, length, ◌≤◌, arith,
  Option,
}
use ngx_http_pow_gate.Common.Int.{ℤ, pos, negsuc, add_i64, ◌+ℤ◌}
use ngx_http_pow_gate.Common.Bytes.{codes, eq_bytes, be_value, be_from, starts_with}
use ngx_http_pow_gate.Common.Parse.{split_once}
use ngx_http_pow_gate.Binding.{for_host, binding}
use ngx_http_pow_gate.Context.{
  IpAddr, default_policy, network, valid, mask, masked, canonical, pow, no_js,
}
use ngx_http_pow_gate.Decision.{parse}
use ngx_http_pow_gate.Finish.{Grant, finish, finish-cookie_iff, header_of}
use ngx_http_pow_gate.Mac.{fields, framed, parts, joined, hmac, ct_eq}
use ngx_http_pow_gate.Nojs
use ngx_http_pow_gate.Pow
use ngx_http_pow_gate.Proof.{valid_public_key, verify_challenge}
use ngx_http_pow_gate.Redemption.{accepted, reused, full, expired}
use ngx_http_pow_gate.Runtime.{
  Text, Segment, CookieConfig, in_memory, client_ip, header, split_on, request_body_limited,
  collect_all, collect,
}
use ngx_http_pow_gate.Target.{
  solution_valid, difficulty_to_target, long_division, hash_below, pow_hash,
}
use ngx_http_pow_gate.Uri.{same_site_path, is_safe_byte}
use ngx_http_pow_gate.Wire.{Wire}
use ngx_http_pow_gate.Wire.Doubled.{doubled_wire, doubled_wire-IsWire}
use ngx_http_pow_gate.Gate.{Request, Cfg, World, Submission, respond, client_context, or_empty}
use ngx_http_pow_gate.Gate.Endpoints.{
  pass, pass_with, passed, query_param, first_pair, verify_body, parsed, submission_for, submitted,
  solved, signed_by, pow_grant, nojs_grant, verify_limit, equal_ℤ,
}
use ngx_http_pow_gate.Gate.Access.{Location, access, body_ready, by_decision, is_trusted}
use ngx_http_pow_gate.Gate.Passing.{Passes, access-declined}
use ngx_http_pow_gate.Gate.Minting.{Solved, verify_body-redeem, pass-redeem}
use ngx_http_pow_gate.Gate.Cookies.{sets_cookie, handlers-sets_cookie}
use ngx_http_pow_gate.Replay.{Captured}

abbrev bare_wire : Wire
bare_wire = record {
  hmac_sha256 = λ key message. message;
  b64url = λ bytes. bytes;
  unb64url = λ s. some s;
  unb64url_into = λ s size. some s;
}

abbrev ascii : Text
ascii = record { lossy = λ s. s; is_utf8 = λ s. true }

abbrev point : List ℕ
point = 4 ∷ replicate 64 1

abbrev submission : Submission
submission = record {
  version = 2;
  signature = 1 ∷ [];
  salt = [];
  exp = pos 200;
  token = [];
  nonce = 0;
  pubkey = point;
  difficulty = 1;
}

abbrev nojs : List ℕ → Nojs.Grant
nojs context = record {
  path = codes "/";
  context = context;
  id = [];
  version = 2;
  iat = pos 100;
  delay = pos 5;
}

abbrev ip_text : IpAddr → List ℕ
ip_text ip = 1 ∷ []

-- The worker and its crates, with a wire and a context of the grants that it reads.
abbrev world_of : Wire → List ℕ → World
world_of wire context = record {
  wire = wire;
  text = ascii;
  now = pos 110;
  random = [];
  sha256 = λ m. replicate 32 0;
  verify_signature = λ pk m sig. true;
  from_sec1_bytes = λ pk. true;
  ip_text = ip_text;
  write_text = λ s. s;
  write_fields = λ n p e y. n;
  write_clearance = λ c. [];
  read_clearance = λ s. none;
  write_grant = λ g. [];
  read_grant = λ s. some (nojs context);
  write_bound = λ b. [];
  write_challenge = λ c now. [];
  read_submission = λ s. some submission;
  issuer = some (9 ∷ []);
  cluster_enabled = false;
  cluster_available = false;
  confirmed = λ name ip. false;
}

abbrev cookie_config : CookieConfig
cookie_config = record {
  name = codes "c";
  domain = none;
  path = codes "/";
  samesite = codes "Lax";
  secure = true;
  http_only = true;
  max_age_secs = pos 600;
}

abbrev cfg : Cfg
cfg = record {
  scope = record { tail = []; domain = some (codes "d") };
  key = replicate 16 7;
  key_ok = true;
  difficulty = 1;
  address = default_policy;
  clearance_ttl = pos 600;
  proof_skew = pos 30;
  require_proof = false;
  replay = false;
  replay_max_body = 0;
  endpoint = codes "/.pow/";
  cookie = cookie_config;
}

abbrev request : Request
request = record {
  method = codes "GET";
  uri = codes "/";
  unparsed_uri = codes "/";
  args = codes "t=p.nojs-v2|p";
  server = codes "d";
  headers = [];
  sockaddr = some (2 ∷ 0 ∷ 0 ∷ 0 ∷ 1 ∷ 2 ∷ 3 ∷ 4 ∷ []);
  content_length_n = negsuc 0;
}

abbrev location : Location
location = record {
  enabled = true;
  decision = codes "allow";
  trusted = none;
  page_cache = [];
  nojs_page_cache = [];
  solver_query = [];
  solver_js = [];
  verify_enabled = true;
}

access-declined_example : Passes (world_of doubled_wire []) cfg location request
unfolding access is_trusted by_decision parse starts_with eq_bytes
access-declined_example =
    access-declined (world_of doubled_wire []) cfg location request doubled_wire-IsWire refl

abbrev context : List ℕ
unfolding framed
context =
    framed
      (codes "pow-gate-context-v2" ∷ (1 ∷ []) ∷ [] ∷ codes "d" ∷ (9 ∷ []) ∷ (32 ∷ 128 ∷ []) ∷ [])

abbrev world : World
world = world_of bare_wire context

request_seen : client_context world cfg request ≡ some context
unfolding client_context client_ip be_value be_from for_host binding network valid mask masked
    canonical fields framed header
request_seen = refl

abbrev no_file : ℕ → ℕ → List ℕ
no_file offset size = []

no_file_bounded : (at size : ℕ) → length (no_file at size) ≤ size
no_file_bounded at size = omega arith

abbrev sent : Option (List Segment)
sent = some (in_memory (1 ∷ []) ∷ [])

verify_body-redeem_example :
    (cfg.key_ok ≡ true)
    × ((difficulty : ℕ) × (sub : Submission) × (body : List ℕ) × (pow 1 ≡ pow difficulty)
        × (request_body_limited no_file sent verify_limit ≡ some body)
        × (length body ≤ 8192)
        × (world.read_submission body ≡ some sub)
        × Solved world cfg request difficulty sub []
            (pos 200)
            (pow_grant world cfg request point context 1))
unfolding verify_body parsed submission_for submitted solved signed_by client_context client_ip
    be_value be_from for_host binding network valid mask masked canonical fields framed header
    request_body_limited collect_all collect valid_public_key Pow.verify_solution Pow.is_bad
    Pow.token_of Pow.binding hmac parts joined ct_eq solution_valid difficulty_to_target
    long_division hash_below pow_hash verify_challenge
verify_body-redeem_example =
    verify_body-redeem world cfg request no_file no_file_bounded sent (pow 1) [] (pos 200)
      (pow_grant world cfg request point context 1) refl

pass-redeem_example :
    (cfg.key_ok ≡ true)
    × ((delay : ℤ) × (seen : List ℕ) × (g : Nojs.Grant) × (no_js (pos 5) ≡ no_js delay)
        × (client_context world cfg request ≡ some seen)
        × (codes "p.nojs-v2|p" ≡ or_empty (query_param request (codes "t")))
        × (Nojs.verify bare_wire world.read_grant cfg.key (codes "p.nojs-v2|p") (pos 110) seen
            ≡ Nojs.ok g)
        × (equal_ℤ world cfg request g.delay delay ≡ true)
        × (pos 220 ≡ add_i64 g.iat (pos Nojs.nojs_grace))
        × (nojs_grant world cfg request context (no_js (pos 5)) (nojs context)
            ≡ nojs_grant world cfg request seen (no_js delay) g))
unfolding pass pass_with passed query_param first_pair split_on split_once eq_bytes client_context
    client_ip be_value be_from for_host binding network valid mask masked canonical fields framed
    header Nojs.verify Nojs.opened Nojs.checked Nojs.judged Nojs.is_current Nojs.timed
    Nojs.mac_input hmac parts joined ct_eq same_site_path is_safe_byte starts_with add_i64 ◌+ℤ◌
pass-redeem_example =
    pass-redeem world cfg request [] (no_js (pos 5)) (codes "p.nojs-v2|p") (pos 220)
      (nojs_grant world cfg request context (no_js (pos 5)) (nojs context)) refl

abbrev captured_text : Captured → List ℕ
captured_text c = []

handlers-sets_cookie_example :
    (header_of (codes "Set-Cookie") (access world cfg location request).out ≡ none)
    × (sets_cookie (access world cfg location request).action ≡ false)
    × (sets_cookie (verify_body world cfg request no_file sent (pow 1)) ≡ false)
    × (sets_cookie (respond (body_ready world cfg location request captured_text none)) ≡ false)
handlers-sets_cookie_example =
    handlers-sets_cookie world cfg location request no_file sent (pow 1) captured_text none

abbrev prepared : Grant
prepared = record { cookie = codes "c=1"; redirect = none; difficulty = 1; kind = codes "pow" }

finish-cookie_iff_example :
    ((header_of (codes "Set-Cookie") (finish reused prepared).headers ≡ some prepared.cookie)
      ↔ (reused ≡ accepted))
    × ((header_of (codes "Set-Cookie") (finish reused prepared).headers ≡ none)
        ↔ (reused ≢ accepted))
    × ((reused ≡ reused) ↔ ((finish reused prepared).status ≡ 409))
    × ((reused ≡ expired) ↔ ((finish reused prepared).status ≡ 400))
    × ((reused ≡ full) ↔ ((finish reused prepared).status ≡ 503))
finish-cookie_iff_example = finish-cookie_iff reused prepared

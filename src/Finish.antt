-- ===== src/Finish.antt =====
-- How a redemption ends: `Grant` and `finish` of src/ngx-http-pow-gate/src/redemption.rs. The
-- metrics that `record` writes are not modelled.
use ngx_http_pow_gate.Common.{
  ℕ, ◌≡◌, ◌≢◌, ◌↔◌, refl, arith, if◌then◌else◌, Option, none, some, List, [], ◌∷◌, ◌++◌,
}
use ngx_http_pow_gate.Common.Bytes.{codes, eq_bytes}
use ngx_http_pow_gate.Redemption.{Outcome, accepted, reused, full, expired}

pub record Grant : Type 0 where
  pub cookie : List ℕ
  pub redirect : Option (List ℕ)
  pub difficulty : ℕ
  pub kind : List ℕ

-- What `send_and_finish_with_headers` is given.
pub record Response : Type 0 where
  pub status : ℕ
  pub content_type : List ℕ
  pub body : List ℕ
  pub headers : List (List ℕ × List ℕ)

-- `format!("<html><body>..")` of `finish` and `redirect_body`
unfoldable pub redirect_body : List ℕ → List ℕ
redirect_body path =
    codes "<html><body><a href=\"" ++ path ++ codes "\">Continue</a></body></html>\n"

unfoldable pub granted : Grant → Option (List ℕ) → Response
granted grant none = record {
  status = 204;
  content_type = codes "text/plain";
  body = [];
  headers = (codes "Set-Cookie", grant.cookie) ∷ [];
}
granted grant (some path) = record {
  status = 302;
  content_type = codes "text/html; charset=utf-8";
  body = redirect_body path;
  headers = (codes "Location", path) ∷ (codes "Set-Cookie", grant.cookie) ∷ [];
}

abbrev pub refusal : ℕ → Response
refusal status = record {
  status = status;
  content_type = codes "text/plain";
  body = codes "redemption rejected\n";
  headers = [];
}

-- `finish`
unfoldable pub finish : Outcome → Grant → Response
unfolding granted
finish accepted grant = granted grant grant.redirect
finish reused grant = refusal 409
finish expired grant = refusal 400
finish full grant = refusal 503

-- The value of a header of a response
unfoldable pub header_of : List ℕ → List (List ℕ × List ℕ) → Option (List ℕ)
header_of name [] = none
header_of name ((key, value) ∷ headers) =
    let rest = header_of name headers in if eq_bytes key name then some value else rest

granted-cookie :
    (grant : Grant) (redirect : Option (List ℕ))
    → (header_of (codes "Set-Cookie") (granted grant redirect).headers ≡ some grant.cookie)
      × ((granted grant redirect).status ≢ 409)
      × ((granted grant redirect).status ≢ 400)
      × ((granted grant redirect).status ≢ 503)
unfolding granted header_of eq_bytes
granted-cookie grant none = (refl, λ e. omega arith, λ e. omega arith, λ e. omega arith)
granted-cookie grant (some path) = (refl, λ e. omega arith, λ e. omega arith, λ e. omega arith)

-- A response sets the cookie exactly if the ledger has accepted the token, and then it is the
-- cookie of the grant; a token that was used before, has expired or found no room gets 409, 400
-- or 503.
pub finish-cookie_iff :
    (outcome : Outcome) (grant : Grant)
    → ((header_of (codes "Set-Cookie") (finish outcome grant).headers ≡ some grant.cookie)
        ↔ (outcome ≡ accepted))
      × ((header_of (codes "Set-Cookie") (finish outcome grant).headers ≡ none)
          ↔ (outcome ≢ accepted))
      × ((outcome ≡ reused) ↔ ((finish outcome grant).status ≡ 409))
      × ((outcome ≡ expired) ↔ ((finish outcome grant).status ≡ 400))
      × ((outcome ≡ full) ↔ ((finish outcome grant).status ≡ 503))
unfolding finish header_of eq_bytes
finish-cookie_iff accepted grant =
    let (cookie, no_conflict, no_error, no_room) = granted-cookie grant grant.redirect in
    (
      (λ e. refl, λ e. cookie),
      (λ e. absurd (cc), λ e. absurd (e refl)),
      (λ e. absurd (cc e), λ e. absurd (no_conflict e)),
      (λ e. absurd (cc e), λ e. absurd (no_error e)),
      (λ e. absurd (cc e), λ e. absurd (no_room e)),
    )
finish-cookie_iff reused grant = (
  (λ e. absurd (cc e), λ e. absurd (cc e)),
  (λ e k. absurd (cc k), λ e. refl),
  (λ e. refl, λ e. refl),
  (λ e. absurd (cc e), λ e. absurd (omega arith)),
  (λ e. absurd (cc e), λ e. absurd (omega arith)),
)
finish-cookie_iff expired grant = (
  (λ e. absurd (cc e), λ e. absurd (cc e)),
  (λ e k. absurd (cc k), λ e. refl),
  (λ e. absurd (cc e), λ e. absurd (omega arith)),
  (λ e. refl, λ e. refl),
  (λ e. absurd (cc e), λ e. absurd (omega arith)),
)
finish-cookie_iff full grant = (
  (λ e. absurd (cc e), λ e. absurd (cc e)),
  (λ e k. absurd (cc k), λ e. refl),
  (λ e. absurd (cc e), λ e. absurd (omega arith)),
  (λ e. absurd (cc e), λ e. absurd (omega arith)),
  (λ e. refl, λ e. refl),
)

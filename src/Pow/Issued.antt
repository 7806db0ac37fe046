-- ===== src/Pow/Issued.antt =====
-- What becomes of an issued challenge, and what its token binds.
use ngx_http_pow_gate.Common.{
  ℕ, ◌≡◌, ◌≢◌, ◌⊎◌, refl, sym, ◌∙◌, ap, subst, arith, Bool, not, if◌then◌else◌, List, Bool-cases,
  inl, inr,
}
use ngx_http_pow_gate.Common.Int.{ℤ, leb_ℤ, add_i64}
use ngx_http_pow_gate.Common.Bytes.{eq_bytes, eq_bytes_iff}
use ngx_http_pow_gate.Mac.{hex, hmac}
use ngx_http_pow_gate.Target.{solution_valid}
use ngx_http_pow_gate.Wire.{Wire, IsWire, b64url-injective}
use ngx_http_pow_gate.Pow.{
  Challenge, Verdict, ok, expired, wrong_solution, Bound, binding, token_of, issue, verify_solution,
}
use ngx_http_pow_gate.Pow.Verdicts.{Says, verify_solution-Says, is_bad-IsGenuine}

module _ (w : Wire) (write_json : Bound → List ℕ) where
  module _ (sha256 : List ℕ → List ℕ) where
    -- Under the key, a challenge that was issued for a public key and a context at a difficulty
    -- other than zero is never a bad token for them: it has expired at its end, and until then it
    -- stands or falls with the hash.
    pub verify_solution-issue :
        (key raw pk context : List ℕ) (difficulty nonce : ℕ) (now ttl later : ℤ)
        → difficulty ≢ 0
        → verify_solution w write_json sha256 key
            (issue w write_json key raw pk context difficulty now ttl)
            nonce
            pk
            context
            difficulty
            later
          ≡ (if leb_ℤ (add_i64 now ttl) later
              then expired
              else if solution_valid sha256 (hex raw) nonce difficulty
              then ok
              else wrong_solution)
    unfolding verify_solution issue
    verify_solution-issue key raw pk context difficulty nonce now ttl later some_work =
        let c = issue w write_json key raw pk context difficulty now ttl in
        let fine =
          (is_bad-IsGenuine w write_json key c pk context difficulty).1
            (refl, some_work, refl, refl) in
        rw fine (
          by_hash (leb_ℤ (add_i64 now ttl) later)
            (solution_valid sha256 (hex raw) nonce difficulty))
      where
        by_hash :
            (late solved : Bool)
            → ◌≡◌ {A = Verdict}
                (if late then expired else if not solved then wrong_solution else ok)
                (if late then expired else if solved then ok else wrong_solution)
        by_hash late solved = ground arith

  -- What the token of a challenge binds, for a public key and a context.
  abbrev pub bound_of : Challenge → (pk context : List ℕ) → Bound
  bound_of c pk context = record {
    salt = c.salt;
    exp = c.exp;
    difficulty = c.difficulty;
    pk_b64 = w.b64url pk;
    context = context;
  }

  -- The bindings of the challenge for the two are two messages with one tag under the key.
  abbrev pub Collides : (key : List ℕ) → Challenge → (pk context pk' context' : List ℕ) → Type 0
  Collides key c pk context pk' context' =
      (write_json (bound_of c pk context) ≢ write_json (bound_of c pk' context'))
      × (hmac w.hmac_sha256 key (write_json (bound_of c pk context))
          ≡ hmac w.hmac_sha256 key (write_json (bound_of c pk' context')))

  module _ (laws : IsWire w) where
    bound_of-pk :
        (c : Challenge) (pk pk' ctx ctx' : List ℕ)
        → bound_of c pk ctx ≡ bound_of c pk' ctx'
        → (pk ≡ pk') × (ctx ≡ ctx')
    bound_of-pk c pk pk' ctx ctx' e =
        (b64url-injective w laws pk pk' (ap (λ b. b.pk_b64) e), ap (λ b. b.context) e)

    tokens-bind :
        ((a b : Bound) → write_json a ≡ write_json b → a ≡ b)
        → (key : List ℕ) (c : Challenge) (pk pk' context context' : List ℕ)
        → token_of w write_json key c.salt c.exp c.difficulty pk context ≡ c.token
        → token_of w write_json key c.salt c.exp c.difficulty pk' context' ≡ c.token
        → ((pk ≡ pk') × (context ≡ context')) ⊎ Collides key c pk context pk' context'
    unfolding token_of binding
    tokens-bind json key c pk pk' context context' e e' =
        let m = write_json (bound_of c pk context) in
        let n = write_json (bound_of c pk' context') in
        elim (Bool-cases (eq_bytes m n)) [
          | inl same ↦ inl (
              bound_of-pk c pk pk' context context' (
                json (bound_of c pk context) (bound_of c pk' context') ((eq_bytes_iff m n).0 same)))
          | inr other ↦ inr (
            (λ eq. absurd (cc ((eq_bytes_iff m n).1 eq))),
            b64url-injective w laws (hmac w.hmac_sha256 key m) (hmac w.hmac_sha256 key n)
                (e ∙ sym e'),
          )
        ]

    -- A challenge that is solved for one public key and context is solved for no other, unless its
    -- bindings for the two are two messages with one HMAC-SHA256 tag under the key: nobody can use
    -- another client's work.
    pub verify_solution-binds :
        ((a b : Bound) → write_json a ≡ write_json b → a ≡ b)
        → (sha256 : List ℕ → List ℕ) (key : List ℕ) (c : Challenge) (nonce nonce' : ℕ)
          (pk pk' context context' : List ℕ) (required required' : ℕ) (now now' : ℤ)
        → verify_solution w write_json sha256 key c nonce pk context required now ≡ ok
        → verify_solution w write_json sha256 key c nonce' pk' context' required' now' ≡ ok
        → ((pk ≡ pk') × (context ≡ context')) ⊎ Collides key c pk context pk' context'
    verify_solution-binds json sha256 key c nonce nonce' pk pk' context context' required required'
          now now' h h' =
        let says =
          subst (Says w write_json sha256 key c nonce pk context required now) h
            (verify_solution-Says w write_json sha256 key c nonce pk context required now) in
        let says' =
          subst (Says w write_json sha256 key c nonce' pk' context' required' now') h'
            (verify_solution-Says w write_json sha256 key c nonce' pk' context' required' now') in
        tokens-bind json key c pk pk' context context' says.0.3 says'.0.3

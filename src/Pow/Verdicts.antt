-- ===== src/Pow/Verdicts.antt =====
-- What each verdict on a solution stands for, and what becomes of an issued challenge.
use ngx_http_pow_gate.Common.{ℕ, ◌≡◌, ◌≢◌, ◌↔◌, arith, true, false, List, Bool-cases, inl, inr}
use ngx_http_pow_gate.Common.Int.{ℤ, ◌≤ℤ◌, ◌<ℤ◌, leb_ℤ, leb_ℤ→≤ℤ, leb_ℤ-false}
use ngx_http_pow_gate.Mac.{ct_eq}
use ngx_http_pow_gate.Mac.Framing.{ct_eq_iff}
use ngx_http_pow_gate.Target.{solution_valid}
use ngx_http_pow_gate.Wire.{Wire}
use ngx_http_pow_gate.Pow.{
  Challenge, Verdict, ok, expired, bad_token, wrong_solution, Bound, token_of, is_bad,
  verify_solution,
}

module _ (w : Wire) (write_json : Bound → List ℕ) where
  -- The challenge was made with the key, for this public key, context and difficulty.
  abbrev pub IsGenuine : (key : List ℕ) → Challenge → (pk context : List ℕ) → ℕ → Type 0
  IsGenuine key c pk context required =
      (c.version ≡ 2)
      × (c.difficulty ≢ 0)
      × (c.difficulty ≡ required)
      × (token_of w write_json key c.salt c.exp c.difficulty pk context ≡ c.token)

  is_bad-parts :
      (key : List ℕ) (c : Challenge) (pk context : List ℕ) (required : ℕ)
      → is_bad w write_json key c pk context required ≡ false
      → (c.version ≡ 2)
        × (c.difficulty ≢ 0)
        × (c.difficulty ≡ required)
        × (ct_eq (token_of w write_json key c.salt c.exp c.difficulty pk context) c.token ≡ true)
  unfolding is_bad
  is_bad-parts key c pk context required h =
      (ground arith, (λ e. ground arith), ground arith, ground arith)

  is_bad-build :
      (key : List ℕ) (c : Challenge) (pk context : List ℕ) (required : ℕ)
      → c.version ≡ 2
      → c.difficulty ≢ 0
      → c.difficulty ≡ required
      → ct_eq (token_of w write_json key c.salt c.exp c.difficulty pk context) c.token ≡ true
      → is_bad w write_json key c pk context required ≡ false
  unfolding is_bad
  is_bad-build key c pk context required v n d t = ground arith

  pub is_bad-IsGenuine :
      (key : List ℕ) (c : Challenge) (pk context : List ℕ) (required : ℕ)
      → (is_bad w write_json key c pk context required ≡ false)
        ↔ IsGenuine key c pk context required
  is_bad-IsGenuine key c pk context required =
      let tag = token_of w write_json key c.salt c.exp c.difficulty pk context in
      (
        (λ h.
            let (v, n, d, t) = is_bad-parts key c pk context required h in
            (v, n, d, (ct_eq_iff tag c.token).0 t)),
        (λ (v, n, d, t).
            is_bad-build key c pk context required v n d ((ct_eq_iff tag c.token).1 t)),
      )

  module _ (sha256 : List ℕ → List ℕ) where
    -- What a verdict says of the challenge and the nonce.
    abbrev pub Says :
        (key : List ℕ) → Challenge → ℕ → (pk context : List ℕ) → ℕ → ℤ → Verdict → Type 0
    Says key c nonce pk context required now ok =
        IsGenuine key c pk context required
        × (now <ℤ c.exp)
        × (solution_valid sha256 c.salt nonce c.difficulty ≡ true)
    Says key c nonce pk context required now expired =
        IsGenuine key c pk context required × (c.exp ≤ℤ now)
    Says key c nonce pk context required now bad_token = ¬ IsGenuine key c pk context required
    Says key c nonce pk context required now wrong_solution =
        IsGenuine key c pk context required
        × (now <ℤ c.exp)
        × (solution_valid sha256 c.salt nonce c.difficulty ≡ false)

    -- Every verdict is true of the challenge: a forged one is bad, then a late one has expired,
    -- and then the hash decides.
    pub verify_solution-Says :
        (key : List ℕ) (c : Challenge) (nonce : ℕ) (pk context : List ℕ) (required : ℕ) (now : ℤ)
        → Says key c nonce pk context required now
            (verify_solution w write_json sha256 key c nonce pk context required now)
    unfolding verify_solution
    verify_solution-Says key c nonce pk context required now =
        elim (Bool-cases (is_bad w write_json key c pk context required)) [
          | inl forged ↦
              rw forged
                (λ genuine. absurd (cc ((is_bad-IsGenuine key c pk context required).1 genuine)))
          | inr fine ↦
              let genuine = (is_bad-IsGenuine key c pk context required).0 fine in
              elim (Bool-cases (leb_ℤ c.exp now)) [
                | inl late ↦ rw (fine, late) (genuine, leb_ℤ→≤ℤ c.exp now late)
                | inr early ↦ elim (Bool-cases (solution_valid sha256 c.salt nonce c.difficulty)) [
                  | inl solved ↦
                      rw (fine, early, solved) (genuine, leb_ℤ-false c.exp now early, solved)
                  | inr unsolved ↦
                      rw (fine, early, unsolved) (genuine, leb_ℤ-false c.exp now early, unsolved)
                ]
              ]
        ]

-- ===== src/Mac/Framing.antt =====
-- The framing of fields is injective, so that distinct fields are never authenticated alike; the
-- comparison of tags is equality, and hexadecimal digits lose nothing.
use ngx_http_pow_gate.Common.{
  ℕ, ◌+◌, ◌*◌, ◌/◌, ◌%◌, ◌^◌, ◌<◌, ◌≡◌, ◌↔◌, refl, sym, ◌∙◌, ap, arith, true, ◌==◌, List, [], ◌∷◌,
  ◌++◌, length, All, &&-right,
}
use ngx_http_pow_gate.Common.Bytes.{be_value, eq_bytes, eq_bytes→≡, eq_bytes_refl}
use ngx_http_pow_gate.Mac.{ct_eq, be_bytes, framed}

-- The comparison in constant time is equality.
pub ct_eq_iff : (a b : List ℕ) → (ct_eq a b ≡ true) ↔ (a ≡ b)
unfolding ct_eq
ct_eq_iff a b = (
  (λ h. eq_bytes→≡ a b (&&-right (length a == length b) (eq_bytes a b) h)),
  (λ e. rw e (rw (eq_bytes_refl b) (ground arith))),
)

-- A number is read back from its eight bytes.
be_value-be_bytes : (n : ℕ) → n < 2 ^ 64 → be_value (be_bytes n) ≡ n
unfolding be_value be_bytes
be_value-be_bytes n h =
    let s₁ : (0 * 256 + n / 2 ^ 56 % 256) * 256 + n / 2 ^ 48 % 256 ≡ n / 2 ^ 48 = omega arith in
    let s₂ : n / 2 ^ 48 * 256 + n / 2 ^ 40 % 256 ≡ n / 2 ^ 40 = omega arith in
    let s₃ : n / 2 ^ 40 * 256 + n / 2 ^ 32 % 256 ≡ n / 2 ^ 32 = omega arith in
    let s₄ : n / 2 ^ 32 * 256 + n / 2 ^ 24 % 256 ≡ n / 2 ^ 24 = omega arith in
    let s₅ : n / 2 ^ 24 * 256 + n / 2 ^ 16 % 256 ≡ n / 2 ^ 16 = omega arith in
    let s₆ : n / 2 ^ 16 * 256 + n / 2 ^ 8 % 256 ≡ n / 2 ^ 8 = omega arith in
    rw (s₁, s₂, s₃, s₄, s₅, s₆) (omega arith)

be_bytes-injective : (m n : ℕ) → m < 2 ^ 64 → n < 2 ^ 64 → be_bytes m ≡ be_bytes n → m ≡ n
be_bytes-injective m n hm hn e =
    sym (be_value-be_bytes m hm) ∙ ap be_value e ∙ be_value-be_bytes n hn

cons-inj : (x y : ℕ) (xs ys : List ℕ) → x ∷ xs ≡ y ∷ ys → (x ≡ y) × (xs ≡ ys)
cons-inj x y xs ys e = (cc, cc)

pub append-inj : (a b x y : List ℕ) → length a ≡ length b → a ++ x ≡ b ++ y → (a ≡ b) × (x ≡ y)
append-inj [] [] x y n e = (refl, e)
append-inj [] (d ∷ b) x y n e = absurd (omega arith)
append-inj (c ∷ a) [] x y n e = absurd (omega arith)
append-inj (c ∷ a) (d ∷ b) x y n e =
    let (head, tail) = cons-inj c d (a ++ x) (b ++ y) e in
    let (rest, after) = append-inj a b x y (omega arith) tail in (cc, after)

-- The fields that fit: their lengths are `usize` values of 64 bits.
abbrev pub Fit : List (List ℕ) → Type 0
Fit = All (λ f. length f < 2 ^ 64)

-- Two lists of fields that are fed to the state alike are the same fields.
pub framed-injective : (fs gs : List (List ℕ)) → Fit fs → Fit gs → framed fs ≡ framed gs → fs ≡ gs
unfolding framed
framed-injective [] [] hf hg e = refl
framed-injective [] (g ∷ gs) hf hg e = absurd (cc)
framed-injective (f ∷ fs) [] hf hg e = absurd (cc)
framed-injective (f ∷ fs) (g ∷ gs) hf hg e =
    let (sizes, rest) =
      append-inj (be_bytes (length f)) (be_bytes (length g)) (f ++ framed fs) (g ++ framed gs) refl
        e in
    let (same, others) =
      append-inj f g (framed fs) (framed gs)
        (be_bytes-injective (length f) (length g) hf.0 hg.0 sizes) rest in
    let ih = framed-injective fs gs hf.1 hg.1 others in cc

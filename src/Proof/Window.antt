-- ===== src/Proof/Window.antt =====
-- What the three answers on a proof stand for, and that a message signs one request.
use ngx_http_pow_gate.Common.{
  ℕ, suc, ◌^◌, ◌≤◌, ◌<◌, ◌≡◌, ◌≢◌, ◌⊎◌, sym, ◌∙◌, ap, arith, Bool, true, false, ltb, Option, some,
  List, ◌∷◌, ◌++◌, Bool-cases, inl, inr,
}
use ngx_http_pow_gate.Common.Int.{
  ℤ, pos, negsuc, ltb_ℤ, ◌≤ℤ◌, ◌<ℤ◌, ltb_ℤ-false, ltb_ℤ→<ℤ, abs_diff, pattern64, pos_part, IsI64,
}
use ngx_http_pow_gate.Common.Parse.{Lacks, split_once, split_once-append, parse_unsigned}
use ngx_http_pow_gate.Common.Decimal.{decimal, parse_unsigned-decimal, decimal-shape}
use ngx_http_pow_gate.Proof.{ProofCheck, valid, skewed, invalid, check, message, signed_decimal}

-- The timestamp is within the window: `|now - ts| ≤ skew`.
abbrev pub InWindow : (ts now skew : ℤ) → Type 0
InWindow ts now skew = abs_diff now ts ≤ pos_part skew

abbrev pub Says :
    ((pk message sig : List ℕ) → Bool)
    → (pk method path : List ℕ) → ℤ
    → (sig : List ℕ) → (now skew : ℤ) → ProofCheck
    → Type 0
Says signed pk method path ts sig now skew valid =
    (pos 0 ≤ℤ skew) × InWindow ts now skew × (signed pk (message method path ts) sig ≡ true)
Says signed pk method path ts sig now skew skewed = (pos 0 ≤ℤ skew) × ¬ InWindow ts now skew
Says signed pk method path ts sig now skew invalid =
    (skew <ℤ pos 0) ⊎ (InWindow ts now skew × (signed pk (message method path ts) sig ≡ false))

outside :
    (skew : ℤ) (d : ℕ)
    → IsI64 skew
    → pos 0 ≤ℤ skew
    → ltb (pattern64 skew) d ≡ true
    → ¬ (d ≤ pos_part skew)
outside (pos n) d small sign h le = ground arith
outside (negsuc n) d small sign h le = absurd (omega arith)

inside :
    (skew : ℤ) (d : ℕ)
    → IsI64 skew
    → pos 0 ≤ℤ skew
    → ltb (pattern64 skew) d ≡ false
    → d ≤ pos_part skew
inside (pos n) d small sign h = ground arith
inside (negsuc n) d small sign h = absurd (omega arith)

module _ (signed : (pk message sig : List ℕ) → Bool) where
  -- Every answer is true of the proof, for a skew of 64 bits: it is valid just when the skew is
  -- not negative, the timestamp is at most so far from now, on either side, and the signature of
  -- the message holds; a timestamp outside is reported as such.
  pub check-Says :
      (pk method path : List ℕ) (ts : ℤ) (sig : List ℕ) (now skew : ℤ)
      → IsI64 skew
      → Says signed pk method path ts sig now skew (check signed pk method path ts sig now skew)
  unfolding check
  check-Says pk method path ts sig now skew small = elim (Bool-cases (ltb_ℤ skew (pos 0))) [
    | inl negative ↦ rw negative (inl (ltb_ℤ→<ℤ skew (pos 0) negative))
    | inr sign ↦
        let positive = ltb_ℤ-false skew (pos 0) sign in
        elim (Bool-cases (ltb (pattern64 skew) (abs_diff now ts))) [
          | inl far ↦ rw (sign, far) (positive, outside skew (abs_diff now ts) small positive far)
          | inr near ↦
              let window = inside skew (abs_diff now ts) small positive near in
              elim (Bool-cases (signed pk (message method path ts) sig)) [
                | inl good ↦ rw (sign, near, good) (positive, window, good)
                | inr wrong ↦ rw (sign, near, wrong) (inr (window, wrong))
              ]
        ]
  ]

decimal-injective : (m n : ℕ) → m < 2 ^ 64 → n < 2 ^ 64 → decimal m ≡ decimal n → m ≡ n
decimal-injective m n hm hn e =
    let back : parse_unsigned (2 ^ 64) (decimal m) ≡ parse_unsigned (2 ^ 64) (decimal n) =
      ap (parse_unsigned (2 ^ 64)) e in
    cc (parse_unsigned-decimal m hm, parse_unsigned-decimal n hn)

no_sign : (n : ℕ) (s : List ℕ) → n < 2 ^ 64 → decimal n ≢ b'-' ∷ s
no_sign n s h e =
    let (c, rest, shape, digit) = decimal-shape n h in
    let same : c ≡ b'-' = cc in absurd (ground arith)

signed_decimal-injective :
    (a b : ℤ) → IsI64 a → IsI64 b → signed_decimal a ≡ signed_decimal b → a ≡ b
unfolding signed_decimal
signed_decimal-injective (pos m) (pos n) ha hb e =
    ap pos (decimal-injective m n (omega arith) (omega arith) e)
signed_decimal-injective (pos m) (negsuc n) ha hb e =
    absurd (no_sign m (decimal (suc n)) (omega arith) e)
signed_decimal-injective (negsuc m) (pos n) ha hb e =
    absurd (no_sign n (decimal (suc m)) (omega arith) (sym e))
signed_decimal-injective (negsuc m) (negsuc n) ha hb e =
    let same : decimal (suc m) ≡ decimal (suc n) = cc in
    let digits : suc m ≡ suc n =
      decimal-injective (suc m) (suc n) (omega arith) (omega arith) same in
    let parts : m ≡ n = omega arith in ap negsuc parts

cut-injective :
    (a b a' b' : List ℕ)
    → Lacks b' ' a
    → Lacks b' ' a'
    → a ++ b' ' ∷ b ≡ a' ++ b' ' ∷ b'
    → (a ≡ a') × (b ≡ b')
cut-injective a b a' b' ha ha' e =
    let cut : split_once b' ' (a ++ b' ' ∷ b) ≡ split_once b' ' (a' ++ b' ' ∷ b') =
      ap (split_once b' ') e in
    let same : ◌≡◌ {A = Option (List ℕ × List ℕ)} (some (a, b)) (some (a', b')) =
      sym (split_once-append b' ' a b ha) ∙ cut ∙ split_once-append b' ' a' b' ha' in
    (cc, cc)

-- A message signs one request: requests whose methods and paths hold no space, with timestamps
-- of 64 bits, have equal messages only if method, path and timestamp are equal.
pub message-injective :
    (method path method' path' : List ℕ) (ts ts' : ℤ)
    → Lacks b' ' method
    → Lacks b' ' path
    → Lacks b' ' method'
    → Lacks b' ' path'
    → IsI64 ts
    → IsI64 ts'
    → message method path ts ≡ message method' path' ts'
    → (method ≡ method') × (path ≡ path') × (ts ≡ ts')
unfolding message
message-injective method path method' path' ts ts' hm hp hm' hp' ht ht' e =
    let (same, rest) =
      cut-injective method (path ++ b' ' ∷ signed_decimal ts) method'
        (path' ++ b' ' ∷ signed_decimal ts') hm hm' e in
    let (paths, times) =
      cut-injective path (signed_decimal ts) path' (signed_decimal ts') hp hp' rest in
    (same, paths, signed_decimal-injective ts ts' ht ht' times)

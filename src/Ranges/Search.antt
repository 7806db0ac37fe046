-- ===== src/Ranges/Search.antt =====
-- The search in a list of intervals in normal form.
use ngx_http_pow_gate.Common.{
  ℕ, zero, suc, ◌-◌, ◌≤◌, ◌<◌, ◌≡◌, ◌↔◌, inl, inr, refl, arith, true, false, ltb, leb, List, [],
  ◌∷◌, Bool-cases, leb→le,
}
use ngx_http_pow_gate.Ranges.{Interval, partition_point, at, contains_interval, normalize}
use ngx_http_pow_gate.Ranges.Order.{Covers, AreProper}
use ngx_http_pow_gate.Ranges.Normal.{
  leb-false, After-IsNormal, After, After-Covers, IsNormal, normalize-IsNormal, normalize-Covers,
}

-- How many intervals start at the address or before.
abbrev started : ℕ → List Interval → ℕ
started a ranges = partition_point (λ r. leb r.0 a) ranges

le→leb : (m n : ℕ) → m ≤ n → leb m n ≡ true
le→leb m n h = ground arith

none-started :
    (e a : ℕ) (ranges : List Interval) → After e ranges → started a ranges ≡ 0 → ¬ Covers ranges a
unfolding partition_point
none-started e a [] h z c = absurd c
none-started e a (r ∷ ranges) (lt, proper, rest) z c = elim (Bool-cases (leb r.0 a)) [
  | inl starts ↦ absurd (zero_suc (started a ranges) (rw starts at z))
  | inr later ↦
      let before_it = leb-false r.0 a later in
      elim c [
        | inl (lo, hi) ↦ absurd (omega arith)
        | inr d ↦ let beyond = After-Covers r.1 a ranges rest d in absurd (omega arith)
      ]
]
  where
    zero_suc : (n : ℕ) → suc n ≡ 0 → ⊥
    zero_suc n h = omega arith

one-started :
    (e a j : ℕ) (ranges : List Interval) → After e ranges → started a ranges ≡ suc j → e < a
unfolding partition_point
one-started e a j [] h z = absurd (omega arith)
one-started e a j (r ∷ ranges) (lt, proper, rest) z = elim (Bool-cases (leb r.0 a)) [
  | inl starts ↦ let reached = leb→le r.0 a starts in omega arith
  | inr later ↦ absurd (zero_suc (rw later at z))
]
  where
    zero_suc : 0 ≡ suc j → ⊥
    zero_suc h = omega arith

started-cons :
    (r : Interval) (a : ℕ) (ranges : List Interval)
    → leb r.0 a ≡ true
    → started a (r ∷ ranges) ≡ suc (started a ranges)
unfolding partition_point
started-cons r a ranges h = rw h refl

started-zero :
    (r : Interval) (a : ℕ) (ranges : List Interval) → leb r.0 a ≡ false → started a (r ∷ ranges) ≡ 0
unfolding partition_point
started-zero r a ranges h = rw h refl

sub_one : (n : ℕ) → suc n - 1 ≡ n
sub_one n = omega arith

positive : (n : ℕ) → ltb 0 (suc n) ≡ true
positive n = ground arith

contains_last :
    (r : Interval) (a : ℕ) (ranges : List Interval)
    → leb r.0 a ≡ true
    → started a ranges ≡ 0
    → contains_interval (r ∷ ranges) a ≡ leb a r.1
unfolding contains_interval at
contains_last r a ranges h z = rw (started-cons r a ranges h, z) refl

contains_later :
    (r : Interval) (a j : ℕ) (ranges : List Interval)
    → leb r.0 a ≡ true
    → started a ranges ≡ suc j
    → contains_interval (r ∷ ranges) a ≡ contains_interval ranges a
unfolding contains_interval at
contains_later r a j ranges h z =
    rw (started-cons r a ranges h, z, sub_one (suc j), sub_one j, positive (suc j), positive j) refl

contains_zero :
    (ranges : List Interval) (a : ℕ) → started a ranges ≡ 0 → contains_interval ranges a ≡ false
unfolding contains_interval
contains_zero ranges a z = rw z refl

-- In normal form, an address is found exactly if one of the intervals holds it.
pub contains_interval_iff :
    (ranges : List Interval) (a : ℕ)
    → IsNormal ranges
    → (contains_interval ranges a ≡ true) ↔ Covers ranges a
contains_interval_iff [] a normal =
    let nothing = contains_zero [] a (unfold partition_point in refl) in
    ((λ h. absurd (cc)), (λ c. absurd c))
contains_interval_iff (r ∷ ranges) a (proper, after) = elim (Bool-cases (leb r.0 a)) [
  | inr later ↦
      let nothing = contains_zero (r ∷ ranges) a (started-zero r a ranges later) in
      let before_it = leb-false r.0 a later in
      ((λ h. absurd (cc)), (λ c. absurd (outside before_it c)))
  | inl starts ↦
      by_rest starts (contains_interval_iff ranges a (After-IsNormal r.1 ranges after))
        (started a ranges) refl
]
  where
    outside : a < r.0 → Covers (r ∷ ranges) a → ⊥
    outside lt (inl (lo, hi)) = omega arith
    outside lt (inr c) = let beyond = After-Covers r.1 a ranges after c in omega arith

    by_rest :
        leb r.0 a ≡ true
        → (contains_interval ranges a ≡ true) ↔ Covers ranges a
        → (n : ℕ) → started a ranges ≡ n
        → (contains_interval (r ∷ ranges) a ≡ true) ↔ Covers (r ∷ ranges) a
    by_rest starts ih zero z = rw (contains_last r a ranges starts z) (
      (λ h. inl (leb→le r.0 a starts, leb→le a r.1 h)),
      (λ c. elim c [
        | inl (lo, hi) ↦ le→leb a r.1 hi
        | inr d ↦ absurd (none-started r.1 a ranges after z d)
      ]),
    )
    by_rest starts ih (suc j) z =
        let (to, from) = ih in
        let beyond = one-started r.1 a j ranges after z in
        rw (contains_later r a j ranges starts z) (
          (λ h. inr (to h)),
          (λ c. elim c [ inl (lo, hi) ↦ absurd (omega arith) | inr d ↦ from d ]),
        )

-- A normalized list is searched for exactly the addresses of the intervals that were given.
pub contains_interval-normalize :
    (ranges : List Interval) (a : ℕ)
    → AreProper ranges
    → (contains_interval (normalize ranges) a ≡ true) ↔ Covers ranges a
contains_interval-normalize ranges a ps =
    let (to, from) = contains_interval_iff (normalize ranges) a (normalize-IsNormal ranges ps) in
    let (out, back) = normalize-Covers ranges a in ((λ h. out (to h)), (λ h. from (back h)))

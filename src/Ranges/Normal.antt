-- ===== src/Ranges/Normal.antt =====
-- The normal form of a list of intervals, and that `normalize` reaches it and `contains_interval`
-- searches it.
use ngx_http_pow_gate.Common.{
  ℕ, ◌≤◌, ◌<◌, ◌≡◌, ◌↔◌, ◌⊎◌, inl, inr, arith, max, false, leb, List, [], ◌∷◌, Bool-cases, leb→le,
}
use ngx_http_pow_gate.Ranges.{Interval, coalesce, coalesced, sort, normalize}
use ngx_http_pow_gate.Ranges.Order.{
  Holds, Covers, AreProper, IsSortedFrom, IsSortedFrom-le, sort-IsSortedFrom, sort-AreProper,
  sort-Covers,
}

-- Intervals after an address, each of them after the end of the one before.
abbrev pub After : ℕ → List Interval → Type 0
After e [] = Unit
After e (r ∷ ranges) = (e < r.0) × (r.0 ≤ r.1) × After r.1 ranges

-- Sorted intervals that do not overlap.
abbrev pub IsNormal : List Interval → Type 0
IsNormal [] = Unit
IsNormal (r ∷ ranges) = (r.0 ≤ r.1) × After r.1 ranges

pub leb-false : (m n : ℕ) → leb m n ≡ false → n < m
leb-false m n h = ground arith

pub After-IsNormal : (e : ℕ) (ranges : List Interval) → After e ranges → IsNormal ranges
After-IsNormal e [] h = tt
After-IsNormal e (r ∷ ranges) (lt, proper, rest) = (proper, rest)

pub After-Covers : (e a : ℕ) (ranges : List Interval) → After e ranges → Covers ranges a → e < a
After-Covers e a [] h c = absurd c
After-Covers e a (r ∷ ranges) (lt, proper, rest) (inl (lo, hi)) = omega arith
After-Covers e a (r ∷ ranges) (lt, proper, rest) (inr c) =
    let later = After-Covers r.1 a ranges rest c in omega arith

coalesce-After :
    (e : ℕ) (last : Interval) (ranges : List Interval)
    → e < last.0
    → last.0 ≤ last.1
    → AreProper ranges
    → IsSortedFrom last.0 ranges
    → After e (coalesce last ranges)
unfolding coalesce
coalesce-After e last [] lt p ps s = (lt, p, tt)
coalesce-After e last (r ∷ ranges) lt p (pr, ps) (le, s) = elim (Bool-cases (leb r.0 last.1)) [
  | inl touch ↦ rw touch (
      coalesce-After e (last.0, max last.1 r.1) ranges lt (omega arith) ps
        (IsSortedFrom-le r.0 last.0 ranges le s))
  | inr apart ↦
      rw apart (lt, p, coalesce-After last.1 r ranges (leb-false r.0 last.1 apart) pr ps s)
]

coalesce-IsNormal :
    (last : Interval) (ranges : List Interval)
    → last.0 ≤ last.1
    → AreProper ranges
    → IsSortedFrom last.0 ranges
    → IsNormal (coalesce last ranges)
unfolding coalesce
coalesce-IsNormal last [] p ps s = (p, tt)
coalesce-IsNormal last (r ∷ ranges) p (pr, ps) (le, s) = elim (Bool-cases (leb r.0 last.1)) [
  | inl touch ↦ rw touch (
      coalesce-IsNormal (last.0, max last.1 r.1) ranges (omega arith) ps
        (IsSortedFrom-le r.0 last.0 ranges le s))
  | inr apart ↦ rw apart (p, coalesce-After last.1 r ranges (leb-false r.0 last.1 apart) pr ps s)
]

merged-Holds :
    (last r : Interval) (a : ℕ)
    → last.0 ≤ r.0
    → r.0 ≤ last.1
    → Holds a (last.0, max last.1 r.1) ↔ (Holds a last ⊎ Holds a r)
merged-Holds last r a le touch = (
  (λ (lo, hi). elim (Bool-cases (leb a last.1)) [
    | inl short ↦ inl (lo, leb→le a last.1 short)
    | inr long ↦ let beyond = leb-false a last.1 long in inr (omega arith, omega arith)
  ]),
  (λ h. elim h [
    | inl x ↦ (x.0, omega (arith, x.1))
    | inr y ↦ (omega (arith, y.0), omega (arith, y.1))
  ]),
)

coalesce-Covers :
    (last : Interval) (ranges : List Interval) (a : ℕ)
    → IsSortedFrom last.0 ranges
    → Covers (coalesce last ranges) a ↔ (Holds a last ⊎ Covers ranges a)
unfolding coalesce
coalesce-Covers last [] a s = ((λ h. h), (λ h. h))
coalesce-Covers last (r ∷ ranges) a (le, s) = elim (Bool-cases (leb r.0 last.1)) [
  | inl touch ↦
      let (to, from) =
        coalesce-Covers (last.0, max last.1 r.1) ranges a
          (IsSortedFrom-le r.0 last.0 ranges le s) in
      let (split, join) = merged-Holds last r a le (leb→le r.0 last.1 touch) in
      rw touch (
        (λ h. elim (to h) [
          | inl x ↦ elim (split x) [ inl y ↦ inl y | inr z ↦ inr (inl z) ]
          | inr c ↦ inr (inr c)
        ]),
        (λ h. elim h [
          | inl x ↦ from (inl (join (inl x)))
          | inr y ↦ elim y [ inl z ↦ from (inl (join (inr z))) | inr c ↦ from (inr c) ]
        ]),
      )
  | inr apart ↦
      let (to, from) = coalesce-Covers r ranges a s in
      rw apart (
        (λ h. elim h [ inl x ↦ inl x | inr y ↦ inr (to y) ]),
        (λ h. elim h [ inl x ↦ inl x | inr y ↦ inr (from y) ]),
      )
]

-- `normalize` puts intervals that start where they end or before in order, and no two of the
-- result overlap.
pub normalize-IsNormal : (ranges : List Interval) → AreProper ranges → IsNormal (normalize ranges)
unfolding normalize
normalize-IsNormal ranges ps =
    go (sort ranges) (sort-AreProper ranges ps) (sort-IsSortedFrom ranges)
  where
    go :
        (sorted : List Interval)
        → AreProper sorted
        → IsSortedFrom 0 sorted
        → IsNormal (coalesced sorted)
    go [] q s = tt
    go (r ∷ sorted) (p, q) (le, s) = coalesce-IsNormal r sorted p q s

-- `normalize` keeps the set of addresses.
pub normalize-Covers :
    (ranges : List Interval) (a : ℕ) → Covers (normalize ranges) a ↔ Covers ranges a
unfolding normalize
normalize-Covers ranges a =
    let (to, from) = sort-Covers ranges a in
    let (out, back) = go (sort ranges) (sort-IsSortedFrom ranges) in
    ((λ h. to (out h)), (λ h. back (from h)))
  where
    go :
        (sorted : List Interval)
        → IsSortedFrom 0 sorted
        → Covers (coalesced sorted) a ↔ Covers sorted a
    go [] s = ((λ h. h), (λ h. h))
    go (r ∷ sorted) (le, s) = coalesce-Covers r sorted a s

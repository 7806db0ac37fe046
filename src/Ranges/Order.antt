-- ===== src/Ranges/Order.antt =====
-- Sorting and membership.
use ngx_http_pow_gate.Common.{
  ℕ, ◌≤◌, ◌≡◌, ◌↔◌, ◌⊎◌, inl, inr, arith, true, false, List, [], ◌∷◌, All, Bool-cases,
}
use ngx_http_pow_gate.Ranges.{Interval, before, put, sort}

-- An interval holds an address; a list covers it.
abbrev pub Holds : ℕ → Interval → Type 0
Holds a r = (r.0 ≤ a) × (a ≤ r.1)

abbrev pub Covers : List Interval → ℕ → Type 0
Covers [] a = ⊥
Covers (r ∷ ranges) a = Holds a r ⊎ Covers ranges a

-- Intervals that start where they end, or before.
abbrev pub AreProper : List Interval → Type 0
AreProper = All (λ r. r.0 ≤ r.1)

-- The starts are in order.
abbrev pub IsSortedFrom : ℕ → List Interval → Type 0
IsSortedFrom low [] = Unit
IsSortedFrom low (r ∷ ranges) = (low ≤ r.0) × IsSortedFrom r.0 ranges

before-true : (a b : Interval) → before a b ≡ true → a.0 ≤ b.0
unfolding before
before-true a b h = ground arith

before-false : (a b : Interval) → before a b ≡ false → b.0 ≤ a.0
unfolding before
before-false a b h = ground arith

pub IsSortedFrom-le :
    (low low' : ℕ) (ranges : List Interval)
    → low' ≤ low
    → IsSortedFrom low ranges
    → IsSortedFrom low' ranges
IsSortedFrom-le low low' [] h s = tt
IsSortedFrom-le low low' (r ∷ ranges) h (le, s) = (omega arith, s)

put-IsSortedFrom :
    (low : ℕ) (r : Interval) (sorted : List Interval)
    → low ≤ r.0
    → IsSortedFrom low sorted
    → IsSortedFrom low (put r sorted)
unfolding put
put-IsSortedFrom low r [] le s = (le, tt)
put-IsSortedFrom low r (q ∷ sorted) le (lq, s) = elim (Bool-cases (before r q)) [
  | inl first ↦ rw first (le, (before-true r q first, s))
  | inr later ↦ rw later (lq, put-IsSortedFrom q.0 r sorted (before-false r q later) s)
]

pub sort-IsSortedFrom : (ranges : List Interval) → IsSortedFrom 0 (sort ranges)
unfolding sort
sort-IsSortedFrom [] = tt
sort-IsSortedFrom (r ∷ ranges) =
    put-IsSortedFrom 0 r (sort ranges) (omega arith) (sort-IsSortedFrom ranges)

put-AreProper :
    (r : Interval) (sorted : List Interval)
    → r.0 ≤ r.1
    → AreProper sorted
    → AreProper (put r sorted)
unfolding put
put-AreProper r [] p ps = (p, tt)
put-AreProper r (q ∷ sorted) p (pq, ps) = elim (Bool-cases (before r q)) [
  | inl first ↦ rw first (p, (pq, ps))
  | inr later ↦ rw later (pq, put-AreProper r sorted p ps)
]

pub sort-AreProper : (ranges : List Interval) → AreProper ranges → AreProper (sort ranges)
unfolding sort
sort-AreProper [] ps = tt
sort-AreProper (r ∷ ranges) (p, ps) = put-AreProper r (sort ranges) p (sort-AreProper ranges ps)

put-Covers :
    (r : Interval) (sorted : List Interval) (a : ℕ)
    → Covers (put r sorted) a ↔ (Holds a r ⊎ Covers sorted a)
unfolding put
put-Covers r [] a = ((λ h. h), (λ h. h))
put-Covers r (q ∷ sorted) a = elim (Bool-cases (before r q)) [
  | inl first ↦ rw first ((λ h. h), (λ h. h))
  | inr later ↦ rw later (swap (put-Covers r sorted a))
]
  where
    swap :
        {X : Type 0}
        → X ↔ (Holds a r ⊎ Covers sorted a)
        → (Holds a q ⊎ X) ↔ (Holds a r ⊎ (Holds a q ⊎ Covers sorted a))
    swap (to, from) = (
      (λ h. elim h [
        | inl x ↦ inr (inl x)
        | inr y ↦ elim (to y) [ inl z ↦ inl z | inr w ↦ inr (inr w) ]
      ]),
      (λ h. elim h [
        | inl x ↦ inr (from (inl x))
        | inr y ↦ elim y [ inl z ↦ inl z | inr w ↦ inr (from (inr w)) ]
      ]),
    )

pub sort-Covers : (ranges : List Interval) (a : ℕ) → Covers (sort ranges) a ↔ Covers ranges a
unfolding sort
sort-Covers [] a = ((λ h. h), (λ h. h))
sort-Covers (r ∷ ranges) a =
    let (to, from) = sort-Covers ranges a in
    let (out, back) = put-Covers r (sort ranges) a in
    (
      (λ h. elim (out h) [ inl x ↦ inl x | inr y ↦ inr (to y) ]),
      (λ h. elim h [ inl x ↦ back (inl x) | inr y ↦ back (inr (from y)) ]),
    )

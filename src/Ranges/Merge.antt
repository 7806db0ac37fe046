-- ===== src/Ranges/Merge.antt =====
-- An inserted interval leaves the normal form and adds its addresses.
use ngx_http_pow_gate.Common.{
  ℕ, ◌≤◌, ◌≡◌, ◌↔◌, ◌⊎◌, inl, inr, refl, arith, min, max, true, leb, List, [], ◌∷◌, drop,
  Bool-cases, leb→le,
}
use ngx_http_pow_gate.Ranges.{Interval, at}
use ngx_http_pow_gate.Ranges.Order.{Holds, Covers}
use ngx_http_pow_gate.Ranges.Normal.{After, leb-false}
use ngx_http_pow_gate.Ranges.Insert.{begun, begun-suc, begun-zero, begun-nil}

-- The end of the last interval that a bound reaches.
unfoldable pub last_end : (high : ℕ) → Interval → List Interval → ℕ
last_end high r ranges = (at (r ∷ ranges) (begun high ranges)).1

last_end-suc :
    (high : ℕ) (r q : Interval) (ranges : List Interval)
    → leb q.0 high ≡ true
    → last_end high r (q ∷ ranges) ≡ last_end high q ranges
unfolding last_end at
last_end-suc high r q ranges h = rw (last_end, begun-suc high q ranges h) refl

last_end-zero :
    (high : ℕ) (r : Interval) (ranges : List Interval)
    → begun high ranges ≡ 0
    → last_end high r ranges ≡ r.1
unfolding last_end at
last_end-zero high r ranges h = rw (last_end, h) refl

pub rest-After :
    (high : ℕ) (r : Interval) (ranges : List Interval)
    → After r.1 ranges
    → After (max high (last_end high r ranges)) (drop (begun high ranges) ranges)
rest-After high r [] h = rw (begun-nil high) tt
rest-After high r (q ∷ ranges) (lt, proper, rest) = elim (Bool-cases (leb q.0 high)) [
  | inl reached ↦
      rw (last_end-suc high r q ranges reached, begun-suc high q ranges reached)
        (rest-After high q ranges rest)
  | inr beyond ↦
      let z = begun-zero high q ranges beyond in
      let clear = leb-false q.0 high beyond in
      rw (last_end-zero high r (q ∷ ranges) z, z) (omega arith, proper, rest)
]

last_end-lo :
    (high : ℕ) (r : Interval) (ranges : List Interval)
    → After r.1 ranges
    → r.1 ≤ last_end high r ranges
last_end-lo high r [] h = rw (last_end-zero high r [] (begun-nil high)) (omega arith)
last_end-lo high r (q ∷ ranges) (lt, proper, rest) = elim (Bool-cases (leb q.0 high)) [
  | inl reached ↦
      let ih = last_end-lo high q ranges rest in
      rw (last_end-suc high r q ranges reached) (omega arith)
  | inr beyond ↦
      rw (last_end-zero high r (q ∷ ranges) (begun-zero high q ranges beyond)) (omega arith)
]

-- Two overlapping intervals cover what their hull does.
hull :
    (lo hi s e a : ℕ)
    → lo ≤ e
    → s ≤ hi
    → lo ≤ hi
    → s ≤ e
    → (Holds a (lo, hi) ⊎ Holds a (s, e)) ↔ Holds a (min lo s, max hi e)
hull lo hi s e a h₁ h₂ h₃ h₄ = (
  (λ h. elim h [
    | inl (l, u) ↦ (omega arith, omega arith)
    | inr (l, u) ↦ (omega arith, omega arith)
  ]),
  (λ (l, u). elim (Bool-cases (leb lo a)) [
    | inl above ↦
        let above_lo = leb→le lo a above in
        elim (Bool-cases (leb a hi)) [
          | inl under ↦ inl (above_lo, leb→le a hi under)
          | inr over ↦ let over_hi = leb-false a hi over in inr (omega arith, omega arith)
        ]
    | inr below ↦ let below_lo = leb-false lo a below in inr (omega arith, omega arith)
  ]),
)

pub rest-Covers :
    (low high : ℕ) (r : Interval) (ranges : List Interval) (a : ℕ)
    → low ≤ high
    → low ≤ r.1
    → r.0 ≤ high
    → r.0 ≤ r.1
    → After r.1 ranges
    → (Holds a (low, high) ⊎ Covers (r ∷ ranges) a) ↔ (
        Holds a (min low r.0, max high (last_end high r ranges))
        ⊎ Covers (drop (begun high ranges) ranges) a)
rest-Covers low high r [] a order lo hi p h =
    let (to, from) = hull low high r.0 r.1 a lo hi order p in
    rw (last_end-zero high r [] (begun-nil high), begun-nil high)
      (
        (λ c. elim c [
          | inl x ↦ inl (to (inl x))
          | inr d ↦ elim d [ inl y ↦ inl (to (inr y)) | inr z ↦ absurd z ]
        ]),
        (λ c. elim c [
          | inl x ↦ elim (from x) [ inl y ↦ inl y | inr z ↦ inr (inl z) ]
          | inr z ↦ absurd z
        ]),
      )
rest-Covers low high r (q ∷ ranges) a order lo hi p (lt, proper, rest) =
    elim (Bool-cases (leb q.0 high)) [
      | inr beyond ↦
          let z = begun-zero high q ranges beyond in
          let (to, from) = hull low high r.0 r.1 a lo hi order p in
          rw (last_end-zero high r (q ∷ ranges) z, z)
            (
              (λ c. elim c [
                | inl x ↦ inl (to (inl x))
                | inr d ↦ elim d [ inl y ↦ inl (to (inr y)) | inr w ↦ inr w ]
              ]),
              (λ c. elim c [
                | inl x ↦ elim (from x) [ inl y ↦ inl y | inr w ↦ inr (inl w) ]
                | inr w ↦ inr (inr w)
              ]),
            )
      | inl reached ↦
          let reach = leb→le q.0 high reached in
          let (to, from) = rest-Covers low high q ranges a order (omega arith) reach proper rest in
          let (wide, narrow) = widen (last_end high q ranges) reach in
          rw (last_end-suc high r q ranges reached, begun-suc high q ranges reached)
            (
              (λ c. elim c [
                | inl x ↦ elim (to (inl x)) [ inl y ↦ inl (wide (inr y)) | inr w ↦ inr w ]
                | inr d ↦ elim d [
                  | inl x ↦ inl (wide (inl x))
                  | inr e ↦ elim (to (inr e)) [ inl y ↦ inl (wide (inr y)) | inr w ↦ inr w ]
                ]
              ]),
              (λ c. elim c [
                | inl x ↦ elim (narrow x) [
                  | inl y ↦ inr (inl y)
                  | inr z ↦ elim (from (inl z)) [ inl u ↦ inl u | inr v ↦ inr (inr v) ]
                ]
                | inr w ↦ elim (from (inr w)) [ inl u ↦ inl u | inr v ↦ inr (inr v) ]
              ]),
            )
    ]
  where
    widen :
        (e : ℕ)
        → q.0 ≤ high
        → (Holds a r ⊎ Holds a (min low q.0, max high e)) ↔ Holds a (min low r.0, max high e)
    widen e reach = (
      (λ h. elim h [
        | inl (l, u) ↦ (omega arith, omega arith)
        | inr (l, u) ↦ (omega arith, omega arith)
      ]),
      (λ (l, u). elim (Bool-cases (leb (min low q.0) a)) [
        | inl above ↦ inr (leb→le (min low q.0) a above, u)
        | inr below ↦ let under = leb-false (min low q.0) a below in inl (omega arith, omega arith)
      ]),
    )

-- ===== src/Ranges/Inserted.antt =====
-- `insert_interval` keeps the normal form, and adds just the addresses of the interval.
use ngx_http_pow_gate.Common.{
  ℕ, ◌≤◌, ◌<◌, ◌≡◌, ◌↔◌, ◌⊎◌, inl, inr, refl, arith, min, max, true, false, ltb, ltb→lt, leb, List,
  [], ◌∷◌, drop, Bool-cases, leb→le,
}
use ngx_http_pow_gate.Ranges.{
  Interval, partition_point, stretched, insert_interval, contains_interval,
}
use ngx_http_pow_gate.Ranges.Order.{Holds, Covers}
use ngx_http_pow_gate.Ranges.Normal.{After, IsNormal, After-IsNormal, leb-false}
use ngx_http_pow_gate.Ranges.Search.{contains_interval_iff}
use ngx_http_pow_gate.Ranges.Insert.{
  begun, insert_interval-skip, insert_interval-front, insert_interval-swallow,
}
use ngx_http_pow_gate.Ranges.Merge.{last_end, rest-After, rest-Covers}

insert_interval-nil : (interval : Interval) → insert_interval [] interval ≡ interval ∷ []
unfolding insert_interval stretched partition_point
insert_interval-nil interval = refl

ltb-false : (m n : ℕ) → ltb m n ≡ false → n ≤ m
ltb-false m n h = ground arith

lt→leb : (m n : ℕ) → m ≤ n → leb m n ≡ true
lt→leb m n h = ground arith

-- The three ways to insert before a list: behind its first interval, in front of it, or over it.
module _ (r : Interval) (ranges : List Interval) (interval : Interval) where
  abbrev over : List Interval
  over =
      (min interval.0 r.0, max interval.1 (last_end interval.1 r ranges))
      ∷ drop (begun interval.1 ranges) ranges

  insert_interval-over :
      ltb r.1 interval.0 ≡ false
      → leb r.0 interval.1 ≡ true
      → insert_interval (r ∷ ranges) interval ≡ over
  unfolding last_end
  insert_interval-over h l = insert_interval-swallow r ranges interval h l

  ways :
      interval.0 ≤ interval.1
      → r.0 ≤ r.1
      → ((r.1 < interval.0)
          × (insert_interval (r ∷ ranges) interval ≡ r ∷ insert_interval ranges interval))
        ⊎ (((interval.1 < r.0) × (insert_interval (r ∷ ranges) interval ≡ interval ∷ r ∷ ranges))
            ⊎ ((interval.0 ≤ r.1)
                × (r.0 ≤ interval.1)
                × (insert_interval (r ∷ ranges) interval ≡ over)))
  ways order proper = elim (Bool-cases (ltb r.1 interval.0)) [
    | inl past ↦
        let lt = ltb→lt r.1 interval.0 past in
        inl (lt, insert_interval-skip r ranges interval past (lt→leb r.0 interval.1 (omega arith)))
    | inr near ↦ elim (Bool-cases (leb r.0 interval.1)) [
      | inr front ↦
          inr (
            inl
              (leb-false r.0 interval.1 front, insert_interval-front r ranges interval near front))
      | inl touch ↦ inr (
          inr (
            ltb-false r.1 interval.0 near,
            leb→le r.0 interval.1 touch,
            insert_interval-over near touch,
          ))
    ]
  ]

insert_interval-After :
    (e : ℕ) (ranges : List Interval) (interval : Interval)
    → e < interval.0
    → interval.0 ≤ interval.1
    → After e ranges
    → After e (insert_interval ranges interval)
insert_interval-After e [] interval lt order h = rw (insert_interval-nil interval) (lt, order, tt)
insert_interval-After e (r ∷ ranges) interval lt order (from, proper, rest) =
    elim (ways r ranges interval order proper) [
      | inl (past, eq) ↦
          rw eq (from, proper, insert_interval-After r.1 ranges interval past order rest)
      | inr (inl (front, eq)) ↦ rw eq (lt, order, (front, proper, rest))
      | inr (inr (lo, hi, eq)) ↦
          rw eq (omega arith, omega arith, rest-After interval.1 r ranges rest)
    ]

-- Inserting an interval that starts where it ends or before keeps the normal form.
pub insert_interval-IsNormal :
    (ranges : List Interval) (interval : Interval)
    → interval.0 ≤ interval.1
    → IsNormal ranges
    → IsNormal (insert_interval ranges interval)
insert_interval-IsNormal [] interval order h = rw (insert_interval-nil interval) (order, tt)
insert_interval-IsNormal (r ∷ ranges) interval order (proper, rest) =
    elim (ways r ranges interval order proper) [
      | inl (past, eq) ↦ rw eq (proper, insert_interval-After r.1 ranges interval past order rest)
      | inr (inl (front, eq)) ↦ rw eq (order, (front, proper, rest))
      | inr (inr (lo, hi, eq)) ↦ rw eq (omega arith, rest-After interval.1 r ranges rest)
    ]

insert_interval-Covers :
    (ranges : List Interval) (interval : Interval) (a : ℕ)
    → interval.0 ≤ interval.1
    → IsNormal ranges
    → (Holds a interval ⊎ Covers ranges a) ↔ Covers (insert_interval ranges interval) a
insert_interval-Covers [] interval a order h =
    rw (insert_interval-nil interval) ((λ c. c), (λ c. c))
insert_interval-Covers (r ∷ ranges) interval a order (proper, rest) =
    elim (ways r ranges interval order proper) [
      | inl (past, eq) ↦
          let (to, from) =
            insert_interval-Covers ranges interval a order (After-IsNormal r.1 ranges rest) in
          rw eq (
            (λ c. elim c [
              | inl x ↦ inr (to (inl x))
              | inr d ↦ elim d [ inl y ↦ inl y | inr z ↦ inr (to (inr z)) ]
            ]),
            (λ c. elim c [
              | inl y ↦ inr (inl y)
              | inr d ↦ elim (from d) [ inl x ↦ inl x | inr z ↦ inr (inr z) ]
            ]),
          )
      | inr (inl (front, eq)) ↦ rw eq ((λ c. c), (λ c. c))
      | inr (inr (lo, hi, eq)) ↦
          rw eq (rest-Covers interval.0 interval.1 r ranges a order lo hi proper rest)
    ]

-- After the insertion of an interval that starts where it ends or before into a list in normal
-- form, an address is found exactly if the interval holds it or it was found before.
pub contains_interval-insert_interval :
    (ranges : List Interval) (interval : Interval) (a : ℕ)
    → interval.0 ≤ interval.1
    → IsNormal ranges
    → (contains_interval (insert_interval ranges interval) a ≡ true)
      ↔ (((interval.0 ≤ a) × (a ≤ interval.1)) ⊎ (contains_interval ranges a ≡ true))
contains_interval-insert_interval ranges interval a order normal =
    let (to, from) = insert_interval-Covers ranges interval a order normal in
    let (out, back) =
      contains_interval_iff (insert_interval ranges interval) a
        (insert_interval-IsNormal ranges interval order normal) in
    let (was, is) = contains_interval_iff ranges a normal in
    (
      (λ h. elim (from (out h)) [ inl x ↦ inl x | inr c ↦ inr (is c) ]),
      (λ h. elim h [ inl x ↦ back (to (inl x)) | inr c ↦ back (to (inr (was c))) ]),
    )

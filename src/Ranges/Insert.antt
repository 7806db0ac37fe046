-- ===== src/Ranges/Insert.antt =====
-- Inserting an interval into a list in normal form.
use ngx_http_pow_gate.Common.{
  ℕ, zero, suc, ◌-◌, ◌≡◌, refl, arith, min, max, true, false, ltb, leb, List, [], ◌∷◌, drop,
}
use ngx_http_pow_gate.Ranges.{Interval, partition_point, at, stretched, insert_interval}

-- How many intervals end before a bound, and how many start at a bound or before.
abbrev ended : ℕ → List Interval → ℕ
ended low ranges = partition_point (λ r. ltb r.1 low) ranges

abbrev pub begun : ℕ → List Interval → ℕ
begun high ranges = partition_point (λ r. leb r.0 high) ranges

ended-suc :
    (low : ℕ) (r : Interval) (ranges : List Interval)
    → ltb r.1 low ≡ true
    → ended low (r ∷ ranges) ≡ suc (ended low ranges)
unfolding partition_point
ended-suc low r ranges h = rw h refl

ended-zero :
    (low : ℕ) (r : Interval) (ranges : List Interval)
    → ltb r.1 low ≡ false
    → ended low (r ∷ ranges) ≡ 0
unfolding partition_point
ended-zero low r ranges h = rw h refl

pub begun-suc :
    (high : ℕ) (r : Interval) (ranges : List Interval)
    → leb r.0 high ≡ true
    → begun high (r ∷ ranges) ≡ suc (begun high ranges)
unfolding partition_point
begun-suc high r ranges h = rw h refl

pub begun-zero :
    (high : ℕ) (r : Interval) (ranges : List Interval)
    → leb r.0 high ≡ false
    → begun high (r ∷ ranges) ≡ 0
unfolding partition_point
begun-zero high r ranges h = rw h refl

pub begun-nil : (high : ℕ) → begun high [] ≡ 0
unfolding partition_point
begun-nil high = refl

sub_one : (n : ℕ) → suc n - 1 ≡ n
sub_one n = omega arith

ltb-suc : (m n : ℕ) → ltb (suc m) (suc n) ≡ ltb m n
ltb-suc m n = ground arith

-- Indices into a list are those into its tail, and one more.
stretched-suc :
    (r : Interval) (ranges : List Interval) (interval : Interval) (first last : ℕ)
    → stretched (r ∷ ranges) interval (suc first) (suc last) ≡ stretched ranges interval first last
unfolding stretched at
stretched-suc r ranges interval first zero = rw (ltb-suc first zero) (ground arith)
stretched-suc r ranges interval first (suc last) =
    rw (ltb-suc first (suc last), sub_one (suc last), sub_one last) refl

pub insert_interval-skip :
    (r : Interval) (ranges : List Interval) (interval : Interval)
    → ltb r.1 interval.0 ≡ true
    → leb r.0 interval.1 ≡ true
    → insert_interval (r ∷ ranges) interval ≡ r ∷ insert_interval ranges interval
unfolding insert_interval
insert_interval-skip r ranges interval h l =
    rw
      (
        ended-suc interval.0 r ranges h,
        begun-suc interval.1 r ranges l,
        stretched-suc r ranges interval (ended interval.0 ranges) (begun interval.1 ranges),
      )
      refl

pub insert_interval-front :
    (r : Interval) (ranges : List Interval) (interval : Interval)
    → ltb r.1 interval.0 ≡ false
    → leb r.0 interval.1 ≡ false
    → insert_interval (r ∷ ranges) interval ≡ interval ∷ r ∷ ranges
unfolding insert_interval stretched
insert_interval-front r ranges interval h l =
    rw (ended-zero interval.0 r ranges h, begun-zero interval.1 r ranges l) refl

-- The interval that takes in `r` and all the later ones that it reaches.
abbrev pub swallowed : Interval → List Interval → Interval → Interval
swallowed r ranges interval =
    (min interval.0 r.0, max interval.1 (at (r ∷ ranges) (begun interval.1 ranges)).1)

positive : (n : ℕ) → ltb 0 (suc n) ≡ true
positive n = ground arith

pub insert_interval-swallow :
    (r : Interval) (ranges : List Interval) (interval : Interval)
    → ltb r.1 interval.0 ≡ false
    → leb r.0 interval.1 ≡ true
    → insert_interval (r ∷ ranges) interval
      ≡ swallowed r ranges interval ∷ drop (begun interval.1 ranges) ranges
unfolding insert_interval stretched at
insert_interval-swallow r ranges interval h l =
    rw
      (
        ended-zero interval.0 r ranges h,
        begun-suc interval.1 r ranges l,
        positive (begun interval.1 ranges),
        sub_one (begun interval.1 ranges),
      )
      refl

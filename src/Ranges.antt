-- ===== src/Ranges.antt =====
-- The address intervals of the good-bot verifier: src/pow-gate-core/src/ranges.rs. An address of
-- either family is a number, so that one list of intervals stands for both.
use ngx_http_pow_gate.Common.{
  ℕ, zero, suc, ◌+◌, ◌-◌, ◌≡◌, min, max, Bool, true, false, ◌&&◌, ◌||◌, ltb, leb, ◌==◌,
  if◌then◌else◌, List, [], ◌∷◌, ◌++◌, take, drop, get_or,
}
pub mod Order
pub mod Normal
pub mod Search
pub mod Insert
pub mod Merge
pub mod Inserted
mod Examples

-- `(start, end)`, both of them inside
abbrev pub Interval : Type 0
Interval = ℕ × ℕ

-- `partition_point`: how many of the first elements pass a test.
unfoldable pub partition_point : (Interval → Bool) → List Interval → ℕ
partition_point test [] = 0
partition_point test (r ∷ ranges) =
    let rest = partition_point test ranges in if test r then suc rest else 0

abbrev pub nowhere : Interval
nowhere = (0, 0)

-- `ranges[i]`, only for an index below the length
unfoldable pub at : List Interval → ℕ → Interval
at ranges i = get_or ranges i nowhere

-- `contains_interval`
unfoldable pub contains_interval : List Interval → ℕ → Bool
contains_interval ranges address =
    let i = partition_point (λ r. leb r.0 address) ranges in
    ltb 0 i && leb address (at ranges (i - 1)).1

-- The bounds of an interval that takes in the intervals from `first` to before `last`.
unfoldable pub stretched : List Interval → Interval → (first last : ℕ) → Interval
stretched ranges interval first last =
    if ltb first last
    then (min interval.0 (at ranges first).0, max interval.1 (at ranges (last - 1)).1)
    else interval

-- `insert_interval`
unfoldable pub insert_interval : List Interval → Interval → List Interval
insert_interval ranges interval =
    let first = partition_point (λ r. ltb r.1 interval.0) ranges in
    let last = partition_point (λ r. leb r.0 interval.1) ranges in
    take first ranges ++ stretched ranges interval first last ∷ drop last ranges

-- `sort_unstable`, on pairs
unfoldable pub before : Interval → Interval → Bool
before a b = ltb a.0 b.0 || (a.0 == b.0 && leb a.1 b.1)

unfoldable pub put : Interval → List Interval → List Interval
put r [] = r ∷ []
put r (q ∷ sorted) = let rest = put r sorted in if before r q then r ∷ q ∷ sorted else q ∷ rest

unfoldable pub sort : List Interval → List Interval
sort [] = []
sort (r ∷ ranges) = put r (sort ranges)

-- The loop, at `ranges[used - 1]`: the intervals before it are done.
unfoldable pub coalesce : Interval → List Interval → List Interval
coalesce last [] = last ∷ []
coalesce last (r ∷ ranges) =
    let merged = coalesce (last.0, max last.1 r.1) ranges in
    let apart = coalesce r ranges in if leb r.0 last.1 then merged else last ∷ apart

abbrev pub coalesced : List Interval → List Interval
coalesced [] = []
coalesced (r ∷ ranges) = coalesce r ranges

-- `normalize`
unfoldable pub normalize : List Interval → List Interval
normalize ranges = coalesced (sort ranges)

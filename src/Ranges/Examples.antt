-- ===== src/Ranges/Examples.antt =====
-- Runs of the theorems on intervals.
use ngx_http_pow_gate.Common.{◌≤◌, ◌≡◌, ◌↔◌, ◌⊎◌, refl, arith, true, List, [], ◌∷◌}
use ngx_http_pow_gate.Ranges.{
  Interval, insert_interval, contains_interval, normalize, partition_point, at, stretched, sort,
  put, before, coalesce,
}
use ngx_http_pow_gate.Ranges.Inserted.{contains_interval-insert_interval}

abbrev raw : List Interval
raw = (20, 30) ∷ (1, 5) ∷ (4, 9) ∷ []

abbrev two : List Interval
two = (1, 9) ∷ (20, 30) ∷ []

normalize-raw : normalize raw ≡ two
unfolding normalize sort put before coalesce
normalize-raw = refl

insert_two : insert_interval two (5, 20) ≡ (1, 30) ∷ []
unfolding insert_interval partition_point at stretched
insert_two = refl

contains_interval-insert_interval_example :
    (contains_interval (insert_interval two (5, 20)) 12 ≡ true)
    ↔ (((5 ≤ 12) × (12 ≤ 20)) ⊎ (contains_interval two 12 ≡ true))
contains_interval-insert_interval_example =
    contains_interval-insert_interval two (5, 20) 12 (omega arith)
      (omega arith, (omega arith, omega arith, tt))

-- ===== src/BodyLimit/Examples.antt =====
-- A run of the theorem on a body of two chains.
use ngx_http_pow_gate.Common.{◌≤◌, ◌≡◌, ◌↔◌, refl, true, false, none, some, [], ◌∷◌}
use ngx_http_pow_gate.Common.Int.{pos}
use ngx_http_pow_gate.BodyLimit.{
  limit, Buffer, size, enable, too_large, next, count_chain, filter, filter_all,
}
use ngx_http_pow_gate.BodyLimit.Totals.{body_size, filter_all-enable_iff}

abbrev in_memory : Buffer
in_memory = record {
  temporary = true;
  memory = false;
  mmap = false;
  in_file = false;
  in_memory = some (pos 8000);
  file_range = pos 0;
}

abbrev on_disk : Buffer
on_disk = record {
  temporary = false;
  memory = false;
  mmap = false;
  in_file = true;
  in_memory = none;
  file_range = pos 193;
}

refused : filter_all enable ((some in_memory ∷ none ∷ []) ∷ (some on_disk ∷ []) ∷ []) ≡ too_large
unfolding filter_all filter count_chain size
refused = refl

filter_all-enable_iff_example :
    (filter_all enable ((some in_memory ∷ none ∷ []) ∷ (some on_disk ∷ []) ∷ []) ≡ next)
    ↔ (body_size ((some in_memory ∷ none ∷ []) ∷ (some on_disk ∷ []) ∷ []) ≤ limit)
filter_all-enable_iff_example =
    filter_all-enable_iff ((some in_memory ∷ none ∷ []) ∷ (some on_disk ∷ []) ∷ [])

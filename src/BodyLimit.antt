-- ===== src/BodyLimit.antt =====
-- The bound on the bodies of the verify endpoint: src/ngx-http-pow-gate/src/body_limit.rs.
use ngx_http_pow_gate.Common.{
  ℕ, zero, suc, ◌+◌, ◌-◌, ◌≡◌, Bool, true, false, ◌&&◌, ◌||◌, ltb, if◌then◌else◌, Option, none,
  some, List, [], ◌∷◌,
}
use ngx_http_pow_gate.Common.Int.{ℤ, pos, negsuc}
pub mod Totals
mod Examples

-- `VERIFY_LIMIT`
abbrev pub limit : ℕ
limit = 8192

-- The counter of a request: `verify_enabled` and `verify_bytes`
pub record Counter : Type 0 where
  pub enabled : Bool
  pub bytes : ℕ

-- A buffer: the differences of its pointers in memory, if it has both, and of its file offsets.
pub record Buffer : Type 0 where
  pub temporary : Bool
  pub memory : Bool
  pub mmap : Bool
  pub in_file : Bool
  pub in_memory : Option ℤ
  pub file_range : ℤ

-- `max(0)`
abbrev pub positive : ℤ → ℕ
positive (pos n) = n
positive (negsuc n) = 0

abbrev pub file_size : Buffer → ℕ
file_size b = if b.in_file then positive b.file_range else 0

abbrev pub memory_size : Option ℤ → Buffer → ℕ
memory_size none b = file_size b
memory_size (some n) b = positive n

-- `size` of the loop
unfoldable pub size : Buffer → ℕ
size b = if b.temporary || b.memory || b.mmap then memory_size b.in_memory b else file_size b

-- `enable`
abbrev pub enable : Counter
enable = record { enabled = true; bytes = 0 }

pub data Verdict : Type 0 where
  too_large next : Verdict

-- The `while` loop of `filter`, where a link may have no buffer
unfoldable pub count_chain : ℕ → List (Option Buffer) → Verdict × ℕ
count_chain count [] = (next, count)
count_chain count (none ∷ chain) = count_chain count chain
count_chain count (some b ∷ chain) =
    let rest = count_chain (count + size b) chain in
    if ltb (limit - count) (size b) then (too_large, count) else rest

-- `filter`, before it calls the next filter
unfoldable pub filter : Counter → List (Option Buffer) → Verdict × Counter
filter counter chain =
    let counted = count_chain counter.bytes chain in
    if counter.enabled then (counted.0, record counter { bytes = counted.1 }) else (next, counter)

abbrev pub and_then : Verdict → Verdict → Verdict
and_then too_large later = too_large
and_then next later = later

-- The calls of the filter for one request, until one refuses the body
unfoldable pub filter_all : Counter → List (List (Option Buffer)) → Verdict
filter_all counter [] = next
filter_all counter (chain ∷ chains) =
    let done = filter counter chain in and_then done.0 (filter_all done.1 chains)

-- ===== src/Runtime/Examples.antt =====
-- Runs of the theorems on a body and a cache of keys.
use ngx_http_pow_gate.Common.{
  ℕ, ◌≤◌, ◌≡◌, refl, arith, true, Option, some, List, [], ◌∷◌, length, take, drop, length-take, min,
  replicate,
}
use ngx_http_pow_gate.Common.Assoc.{Key, lookup}
use ngx_http_pow_gate.Common.Bytes.{codes, eq_bytes, eq_bytes_iff}
use ngx_http_pow_gate.RangeSet.{trim, trim_start, reverse}
use ngx_http_pow_gate.Common.Parse.{split_once}
use ngx_http_pow_gate.Runtime.{
  Segment, in_file, in_memory, read_range_loop, read_file_range, collect, collect_all,
  request_body_limited, load_key, cookie_value, find_value, pairs_of, split_on,
}
use ngx_http_pow_gate.Runtime.Body.{read_range_loop-total, request_body_limited-bound}
use ngx_http_pow_gate.Runtime.Keys.{load_key-Cached, IsSafe, Cached}

abbrev ten : List ℕ
ten = replicate 10 7

abbrev gathered : List ℕ
gathered = 1 ∷ 2 ∷ 7 ∷ 7 ∷ 7 ∷ 7 ∷ 7 ∷ []

-- A file of ten bytes, of which a call returns three at most.
abbrev file : ℕ → ℕ → List ℕ
file offset size = take (min size 3) (drop offset ten)

file_short : (offset size : ℕ) → length (file offset size) ≤ size
file_short offset size = omega (arith, length-take (min size 3) (drop offset ten))

abbrev bufs : Option (List Segment)
bufs = some (in_memory (1 ∷ 2 ∷ []) ∷ in_file true 4 9 ∷ [])

request_body_limited-bound_example : length gathered ≤ 8
unfolding request_body_limited collect_all collect read_file_range read_range_loop
request_body_limited-bound_example = request_body_limited-bound file file_short bufs 8 gathered refl

read_range_loop-total_example : (r : Option (List ℕ)) × (read_range_loop file 6 4 5 [] ≡ some r)
read_range_loop-total_example = read_range_loop-total file 6 4 5 [] (omega arith)

instance abbrev path_key : Key (List ℕ)
path_key = record { equal = eq_bytes; equal_iff = eq_bytes_iff }

abbrev short_file : List ℕ → Option (List ℕ)
short_file path = some (1 ∷ [])

load_key-Cached_example :
    IsSafe (load_key short_file (codes "k") []).0
    × Cached short_file (load_key short_file (codes "k") []).1
    × (lookup (codes "k") (load_key short_file (codes "k") []).1
        ≡ some (load_key short_file (codes "k") []).0)
    × ((other key : List ℕ)
        → lookup other [] ≡ some key
        → lookup other (load_key short_file (codes "k") []).1 ≡ some key)
unfolding lookup
load_key-Cached_example = load_key-Cached short_file (codes "k") [] (λ path key h. absurd (cc h))

-- A cookie is found behind others, and its attributes are written in order.
cookie_found : cookie_value (codes "a=1; c=x=y ;d=2") (codes "c") ≡ some (codes "x=y")
unfolding cookie_value find_value pairs_of split_on trim trim_start reverse split_once eq_bytes
cookie_found = refl

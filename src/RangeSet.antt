-- ===== src/RangeSet.antt =====
-- The sets of address ranges and the reverse DNS test: src/pow-gate-core/src/ranges.rs. The parser
-- of addresses and the DNS are parameters; text is ASCII.
use ngx_http_pow_gate.Common.{
  ℕ, zero, suc, ◌+◌, ◌-◌, ◌*◌, ◌/◌, ◌^◌, ◌≡◌, Bool, true, false, not, ◌&&◌, ◌||◌, ltb, leb, ◌==◌,
  if◌then◌else◌, Option, none, some, List, [], ◌∷◌, ◌++◌, length, ◌>>=◌, ◌>>◌, require,
}
use ngx_http_pow_gate.Common.Parse.{split_once, parse_u32}
use ngx_http_pow_gate.Common.Bytes.{eq_bytes}
use ngx_http_pow_gate.Context.{IpAddr, v4, v6}
use ngx_http_pow_gate.Ranges.{Interval, insert_interval, contains_interval, normalize}
pub mod Blocks
pub mod Cidr
mod Examples

pub record IpRangeSet : Type 0 where
  pub ranges_v4 : List Interval
  pub ranges_v6 : List Interval
  pub prefixes : ℕ

-- `IpRangeSet::new`
abbrev pub new : IpRangeSet
new = record { ranges_v4 = []; ranges_v6 = []; prefixes = 0 }

-- The bytes that `trim` takes away.
abbrev pub is_space : ℕ → Bool
is_space c = c == 32 || (leb 9 c && leb c 13)

unfoldable pub trim_start : List ℕ → List ℕ
trim_start [] = []
trim_start (c ∷ s) = let rest = trim_start s in if is_space c then rest else c ∷ s

unfoldable pub reverse : List ℕ → List ℕ
reverse [] = []
reverse (c ∷ s) = reverse s ++ c ∷ []

unfoldable pub trim : List ℕ → List ℕ
trim s = reverse (trim_start (reverse (trim_start s)))

-- `(u32::from(a) & mask, u32::from(a) | !mask)`, and alike for 128 bits
unfoldable pub cidr_interval : (width bits a : ℕ) → Interval
cidr_interval width bits a =
    let size = 2 ^ (width - bits) in
    let low = if bits == 0 then 0 else a / size * size in (low, low + (size - 1))

abbrev pub unwrap_or : Option ℕ → ℕ → ℕ
unwrap_or none n = n
unwrap_or (some m) n = m

-- `let (ip_str, prefix) = match ..`
unfoldable pub cidr_parts : List ℕ → Option (List ℕ × List ℕ) → Option (List ℕ × Option ℕ)
cidr_parts cidr none = some (trim cidr, none)
cidr_parts cidr (some (i, p)) = do bits ← parse_u32 (trim p); some (trim i, some bits)

-- The two ways to add an interval.
unfoldable pub push_interval : IpRangeSet → Option ℕ → IpAddr → Option IpRangeSet
push_interval set prefix (v4 a) = do
  require (leb (unwrap_or prefix 32) 32)
  some (record set {
    ranges_v4 = set.ranges_v4 ++ cidr_interval 32 (unwrap_or prefix 32) a ∷ [];
    prefixes = set.prefixes + 1;
  })
push_interval set prefix (v6 a) = do
  require (leb (unwrap_or prefix 128) 128)
  some (record set {
    ranges_v6 = set.ranges_v6 ++ cidr_interval 128 (unwrap_or prefix 128) a ∷ [];
    prefixes = set.prefixes + 1;
  })

-- `Vec::pop`
unfoldable pub pop : List Interval → Option (List Interval × Interval)
pop [] = none
pop (r ∷ []) = some ([], r)
pop (r ∷ q ∷ ranges) = do (front, last) ← pop (q ∷ ranges); some (r ∷ front, last)

-- The last interval is taken out, and put in where it belongs.
unfoldable pub settle_last : List Interval → Option (List Interval)
settle_last ranges = do (front, last) ← pop ranges; some (insert_interval front last)

unfoldable pub with_v4 : IpRangeSet → List Interval → Option IpRangeSet
with_v4 set ranges = some (record set { ranges_v4 = ranges })

unfoldable pub with_v6 : IpRangeSet → List Interval → Option IpRangeSet
with_v6 set ranges = some (record set { ranges_v6 = ranges })

-- The family whose list has grown.
unfoldable pub sorted_in : IpRangeSet → IpRangeSet → Option IpRangeSet
sorted_in set pushed =
    if not (length pushed.ranges_v4 == length set.ranges_v4)
    then settle_last pushed.ranges_v4 >>= with_v4 pushed
    else (settle_last pushed.ranges_v6 >>= with_v6 pushed)

module _ (parse_ip : List ℕ → Option IpAddr) where
  -- `push_cidr`: `none` for `false`, which leaves the set alone.
  unfoldable pub push_cidr : IpRangeSet → List ℕ → Option IpRangeSet
  push_cidr set cidr = do
    (ip_str, prefix) ← cidr_parts cidr (split_once b'/' cidr)
    ip ← parse_ip ip_str
    push_interval set prefix ip

  -- `add_cidr`
  unfoldable pub add_cidr : IpRangeSet → List ℕ → Option IpRangeSet
  add_cidr set cidr = do pushed ← push_cidr set cidr; sorted_in set pushed

-- `contains`
unfoldable pub contains : IpRangeSet → IpAddr → Bool
contains set (v4 a) = contains_interval set.ranges_v4 a
contains set (v6 a) = contains_interval set.ranges_v6 a

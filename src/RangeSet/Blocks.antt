-- ===== src/RangeSet/Blocks.antt =====
-- The block of addresses that a CIDR stands for.
use native.Mathlib.Nat.{div-mul-le_self, lt-div-mul-add, div-eq_of_lt-le, one-le-pow, div-eq_of_lt}
use ngx_http_pow_gate.Common.{
  ℕ, zero, suc, ◌+◌, ◌-◌, ◌*◌, ◌/◌, ◌^◌, ◌≤◌, ◌<◌, ◌≡◌, ◌↔◌, arith, false, ◌==◌,
}
use ngx_http_pow_gate.Ranges.Order.{Holds}
use ngx_http_pow_gate.RangeSet.{cidr_interval}

-- An address in the block of `size` numbers around `a`.
block_iff :
    (size a b : ℕ)
    → 1 ≤ size
    → Holds b (a / size * size, a / size * size + (size - 1)) ↔ (b / size ≡ a / size)
block_iff size a b pos = (
  (λ (lo, hi). div-eq_of_lt-le size lo (next (a / size) hi)),
  (λ e.
      let lower = div-mul-le_self b size in
      let upper : b < b / size * size + size = lt-div-mul-add pos in
      (rw (← e) lower, rw (← e) (omega arith))),
)
  where
    next : (q : ℕ) → b ≤ q * size + (size - 1) → b < (q + 1) * size
    next q hi = grind arith

whole : (width : ℕ) {a : ℕ} → a < 2 ^ width → a / 2 ^ (width - 0) ≡ 0
whole width h = let e : width - 0 ≡ width = omega arith in rw e (div-eq_of_lt h)

-- The same, where the quotient is zero and written so.
first_block_iff :
    (size a b : ℕ) → 1 ≤ size → a / size ≡ 0 → Holds b (0, 0 + (size - 1)) ↔ (b / size ≡ a / size)
first_block_iff size a b pos low =
    let (to, from) = block_iff size a b pos in
    (
      (λ (lo, hi). to (rw low (omega arith), rw low (omega arith))),
      (λ e. let (lo, hi) = from e in (omega arith, omega (arith, (rw low at hi)))),
    )

not_zero : (n : ℕ) → (suc n == 0) ≡ false
not_zero n = ground arith

-- The interval of a CIDR holds the addresses of its family that agree with it on the prefix.
pub cidr_interval_iff :
    (width bits a b : ℕ)
    → a < 2 ^ width
    → b < 2 ^ width
    → Holds b (cidr_interval width bits a) ↔ (b / 2 ^ (width - bits) ≡ a / 2 ^ (width - bits))
unfolding cidr_interval
cidr_interval_iff width zero a b ha hb =
    first_block_iff (2 ^ (width - 0)) a b (one-le-pow (width - 0) 2 (omega arith)) (whole width ha)
cidr_interval_iff width (suc bits) a b ha hb =
    rw (not_zero bits)
      (block_iff (2 ^ (width - suc bits)) a b (one-le-pow (width - suc bits) 2 (omega arith)))

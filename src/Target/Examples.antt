-- ===== src/Target/Examples.antt =====
-- Targets and solutions at inputs, and the theorems there. The hash is a constant digest.
use ngx_http_pow_gate.Common.{ℕ, ◌-◌, ◌/◌, ◌^◌, ◌<◌, ◌≡◌, ◌↔◌, refl, true, arith, List, replicate}
use ngx_http_pow_gate.Common.Bytes.{be_value, codes}
use ngx_http_pow_gate.Target.Bounds.{IsDigest, solution_valid_iff}
use ngx_http_pow_gate.Common.Decimal.{decimal, decimal_digits}
use ngx_http_pow_gate.Target.{difficulty_to_target, hash_below, pow_hash, solution_valid}

program : Unit {0}
unfolding difficulty_to_target hash_below pow_hash solution_valid decimal decimal_digits
program = tt

abbrev ones_hash : List ℕ → List ℕ
ones_hash m = replicate 32 255

target_of_three : difficulty_to_target 3 ≡ replicate 32 0x55
unfolding program
target_of_three = refl

decimal_lem : decimal 2048 ≡ codes "2048"
unfolding program
decimal_lem = refl

decimal_max : decimal (2 ^ 64 - 1) ≡ codes "18446744073709551615"
unfolding program
decimal_max = refl

ones-IsDigest : (m : List ℕ) → IsDigest (ones_hash m)
ones-IsDigest m = omega arith

solution_valid_iff_example :
    (solution_valid ones_hash (codes "salt") 7 2 ≡ true)
    ↔ (be_value (pow_hash ones_hash (codes "salt") 7) < 2 ^ 256 / 2)
solution_valid_iff_example =
    solution_valid_iff ones_hash ones-IsDigest (codes "salt") 7 2 (omega arith) (omega arith)

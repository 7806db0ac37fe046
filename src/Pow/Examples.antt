-- ===== src/Pow/Examples.antt =====
-- Runs of the theorems on a challenge, with an encoding of the bound fields that can be run.
use ngx_http_pow_gate.Common.{ℕ, ◌≡◌, ◌⊎◌, refl, arith, List, [], ◌∷◌, ◌++◌, length, replicate}
use ngx_http_pow_gate.Common.Int.{ℤ, pos, negsuc, ◌+ℤ◌, add_i64}
use ngx_http_pow_gate.Common.Bytes.{eq_bytes}
use ngx_http_pow_gate.Mac.{ct_eq, hex, hmac, parts, joined}
use ngx_http_pow_gate.Mac.Framing.{append-inj}
use ngx_http_pow_gate.Target.{
  solution_valid, difficulty_to_target, long_division, hash_below, pow_hash,
}
use ngx_http_pow_gate.Wire.Doubled.{doubled_wire, doubled_wire-IsWire}
use ngx_http_pow_gate.Pow.{Challenge, ok, Bound, issue, is_bad, token_of, binding, verify_solution}
use ngx_http_pow_gate.Pow.Verdicts.{Says, verify_solution-Says}
use ngx_http_pow_gate.Pow.Issued.{Collides, verify_solution-binds}

abbrev sign : ℤ → ℕ
sign (pos n) = 0
sign (negsuc n) = 1

abbrev size : ℤ → ℕ
size (pos n) = n
size (negsuc n) = n

abbrev write_bound : Bound → List ℕ
write_bound b =
    length b.salt
    ∷ length b.pk_b64
    ∷ sign b.exp
    ∷ size b.exp
    ∷ b.difficulty
    ∷ (b.salt ++ (b.pk_b64 ++ b.context))

exp-inj : (a b : ℤ) → sign a ≡ sign b → size a ≡ size b → a ≡ b
exp-inj (pos m) (pos n) e f = cc
exp-inj (pos m) (negsuc n) e f = absurd (omega arith)
exp-inj (negsuc m) (pos n) e f = absurd (omega arith)
exp-inj (negsuc m) (negsuc n) e f = cc

heads-inj :
    (a b c d e a' b' c' d' e' : ℕ) (s s' : List ℕ)
    → a ∷ b ∷ c ∷ d ∷ e ∷ s ≡ a' ∷ b' ∷ c' ∷ d' ∷ e' ∷ s'
    → (a ≡ a') × (b ≡ b') × (c ≡ c') × (d ≡ d') × (e ≡ e') × (s ≡ s')
heads-inj a b c d e a' b' c' d' e' s s' h = (cc, cc, cc, cc, cc, cc)

write_bound-injective : (a b : Bound) → write_bound a ≡ write_bound b → a ≡ b
write_bound-injective a b h =
    let (salts, pks, signs, sizes, difficulties, rest) =
      heads-inj (length a.salt) (length a.pk_b64) (sign a.exp) (size a.exp) a.difficulty
        (length b.salt) (length b.pk_b64) (sign b.exp) (size b.exp) b.difficulty _ _ h in
    let (salt, after) =
      append-inj a.salt b.salt (a.pk_b64 ++ a.context) (b.pk_b64 ++ b.context) salts rest in
    let (pk, context) = append-inj a.pk_b64 b.pk_b64 a.context b.context pks after in
    let exp = exp-inj a.exp b.exp signs sizes in build a b salt exp difficulties pk context
  where
    build :
        (a b : Bound)
        → a.salt ≡ b.salt
        → a.exp ≡ b.exp
        → a.difficulty ≡ b.difficulty
        → a.pk_b64 ≡ b.pk_b64
        → a.context ≡ b.context
        → a ≡ b
    build a b s e d p c = cc

abbrev point : List ℕ
point = 4 ∷ []

abbrev place : List ℕ
place = 7 ∷ []

abbrev zeros_hash : List ℕ → List ℕ
zeros_hash m = replicate 32 0

abbrev sixteen : List ℕ
sixteen = replicate 16 5

abbrev sample : Challenge
sample = issue doubled_wire write_bound (1 ∷ []) sixteen point place 1000 (pos 100) (pos 60)

sample-ok :
    verify_solution doubled_wire write_bound zeros_hash (1 ∷ []) sample 3 point place 1000 (pos 150)
    ≡ ok
unfolding verify_solution issue is_bad token_of binding hmac parts joined ct_eq eq_bytes hex add_i64
    ◌+ℤ◌ solution_valid difficulty_to_target long_division hash_below pow_hash
sample-ok = refl

verify_solution-binds_example :
    ((point ≡ point) × (place ≡ place))
    ⊎ Collides doubled_wire write_bound (1 ∷ []) sample point place point place
verify_solution-binds_example =
    verify_solution-binds doubled_wire write_bound doubled_wire-IsWire write_bound-injective
      zeros_hash (1 ∷ []) sample 3 3 point point place place 1000 1000 (pos 150) (pos 150) sample-ok
      sample-ok

verify_solution-Says_example :
    Says doubled_wire write_bound zeros_hash (1 ∷ []) sample 3 point place 1000 (pos 170) (
      verify_solution doubled_wire write_bound zeros_hash
        (1 ∷ [])
        sample
        3
        point
        place
        1000
        (pos 170))
verify_solution-Says_example =
    verify_solution-Says doubled_wire write_bound zeros_hash (1 ∷ []) sample 3 point place 1000
      (pos 170)

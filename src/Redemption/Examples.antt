-- ===== src/Redemption/Examples.antt =====
-- Runs of the ledger on three slots, and the theorems at them. The hash is the identity here.
use ngx_http_pow_gate.Common.{ℕ, ◌≤◌, ◌≡◌, refl, some, List, [], ◌∷◌, replicate}
use ngx_http_pow_gate.Common.Int.{pos}
use ngx_http_pow_gate.Common.Bytes.{be_value, eq_bytes}
use ngx_http_pow_gate.Redemption.Meaning.{Says, consume-Says}
use ngx_http_pow_gate.Redemption.OnceOnly.{Request, grants, grants-le-one}
use ngx_http_pow_gate.Redemption.{
  Entry, consume, accepted, reused, expired, State, redeem, consume_shared, default,
}

program : Unit {0}
unfolding consume redeem consume_shared grants be_value eq_bytes
program = tt

abbrev table : List Entry
table = replicate 3 default

abbrev token : List ℕ
token = 0 ∷ 0 ∷ 0 ∷ 0 ∷ 0 ∷ 0 ∷ 0 ∷ 4 ∷ []

abbrev taken : List Entry
taken = default ∷ record { id = token; expires = pos 10 } ∷ default ∷ []

-- The slot is the value of the first eight bytes, modulo the number of slots.
consume_first : consume table token (pos 10) (pos 5) ≡ (accepted, taken)
unfolding program
consume_first = refl

consume_second : consume taken token (pos 10) (pos 9) ≡ (reused, taken)
unfolding program
consume_second = refl

consume_late : (consume taken token (pos 10) (pos 10)).0 ≡ expired
unfolding program
consume_late = refl

consume-Says_example : Says table token (pos 10) (pos 5) (consume table token (pos 10) (pos 5))
consume-Says_example = consume-Says table token (pos 10) (pos 5)

abbrev fresh : State
fresh = record { last_now = pos 0; entries = table }

abbrev call : List ℕ → ℕ → ℕ → Request
call t expires clock = record { token = t; expires = pos expires; clock = pos clock }

-- The clock is set back after the challenge has lapsed, and it stays spent.
abbrev calls : List Request
calls = call token 10 5 ∷ call (9 ∷ []) 30 20 ∷ call token 10 6 ∷ []

grants-calls : grants (λ t. t) token (some fresh) calls ≡ 1
unfolding program
grants-calls = refl

grants-le-one_example : grants (λ t. t) token (some fresh) calls ≤ 1
grants-le-one_example =
    grants-le-one (λ t. t) token (pos 10) (some fresh) calls
      ((λ e. refl), ((λ e. cc), ((λ e. refl), tt)))

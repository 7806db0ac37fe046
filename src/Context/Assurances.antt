-- ===== src/Context/Assurances.antt =====
-- The order of the assurances.
use ngx_http_pow_gate.Common.{◌≤◌, ◌<◌, ◌≡◌, ◌↔◌, arith, true}
use ngx_http_pow_gate.Common.Int.{pos, ◌≤ℤ◌, ◌<ℤ◌}
use ngx_http_pow_gate.Context.{Assurance, pow, no_js, satisfies}

-- A clearance is of the kind that is required, and at least as strong.
abbrev pub AtLeast : Assurance → Assurance → Type 0
AtLeast (pow got) (pow need) = (0 < need) × (need ≤ got)
AtLeast (no_js got) (no_js need) = (pos 0 <ℤ need) × (need ≤ℤ got)
AtLeast (pow got) (no_js need) = ⊥
AtLeast (no_js got) (pow need) = ⊥

-- `satisfies` holds exactly for the same kind at no less than a positive requirement, so that a
-- wait never stands for work.
pub satisfies_iff : (got need : Assurance) → (satisfies got need ≡ true) ↔ AtLeast got need
unfolding satisfies
satisfies_iff (pow got) (pow need) = ((λ e. ground arith), (λ h. ground arith))
satisfies_iff (no_js got) (no_js need) = ((λ e. ground arith), (λ h. ground arith))
satisfies_iff (pow got) (no_js need) = ((λ e. absurd (cc)), (λ h. absurd h))
satisfies_iff (no_js got) (pow need) = ((λ e. absurd (cc)), (λ h. absurd h))

-- What satisfies a requirement satisfies every weaker one that can be satisfied.
pub satisfies_trans :
    (a b c : Assurance) → satisfies a b ≡ true → satisfies b c ≡ true → satisfies a c ≡ true
unfolding satisfies
satisfies_trans (pow a) (pow b) (pow c) h k = ground arith
satisfies_trans (no_js a) (no_js b) (no_js c) h k = ground arith
satisfies_trans a b c h k = ground arith

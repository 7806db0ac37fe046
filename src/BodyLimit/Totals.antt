-- ===== src/BodyLimit/Totals.antt =====
-- The filter lets through exactly the bodies of at most 8192 bytes.
use ngx_http_pow_gate.Common.{
  ℕ, ◌+◌, ◌-◌, ◌≤◌, ◌<◌, ◌≡◌, ◌↔◌, refl, arith, true, false, ltb, Option, none, some, List, [], ◌∷◌,
  Bool-cases, inl, inr,
}
use ngx_http_pow_gate.BodyLimit.{
  limit, Counter, Buffer, size, enable, Verdict, too_large, next, count_chain, filter, filter_all,
  and_then,
}

-- The bytes of a chain and of a body.
abbrev pub chain_size : List (Option Buffer) → ℕ
chain_size [] = 0
chain_size (none ∷ chain) = chain_size chain
chain_size (some b ∷ chain) = size b + chain_size chain

abbrev pub body_size : List (List (Option Buffer)) → ℕ
body_size [] = 0
body_size (chain ∷ chains) = chain_size chain + body_size chains

abbrev Counts : ℕ → List (Option Buffer) → Verdict × ℕ → Type 0
Counts count chain (too_large, bytes) = limit < count + chain_size chain
Counts count chain (next, bytes) =
    (bytes ≡ count + chain_size chain) × (count + chain_size chain ≤ limit)

count_chain-Counts :
    (count : ℕ) (chain : List (Option Buffer))
    → count ≤ limit
    → Counts count chain (count_chain count chain)
unfolding count_chain
count_chain-Counts count [] h = (omega arith, omega arith)
count_chain-Counts count (none ∷ chain) h = count_chain-Counts count chain h
count_chain-Counts count (some b ∷ chain) h = elim (Bool-cases (ltb (limit - count) (size b))) [
  | inl long ↦ rw long (over (size b) count (chain_size chain) h long)
  | inr fits ↦ rw fits (
      further (count_chain (count + size b) chain)
        (count_chain-Counts (count + size b) chain (room (size b) count h fits)))
]
  where
    over : (n c rest : ℕ) → c ≤ limit → ltb (limit - c) n ≡ true → limit < c + (n + rest)
    over n c rest h long = ground arith

    room : (n c : ℕ) → c ≤ limit → ltb (limit - c) n ≡ false → c + n ≤ limit
    room n c h fits = ground arith

    further : (r : Verdict × ℕ) → Counts (count + size b) chain r → Counts count (some b ∷ chain) r
    further (too_large, bytes) c = omega arith
    further (next, bytes) c = (omega (arith, c.0), omega (arith, c.1))

abbrev counting : ℕ → Counter
counting bytes = record { enabled = true; bytes = bytes }

filter_all-counting_iff :
    (count : ℕ) (chains : List (List (Option Buffer)))
    → count ≤ limit
    → (filter_all (counting count) chains ≡ next) ↔ (count + body_size chains ≤ limit)
unfolding filter_all filter
filter_all-counting_iff count [] h = (λ e. omega arith, λ le. refl)
filter_all-counting_iff count (chain ∷ chains) h =
    counted (count_chain count chain) (count_chain-Counts count chain h)
      (λ bytes le. filter_all-counting_iff bytes chains le)
  where
    counted :
        (r : Verdict × ℕ)
        → Counts count chain r
        → ((bytes : ℕ)
            → bytes ≤ limit
            → (filter_all (counting bytes) chains ≡ next) ↔ (bytes + body_size chains ≤ limit))
        → (and_then r.0 (filter_all (counting r.1) chains) ≡ next)
          ↔ (count + (chain_size chain + body_size chains) ≤ limit)
    counted (too_large, bytes) c ih = (λ e. absurd (cc e), λ le. absurd (omega arith))
    counted (next, bytes) c ih =
        let (to_le, of_le) = ih bytes (omega (arith, c.0, c.1)) in
        (λ e. omega (arith, c.0, to_le e), λ le. of_le (omega (arith, c.0)))

-- A body of the verify endpoint, in whatever chains and buffers it comes, is let through exactly
-- if it has at most 8192 bytes.
pub filter_all-enable_iff :
    (chains : List (List (Option Buffer)))
    → (filter_all enable chains ≡ next) ↔ (body_size chains ≤ limit)
filter_all-enable_iff chains =
    let (to_le, of_le) = filter_all-counting_iff 0 chains (omega arith) in
    (λ e. omega (arith, to_le e), λ le. of_le (omega arith))

-- A request whose filter has not been enabled is never refused.
pub filter_all-disabled :
    (bytes : ℕ) (chains : List (List (Option Buffer)))
    → filter_all (record { enabled = false; bytes = bytes }) chains ≡ next
unfolding filter_all filter
filter_all-disabled bytes [] = refl
filter_all-disabled bytes (chain ∷ chains) = filter_all-disabled bytes chains

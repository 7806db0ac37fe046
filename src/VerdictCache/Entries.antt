-- ===== src/VerdictCache/Entries.antt =====
-- Which entries an operation leaves, and where they come from.
use ngx_http_pow_gate.Common.{
  ℕ, ◌+◌, ◌%◌, ◌^◌, ◌≡◌, ◌⊎◌, sym, ◌∙◌, ap, arith, Bool, true, false, ◌&&◌, leb, ◌==◌, some, length,
  Bool-cases, Option-cases, inl, inr, ==_iff,
}
use ngx_http_pow_gate.Common.Assoc.{
  Key, Map, lookup, remove, IsDistinct, lookup-insert, lookup-remove, lookup-retain-some,
  remove-IsDistinct,
}
use ngx_http_pow_gate.VerdictCache.{
  Entry, VerdictCache, is_fresh, sweep, admit, begin, resolve, cancel,
}

-- A positive verdict that `complete` leaves was there, or is the one that it wrote.
pub resolved :
    (generation : ℕ) (verdict : Bool) (now : ℕ) (old e : Entry)
    → resolve generation verdict now old ≡ e
    → e.verdict ≡ true
    → (old ≡ e) ⊎ ((e.generation ≡ generation) × (verdict ≡ true) × (e.at ≡ now))
unfolding resolve
resolved generation verdict now old e h said = elim (Bool-cases (old.generation == generation)) [
  | inl same ↦ inr (written (rw same at h) ((==_iff old.generation generation).0 same))
  | inr other ↦ inl (rw other at h)
]
  where
    written :
        record old { verdict = verdict; at = now } ≡ e
        → old.generation ≡ generation
        → (e.generation ≡ generation) × (verdict ≡ true) × (e.at ≡ now)
    written w same = (
      ap (λ (x : Entry). x.generation) (sym w) ∙ same,
      ap (λ (x : Entry). x.verdict) w ∙ said,
      ap (λ (x : Entry). x.at) (sym w),
    )

module _ {K : Type 0} ⦃key : Key K⦄ where
  sweep-lookup :
      (now : ℕ) (c : VerdictCache K) (j : K) (e : Entry)
      → IsDistinct c.entries
      → lookup j (sweep now c).entries ≡ some e
      → lookup j c.entries ≡ some e
  unfolding sweep
  sweep-lookup now c j e d h =
      elim (Bool-cases (leb c.capacity (length c.entries) && leb c.next_sweep now)) [
        | inl due ↦ (lookup-retain-some (is_fresh c.ttl now) j c.entries d (rw due at h)).0
        | inr not_due ↦ rw not_due at h
      ]

  admit-lookup :
      (k : K) (now : ℕ) (c : VerdictCache K) (j : K) (e : Entry)
      → lookup j (admit k now c).1.entries ≡ some e
      → e.verdict ≡ true
      → lookup j c.entries ≡ some e
  unfolding admit
  admit-lookup k now c j e h yes_said = ground (
    arith,
    lookup-insert k j
        (record { verdict = false; at = now; generation = (c.generation + 1) % 2 ^ 64 }) c.entries,
  )

  remove-lookup :
      (k j : K) (m : Map K Entry) (e : Entry) → lookup j (remove k m) ≡ some e → lookup j m ≡ some e
  remove-lookup k j m e h = ground (arith, lookup-remove k j m)

  -- `begin` adds no positive verdict.
  pub begin-lookup :
      (k : K) (now : ℕ) (c : VerdictCache K) (j : K) (e : Entry)
      → IsDistinct c.entries
      → lookup j (begin k now c).1.entries ≡ some e
      → e.verdict ≡ true
      → lookup j c.entries ≡ some e
  unfolding begin
  begin-lookup k now c j e d h said = elim (Option-cases (lookup k c.entries)) [
    | inl miss ↦
        sweep-lookup now c j e d (admit-lookup k now (sweep now c) j e (rw (begin, miss) at h) said)
    | inr (old, found) ↦ elim (Bool-cases (is_fresh c.ttl now old)) [
      | inl live ↦ rw (begin, found, live) at h
      | inr stale ↦
          let left = record c { entries = remove k c.entries } in
          remove-lookup k j c.entries e (
            sweep-lookup now left j e (remove-IsDistinct k c.entries d)
              (admit-lookup k now (sweep now left) j e (rw (begin, found, stale) at h) said))
    ]
  ]

  pub cancel-lookup :
      (k : K) (generation : ℕ) (c : VerdictCache K) (j : K) (e : Entry)
      → lookup j (cancel k generation c).entries ≡ some e
      → lookup j c.entries ≡ some e
  unfolding cancel
  cancel-lookup k generation c j e h = elim (Option-cases (lookup k c.entries)) [
    | inl miss ↦ rw (cancel, miss) at h
    | inr (old, found) ↦ elim (Bool-cases (old.generation == generation)) [
      | inl same ↦ remove-lookup k j c.entries e (rw (cancel, found, same) at h)
      | inr other ↦ rw (cancel, found, other) at h
    ]
  ]

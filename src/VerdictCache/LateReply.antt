-- ===== src/VerdictCache/LateReply.antt =====
-- A reply that comes after a later query for its key.
use ngx_http_pow_gate.Common.{
  ℕ, ◌+◌, ◌%◌, ◌^◌, ◌≤◌, ◌<◌, ◌≡◌, ◌≢◌, sym, ◌∙◌, ap, arith, Bool, false, leb, ◌==◌, length,
  Bool-cases, Option-cases, inl, inr,
}
use ngx_http_pow_gate.Common.Assoc.{
  Key, Map, lookup, remove, insert, update, update-remove, equal_refl,
}
use ngx_http_pow_gate.VerdictCache.{
  Entry, start, VerdictCache, is_fresh, sweep, admit, begin, resolve, complete,
}

test_ne : (a b : ℕ) → a ≢ b → (a == b) ≡ false
test_ne a b n = ground arith

module _ {K : Type 0} ⦃key : Key K⦄ where
  -- What a query that was started has inserted.
  abbrev IsPending : K → ℕ → ℕ → Map K Entry → Type 0
  IsPending k now later entries =
      (m : Map K Entry) × (entries
        ≡ insert k (record { verdict = false; at = now; generation = later }) m)

  admit-start :
      (k : K) (now later : ℕ) (c : VerdictCache K)
      → (admit k now c).0 ≡ start later
      → IsPending k now later (admit k now c).1.entries × (later ≡ (c.generation + 1) % 2 ^ 64)
  unfolding admit
  admit-start k now later c h = elim (Bool-cases (leb c.capacity (length c.entries))) [
    | inl crowded ↦ absurd (cc (rw crowded at h))
    | inr room ↦
        let same : (c.generation + 1) % 2 ^ 64 ≡ later = cc (rw room at h) in
        rw room ((c.entries, rw same), sym same)
  ]

  sweep-generation : (now : ℕ) (c : VerdictCache K) → (sweep now c).generation ≡ c.generation
  unfolding sweep
  sweep-generation now c = ground arith

  begin-start :
      (k : K) (now later : ℕ) (c : VerdictCache K)
      → (begin k now c).0 ≡ start later
      → IsPending k now later (begin k now c).1.entries × (later ≡ (c.generation + 1) % 2 ^ 64)
  unfolding begin
  begin-start k now later c h = elim (Option-cases (lookup k c.entries)) [
    | inl miss ↦
        let (pending, issued) = admit-start k now later (sweep now c) (rw (begin, miss) at h) in
        rw (begin, miss) (pending, issued ∙ ap (λ n. (n + 1) % 2 ^ 64) (sweep-generation now c))
    | inr (e, found) ↦ elim (Bool-cases (is_fresh c.ttl now e)) [
      | inl live ↦ absurd (cc (rw (begin, found, live) at h))
      | inr stale ↦
          let left = record c { entries = remove k c.entries } in
          let (pending, issued) =
            admit-start k now later (sweep now left) (rw (begin, found, stale) at h) in
          rw (begin, found, stale)
            (pending, issued ∙ ap (λ n. (n + 1) % 2 ^ 64) (sweep-generation now left))
    ]
  ]

  update-pending :
      (k : K) (generation now later at : ℕ) (verdict : Bool) (m : Map K Entry)
      → generation ≢ later
      → let e : Entry = record { verdict = false; at = now; generation = later } in
        update k (resolve generation verdict at) (insert k e m) ≡ insert k e m
  unfolding update insert resolve
  update-pending k generation now later at verdict m other = rw (
    equal_refl k,
    update-remove k (resolve generation verdict at) m,
    test_ne later generation (λ e. other (sym e)),
  )

  -- A reply to an earlier query for the key changes nothing once a later one is pending, while
  -- the generations have not wrapped.
  pub late_reply :
      (k : K) (now at generation later : ℕ) (verdict : Bool) (c : VerdictCache K)
      → generation ≤ c.generation
      → c.generation + 1 < 2 ^ 64
      → (begin k now c).0 ≡ start later
      → complete k generation verdict at (begin k now c).1 ≡ (begin k now c).1
  unfolding complete
  late_reply k now at generation later verdict c old room h =
      let c' = (begin k now c).1 in
      let ((m, pending), issued) = begin-start k now later c h in
      let same = update-pending k generation now later at verdict m (omega arith) in
      ap (λ es. record c' { entries = es }) (rw pending same)

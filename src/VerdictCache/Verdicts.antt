-- ===== src/VerdictCache/Verdicts.antt =====
-- Where a positive verdict comes from.
use ngx_http_pow_gate.Common.{
  ℕ, ◌-◌, ◌<◌, ◌≡◌, ◌≢◌, ◌⊎◌, refl, ◌∙◌, ap, subst, arith, Bool, true, some, List, [], ◌∷◌,
  Bool-cases, Option-cases, inl, inr,
}
use ngx_http_pow_gate.Common.Assoc.{Key, lookup, lookup-update}
use ngx_http_pow_gate.VerdictCache.{
  Entry, cached, VerdictCache, is_fresh, new, sweep, admit, begin, resolve, complete, cancel,
}
use ngx_http_pow_gate.VerdictCache.Bounded.{
  IsValid, new-IsValid, begin-IsValid, complete-IsValid, cancel-IsValid,
}
use ngx_http_pow_gate.VerdictCache.Entries.{begin-lookup, cancel-lookup, resolved}

-- A call on the cache, with the instant that the caller read.
pub data Call (K : Type 0) : Type 0 where
  begins : K → ℕ → Call K
  completes : K → ℕ → Bool → ℕ → Call K
  cancels : K → ℕ → Call K

is_fresh-lt : (ttl now : ℕ) (e : Entry) → is_fresh ttl now e ≡ true → now - e.at < ttl
unfolding is_fresh
is_fresh-lt ttl now e h = ground arith

module _ {K : Type 0} ⦃key : Key K⦄ where
  unfoldable pub step : Call K → VerdictCache K → VerdictCache K
  step (begins k now) c = (begin k now c).1
  step (completes k generation verdict now) c = complete k generation verdict now c
  step (cancels k generation) c = cancel k generation c

  -- The cache after the calls of a list, the latest first.
  unfoldable pub after : VerdictCache K → List (Call K) → VerdictCache K
  after c [] = c
  after c (call ∷ earlier) = step call (after c earlier)

  -- A resolver has said yes for the key, with this generation and at this instant.
  abbrev pub Confirmed : K → ℕ → ℕ → List (Call K) → Type 0
  Confirmed k generation at [] = ⊥
  Confirmed k generation at (call ∷ earlier) =
      (call ≡ completes k generation true at) ⊎ Confirmed k generation at earlier

  -- Every positive verdict in the cache has been confirmed.
  abbrev IsJustified : List (Call K) → VerdictCache K → Type 0
  IsJustified calls c =
      (k : K) (e : Entry)
      → lookup k c.entries ≡ some e
      → e.verdict ≡ true
      → Confirmed k e.generation e.at calls

  complete-lookup :
      (k : K) (generation : ℕ) (verdict : Bool) (now : ℕ) (c : VerdictCache K) (j : K) (e : Entry)
      → lookup j (complete k generation verdict now c).entries ≡ some e
      → e.verdict ≡ true
      → (lookup j c.entries ≡ some e)
        ⊎ (completes k generation verdict now ≡ completes j e.generation true e.at)
  unfolding complete
  complete-lookup k generation verdict now c j e h said =
      let f = resolve generation verdict now in
      elim (Bool-cases (key.equal k j)) [
        | inr other ↦ inl (rw (lookup-update k j f c.entries, other) at h)
        | inl same ↦ elim (Option-cases (lookup j c.entries)) [
          | inl miss ↦ absurd (cc (rw (lookup-update k j f c.entries, same, miss) at h))
          | inr (old, found) ↦
              elim (resolved generation verdict now old e
                (cc (rw (lookup-update k j f c.entries, same, found) at h)) said) [
                  | inl kept ↦ inl (found ∙ ap some kept)
                  | inr (g, v, t) ↦
                      let at_key = (key.equal_iff k j).0 same in inr (rw (at_key, g, v, t))
                ]
        ]
      ]

  step-IsJustified :
      (call : Call K) (calls : List (Call K)) (c : VerdictCache K)
      → IsValid c
      → IsJustified calls c
      → IsJustified (call ∷ calls) (step call c)
  unfolding step
  step-IsJustified (begins k now) calls c v ok j e h said =
      inr (ok j e (begin-lookup k now c j e v.distinct h said) said)
  step-IsJustified (cancels k generation) calls c v ok j e h said =
      inr (ok j e (cancel-lookup k generation c j e h) said)
  step-IsJustified (completes k generation verdict now) calls c v ok j e h said =
      elim (complete-lookup k generation verdict now c j e h said) [
        | inl old ↦ inr (ok j e old said)
        | inr written ↦ inl written
      ]

  step-IsValid : (call : Call K) (c : VerdictCache K) → IsValid c → IsValid (step call c)
  unfolding step
  step-IsValid (begins k now) c v = begin-IsValid k now c v
  step-IsValid (completes k generation verdict now) c v =
      complete-IsValid k generation verdict now c v
  step-IsValid (cancels k generation) c v = cancel-IsValid k generation c v

  -- After any calls on a new cache it holds at most as many entries as its capacity, one for
  -- each key.
  pub after-IsValid :
      (capacity ttl now : ℕ) (calls : List (Call K)) → IsValid (after (new capacity ttl now) calls)
  unfolding after
  after-IsValid capacity ttl now [] = new-IsValid capacity ttl now
  after-IsValid capacity ttl now (call ∷ earlier) =
      step-IsValid call (after (new capacity ttl now) earlier)
        (after-IsValid capacity ttl now earlier)

  after-IsJustified :
      (capacity ttl now : ℕ) (calls : List (Call K))
      → IsJustified calls (after (new capacity ttl now) calls)
  unfolding after new
  after-IsJustified capacity ttl now [] = λ k e h said. unfold lookup in cc
  after-IsJustified capacity ttl now (call ∷ earlier) =
      step-IsJustified call earlier (after (new capacity ttl now) earlier)
        (after-IsValid capacity ttl now earlier) (after-IsJustified capacity ttl now earlier)

  admit-ne-cached :
      (k : K) (now : ℕ) (c : VerdictCache K) (verdict : Bool) → (admit k now c).0 ≢ cached verdict
  unfolding admit
  admit-ne-cached k now c verdict e = ground arith

  begin-eq_cached :
      (k : K) (now : ℕ) (c : VerdictCache K) (verdict : Bool)
      → (begin k now c).0 ≡ cached verdict
      → (e : Entry) × (lookup k c.entries ≡ some e)
        × (is_fresh c.ttl now e ≡ true)
        × (e.verdict ≡ verdict)
  unfolding begin
  begin-eq_cached k now c verdict h = elim (Option-cases (lookup k c.entries)) [
    | inl miss ↦ absurd (admit-ne-cached k now (sweep now c) verdict (rw (begin, miss) at h))
    | inr (e, found) ↦ elim (Bool-cases (is_fresh c.ttl now e)) [
      | inl live ↦ (e, found, live, cc (rw (begin, found, live) at h))
      | inr stale ↦ absurd (admit-ne-cached k now _ verdict (rw (begin, found, stale) at h))
    ]
  ]

  step-ttl : (call : Call K) (c : VerdictCache K) → (step call c).ttl ≡ c.ttl
  unfolding step begin complete cancel admit sweep
  step-ttl (begins k now) c = ground arith
  step-ttl (completes k generation verdict now) c = refl
  step-ttl (cancels k generation) c = ground arith

  after-ttl :
      (capacity ttl made : ℕ) (calls : List (Call K))
      → (after (new {K = K} capacity ttl made) calls).ttl ≡ ttl
  unfolding after new
  after-ttl capacity ttl made [] = refl
  after-ttl capacity ttl made (call ∷ earlier) =
      step-ttl call (after (new capacity ttl made) earlier) ∙ after-ttl capacity ttl made earlier

  -- A positive verdict is served only for a key that a resolver has confirmed, less than the
  -- time to live before: whatever calls came since the cache was made, in whatever order.
  pub begin-Confirmed :
      (capacity ttl made : ℕ) (calls : List (Call K)) (k : K) (now : ℕ)
      → (begin k now (after (new capacity ttl made) calls)).0 ≡ cached true
      → (generation at : ℕ) × Confirmed k generation at calls × (now - at < ttl)
  begin-Confirmed capacity ttl made calls k now h =
      let c = after (new capacity ttl made) calls in
      let (e, found, live, said) = begin-eq_cached k now c true h in
      (
        e.generation,
        e.at,
        after-IsJustified capacity ttl made calls k e found said,
        is_fresh-lt ttl now e
            (subst (λ t. is_fresh t now e ≡ true) (after-ttl capacity ttl made calls) live),
      )

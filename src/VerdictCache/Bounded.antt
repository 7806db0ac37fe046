-- ===== src/VerdictCache/Bounded.antt =====
-- The cache never outgrows its capacity, and never drops a verdict that is fresh.
use ngx_http_pow_gate.Common.{
  ℕ, ◌≤◌, ◌≡◌, arith, Bool, true, false, ◌&&◌, leb, ◌==◌, some, length, Bool-cases, Option-cases,
  inl, inr,
}
use ngx_http_pow_gate.Common.Assoc.{
  Key, lookup, remove, insert, IsDistinct, length-remove-le, length-update, length-retain-le,
  remove-IsDistinct, insert-IsDistinct, update-IsDistinct, retain-IsDistinct, lookup-insert,
  lookup-remove, lookup-retain_keep,
}
use ngx_http_pow_gate.VerdictCache.{
  Entry, VerdictCache, is_fresh, new, sweep, admit, begin, resolve, complete, cancel,
}

pub record IsValid {K : Type 0} ⦃key : Key K⦄ (c : VerdictCache K) : Type 0 where
  pub bounded : length c.entries ≤ c.capacity
  pub distinct : IsDistinct c.entries

pub new-IsValid :
    {K : Type 0} ⦃key : Key K⦄ (capacity ttl now : ℕ) → IsValid {K = K} (new capacity ttl now)
unfolding new
new-IsValid capacity ttl now = record { bounded = omega arith; distinct = tt }

module _ {K : Type 0} ⦃key : Key K⦄ where
  sweep-IsValid : (now : ℕ) (c : VerdictCache K) → IsValid c → IsValid (sweep now c)
  unfolding sweep
  sweep-IsValid now c v =
      elim (Bool-cases (leb c.capacity (length c.entries) && leb c.next_sweep now)) [
        | inl due ↦ rw due (record {
          bounded = omega (arith, v.bounded, length-retain-le (is_fresh c.ttl now) c.entries);
          distinct = retain-IsDistinct (is_fresh c.ttl now) c.entries v.distinct;
        })
        | inr not_due ↦ rw not_due v
      ]

  admit-IsValid : (k : K) (now : ℕ) (c : VerdictCache K) → IsValid c → IsValid (admit k now c).1
  unfolding admit
  admit-IsValid k now c v = elim (Bool-cases (leb c.capacity (length c.entries))) [
    | inl crowded ↦ rw crowded v
    | inr room ↦ rw room (record {
      bounded = unfold insert in ground (arith, length-remove-le k c.entries);
      distinct = insert-IsDistinct k _ c.entries v.distinct;
    })
  ]

  dropped-IsValid :
      (k : K) (c : VerdictCache K) → IsValid c → IsValid (record c { entries = remove k c.entries })
  dropped-IsValid k c v = record {
    bounded = omega (arith, v.bounded, length-remove-le k c.entries);
    distinct = remove-IsDistinct k c.entries v.distinct;
  }

  -- `begin` keeps the number of entries within the capacity and one entry for each key.
  pub begin-IsValid : (k : K) (now : ℕ) (c : VerdictCache K) → IsValid c → IsValid (begin k now c).1
  unfolding begin
  begin-IsValid k now c v = elim (Option-cases (lookup k c.entries)) [
    | inl miss ↦ rw (begin, miss) (admit-IsValid k now (sweep now c) (sweep-IsValid now c v))
    | inr (e, hit) ↦ elim (Bool-cases (is_fresh c.ttl now e)) [
      | inl ready ↦ rw (begin, hit, ready) v
      | inr stale ↦
          rw (begin, hit, stale)
            (admit-IsValid k now _ (sweep-IsValid now _ (dropped-IsValid k c v)))
    ]
  ]

  -- `complete` keeps both.
  pub complete-IsValid :
      (k : K) (generation : ℕ) (verdict : Bool) (now : ℕ) (c : VerdictCache K)
      → IsValid c
      → IsValid (complete k generation verdict now c)
  unfolding complete
  complete-IsValid k generation verdict now c v =
      let f = resolve generation verdict now in
      record {
        bounded = omega (arith, v.bounded, length-update k f c.entries);
        distinct = update-IsDistinct k f c.entries v.distinct;
      }

  -- `cancel` keeps both.
  pub cancel-IsValid :
      (k : K) (generation : ℕ) (c : VerdictCache K) → IsValid c → IsValid (cancel k generation c)
  unfolding cancel
  cancel-IsValid k generation c v = elim (Option-cases (lookup k c.entries)) [
    | inl miss ↦ rw (cancel, miss) v
    | inr (e, hit) ↦ elim (Bool-cases (e.generation == generation)) [
      | inl same ↦ rw (cancel, hit, same) (dropped-IsValid k c v)
      | inr other ↦ rw (cancel, hit, other) v
    ]
  ]

  sweep-keeps :
      (now : ℕ) (c : VerdictCache K) (j : K) {e : Entry}
      → lookup j c.entries ≡ some e
      → is_fresh c.ttl now e ≡ true
      → lookup j (sweep now c).entries ≡ some e
  unfolding sweep
  sweep-keeps now c j hit ready =
      elim (Bool-cases (leb c.capacity (length c.entries) && leb c.next_sweep now)) [
        | inl due ↦ rw due (lookup-retain_keep (is_fresh c.ttl now) j c.entries hit ready)
        | inr not_due ↦ rw not_due hit
      ]

  admit-keeps :
      (k : K) (now : ℕ) (c : VerdictCache K) (j : K) {e : Entry}
      → key.equal k j ≡ false
      → lookup j c.entries ≡ some e
      → lookup j (admit k now c).1.entries ≡ some e
  unfolding admit
  admit-keeps k now c j other hit = elim (Bool-cases (leb c.capacity (length c.entries))) [
    | inl crowded ↦ rw crowded hit
    | inr room ↦ rw room (rw (lookup-insert k j _ c.entries, other) hit)
  ]

  sweep-ttl : (now : ℕ) (c : VerdictCache K) → (sweep now c).ttl ≡ c.ttl
  unfolding sweep
  sweep-ttl now c = ground arith

  -- No live verdict is evicted: an entry that is fresh is there, unchanged, after a `begin` for
  -- whichever key.
  pub begin-keeps :
      (k : K) (now : ℕ) (c : VerdictCache K) (j : K) (e : Entry)
      → lookup j c.entries ≡ some e
      → is_fresh c.ttl now e ≡ true
      → lookup j (begin k now c).1.entries ≡ some e
  unfolding begin
  begin-keeps k now c j e hit ready = elim (Bool-cases (key.equal k j)) [
    | inl same ↦
        let here : lookup k c.entries ≡ some e = rw ((key.equal_iff k j).0 same) hit in
        rw (begin, here, ready) hit
    | inr other ↦ elim (Option-cases (lookup k c.entries)) [
      | inl miss ↦
          rw (begin, miss) (admit-keeps k now (sweep now c) j other (sweep-keeps now c j hit ready))
      | inr (old, found) ↦ elim (Bool-cases (is_fresh c.ttl now old)) [
        | inl live ↦ rw (begin, found, live) hit
        | inr stale ↦
            rw (begin, found, stale)
              (admit-keeps k now _ j other (
                sweep-keeps now (record c { entries = remove k c.entries }) j
                  (rw (lookup-remove k j c.entries, other) hit) ready))
      ]
    ]
  ]

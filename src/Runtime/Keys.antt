-- ===== src/Runtime/Keys.antt =====
-- The keys that a worker caches: `load_key` of src/ngx-http-pow-gate/src/runtime.rs.
use ngx_http_pow_gate.Common.{
  ℕ, ◌≤◌, ◌≡◌, refl, arith, leb, Option, none, some, List, [], length, Bool-cases, Option-cases,
  inl, inr, ◌⊎◌, leb→le,
}
use ngx_http_pow_gate.Common.Assoc.{Map, Key, lookup, insert, lookup-insert, equal_refl}
use ngx_http_pow_gate.Runtime.{load_key, min_hmac_key_len, usable}

-- No key, or one that is long enough.
abbrev pub IsSafe : List ℕ → Type 0
IsSafe key = (key ≡ []) ⊎ (min_hmac_key_len ≤ length key)

module _ (read_file : List ℕ → Option (List ℕ)) ⦃paths : Key (List ℕ)⦄ where
  usable-IsSafe : (read : Option (List ℕ)) → IsSafe (usable read)
  usable-IsSafe none = inl refl
  usable-IsSafe (some bytes) = elim (Bool-cases (leb min_hmac_key_len (length bytes))) [
    | inl long ↦ rw long (inr (leb→le _ _ long))
    | inr short ↦ rw short (inl refl)
  ]

  abbrev pub Cached : Map (List ℕ) (List ℕ) → Type 0
  Cached cache = (path key : List ℕ) → lookup path cache ≡ some key → IsSafe key

  -- A worker only ever has no key for a path, which is not usable, or one of at least 16 bytes,
  -- whatever the file holds and whenever it changes; and a key that has been loaded stays the same.
  pub load_key-Cached :
      (path : List ℕ) (cache : Map (List ℕ) (List ℕ))
      → Cached cache
      → IsSafe (load_key read_file path cache).0
        × Cached (load_key read_file path cache).1
        × (lookup path (load_key read_file path cache).1 ≡ some (load_key read_file path cache).0)
        × ((other key : List ℕ)
            → lookup other cache ≡ some key
            → lookup other (load_key read_file path cache).1 ≡ some key)
  unfolding load_key
  load_key-Cached path cache safe = elim (Option-cases (lookup path cache)) [
    | inr (key, found) ↦ rw found (safe path key found, safe, found, λ other k h. h)
    | inl nothing ↦ rw nothing (
      usable-IsSafe (read_file path),
      inserted,
      rw (lookup-insert path path (usable (read_file path)) cache, equal_refl path),
      kept nothing,
    )
  ]
    where
      new_key : List ℕ
      new_key = usable (read_file path)

      inserted : Cached (insert path new_key cache)
      inserted other key h = elim (Bool-cases (paths.equal path other)) [
        | inl same ↦
            let e : new_key ≡ key = cc (rw (lookup-insert path other new_key cache, same) at h) in
            rw (← e) (usable-IsSafe (read_file path))
        | inr differ ↦ safe other key (rw (lookup-insert path other new_key cache, differ) at h)
      ]

      kept :
          lookup path cache ≡ none
          → (other key : List ℕ) → lookup other cache ≡ some key
          → lookup other (insert path new_key cache) ≡ some key
      kept nothing other key h =
          rw (lookup-insert path other new_key cache) (ground (arith, paths.equal_iff path other))

-- ===== src/Common/Assoc.antt =====
-- A hash map as a list of its pairs, in no order that the code may see: at most one for each key.
use mathlib.Core.Option
use ngx_http_pow_gate.Common.{
  ◌≤◌, ◌≡◌, ◌↔◌, refl, Bool, true, arith, if◌then◌else◌, Option, none, some, List, [], ◌∷◌, length,
  Bool-cases, inl, inr,
}

-- `Eq` of the keys.
pub record Key {ℓ} (K : Type ℓ) : Type ℓ where
  pub equal : K → K → Bool
  pub equal_iff : (a b : K) → (equal a b ≡ true) ↔ (a ≡ b)

abbrev pub Map {ℓ} : Type ℓ → Type ℓ → Type ℓ
Map K V = List (K × V)

pub equal_refl {ℓ} : {K : Type ℓ} ⦃key : Key K⦄ (k : K) → key.equal k k ≡ true
equal_refl ⦃key⦄ k = (key.equal_iff k k).1 refl

module _ {ℓ} {K V : Type ℓ} ⦃key : Key K⦄ where
  -- `get`
  unfoldable pub lookup : K → Map K V → Option V
  lookup k [] = none
  lookup k (e ∷ m) = if key.equal e.0 k then some e.1 else lookup k m

  -- `remove`
  unfoldable pub remove : K → Map K V → Map K V
  remove k [] = []
  remove k (e ∷ m) = if key.equal e.0 k then remove k m else e ∷ remove k m

  -- `insert`
  unfoldable pub insert : K → V → Map K V → Map K V
  insert k v m = (k, v) ∷ remove k m

  -- A write through `get_mut`.
  unfoldable pub update : K → (V → V) → Map K V → Map K V
  update k f [] = []
  update k f (e ∷ m) = if key.equal e.0 k then (e.0, f e.1) ∷ update k f m else e ∷ update k f m

  -- No key stands twice.
  abbrev pub IsDistinct : Map K V → Type ℓ
  IsDistinct [] = Unit
  IsDistinct (e ∷ m) = (lookup e.0 m ≡ none) × IsDistinct m

  pub lookup-remove :
      (k j : K) (m : Map K V) → lookup j (remove k m) ≡ (if key.equal k j then none else lookup j m)
  unfolding lookup remove
  lookup-remove k j [] = ground arith
  lookup-remove k j (e ∷ m) =
      ground
        (arith, lookup-remove k j m, key.equal_iff k j, key.equal_iff e.0 k, key.equal_iff e.0 j)

  pub lookup-insert :
      (k j : K) (v : V) (m : Map K V)
      → lookup j (insert k v m) ≡ (if key.equal k j then some v else lookup j m)
  unfolding lookup insert
  lookup-insert k j v m = rw (lookup-remove k j m) (ground arith)

  pub lookup-update :
      (k j : K) (f : V → V) (m : Map K V)
      → lookup j (update k f m) ≡ (if key.equal k j then Option.map f (lookup j m) else lookup j m)
  unfolding lookup update
  lookup-update k j f [] = ground arith
  lookup-update k j f (e ∷ m) =
      ground
        (arith, lookup-update k j f m, key.equal_iff k j, key.equal_iff e.0 k, key.equal_iff e.0 j)

  pub length-remove-le : (k : K) (m : Map K V) → length (remove k m) ≤ length m
  unfolding remove
  length-remove-le k [] = omega arith
  length-remove-le k (e ∷ m) = ground (arith, length-remove-le k m)

  pub length-update : (k : K) (f : V → V) (m : Map K V) → length (update k f m) ≡ length m
  unfolding update
  length-update k f [] = refl
  length-update k f (e ∷ m) = ground (arith, length-update k f m)

  pub remove-IsDistinct : (k : K) (m : Map K V) → IsDistinct m → IsDistinct (remove k m)
  unfolding remove
  remove-IsDistinct k [] d = tt
  remove-IsDistinct k (e ∷ m) d = elim (Bool-cases (key.equal e.0 k)) [
    | inl same ↦ rw same (remove-IsDistinct k m d.1)
    | inr other ↦
        rw other (rw (lookup-remove k e.0 m) (ground (arith, d.0)), remove-IsDistinct k m d.1)
  ]

  pub insert-IsDistinct : (k : K) (v : V) (m : Map K V) → IsDistinct m → IsDistinct (insert k v m)
  unfolding insert
  insert-IsDistinct k v m d = (rw (lookup-remove k k m, equal_refl k), remove-IsDistinct k m d)

  pub update-IsDistinct :
      (k : K) (f : V → V) (m : Map K V) → IsDistinct m → IsDistinct (update k f m)
  unfolding update
  update-IsDistinct k f [] d = tt
  update-IsDistinct k f (e ∷ m) d = elim (Bool-cases (key.equal e.0 k)) [
    | inl same ↦
        rw same (rw (lookup-update k e.0 f m, d.0) (ground arith), update-IsDistinct k f m d.1)
    | inr other ↦
        rw other (rw (lookup-update k e.0 f m, d.0) (ground arith), update-IsDistinct k f m d.1)
  ]

  -- A write at a key that is not there changes nothing.
  pub update-remove : (k : K) (f : V → V) (m : Map K V) → update k f (remove k m) ≡ remove k m
  unfolding update remove
  update-remove k f [] = refl
  update-remove k f (e ∷ m) = ground (arith, update-remove k f m)

module _ {ℓ} {K V : Type ℓ} ⦃key : Key K⦄ where
  -- `retain`, by the value.
  unfoldable pub retain : (V → Bool) → Map K V → Map K V
  retain p [] = []
  retain p (e ∷ m) = if p e.1 then e ∷ retain p m else retain p m

  pub lookup-retain-none :
      (p : V → Bool) (k : K) (m : Map K V) → lookup k m ≡ none → lookup k (retain p m) ≡ none
  unfolding lookup retain
  lookup-retain-none p k [] h = refl
  lookup-retain-none p k (e ∷ m) h = ground (arith, lookup-retain-none p k m)

  -- What is kept was there, and passes the test.
  pub lookup-retain-some :
      (p : V → Bool) (k : K) (m : Map K V) {v : V}
      → IsDistinct m
      → lookup k (retain p m) ≡ some v
      → (lookup k m ≡ some v) × (p v ≡ true)
  unfolding lookup retain
  lookup-retain-some p k [] d h = cc
  lookup-retain-some p k (e ∷ m) {v} d h =
      ground (arith, lookup-retain-some p k m {v = v}, key.equal_iff e.0 k)

  pub length-retain-le : (p : V → Bool) (m : Map K V) → length (retain p m) ≤ length m
  unfolding retain
  length-retain-le p [] = omega arith
  length-retain-le p (e ∷ m) = ground (arith, length-retain-le p m)

  pub retain-IsDistinct : (p : V → Bool) (m : Map K V) → IsDistinct m → IsDistinct (retain p m)
  unfolding retain
  retain-IsDistinct p [] d = tt
  retain-IsDistinct p (e ∷ m) d = elim (Bool-cases (p e.1)) [
    | inl keep ↦ rw keep (lookup-retain-none p e.0 m d.0, retain-IsDistinct p m d.1)
    | inr drop ↦ rw drop (retain-IsDistinct p m d.1)
  ]

  pub lookup-retain_keep :
      (p : V → Bool) (k : K) (m : Map K V) {v : V}
      → lookup k m ≡ some v
      → p v ≡ true
      → lookup k (retain p m) ≡ some v
  unfolding lookup retain
  lookup-retain_keep p k [] h keep = cc
  lookup-retain_keep p k (e ∷ m) {v} h keep = ground (arith, lookup-retain_keep p k m {v = v})

-- ===== src/Redemption/Consume.antt =====
-- What `consume` decides and what it changes.
use ngx_http_pow_gate.Common.{
  ℕ, ◌+◌, ◌%◌, ◌<◌, ◌≡◌, refl, inl, inr, true, false, arith, Bool-cases, none, some, List, [], ◌∷◌,
  length, ◌∙◌, set, length-set, get_or-set_self, get_or-set_ne, ap,
}
use ngx_http_pow_gate.Common.Int.{ℤ, leb_ℤ→≤ℤ, leb_ℤ-false, leb_ℤ, ◌≤ℤ◌, ◌<ℤ◌}
use ngx_http_pow_gate.Common.Bytes.{eq_bytes_refl}
use ngx_http_pow_gate.Redemption.Probe.{
  probed, LapsedAt, scan_loop-found, scan_loop-holds, scan_loop-free, scan_loop-full,
}
use ngx_http_pow_gate.Redemption.{
  Entry, slot, Scan, found, ended, holds, lapsed, scan_loop, start_slot, rounds_of, settle, consume,
  Outcome, accepted, reused, full, expired, default,
}

-- A live slot of the id stands where `consume` looks.
abbrev pub Spent : List Entry → List ℕ → ℤ → Type 0
Spent entries id now =
    (k : ℕ) × (k < rounds_of entries)
    × (holds id now (probed entries id now (start_slot entries id) k) ≡ true)

-- Every slot where `consume` looks is live.
abbrev pub Crowded : List Entry → List ℕ → ℤ → Type 0
Crowded entries id now =
    (k : ℕ)
    → k < rounds_of entries
    → lapsed now (probed entries id now (start_slot entries id) k) ≡ false

-- What each outcome says of the call and of the slots afterwards.
abbrev pub Explains : List Entry → List ℕ → ℤ → ℤ → Outcome × List Entry → Type 0
Explains entries id expires now (expired, after) = (expires ≤ℤ now) × (after ≡ entries)
Explains entries id expires now (reused, after) =
    (now <ℤ expires) × Spent entries id now × (after ≡ entries)
Explains entries id expires now (full, after) =
    (now <ℤ expires) × (¬ Spent entries id now) × Crowded entries id now × (after ≡ entries)
Explains entries id expires now (accepted, after) =
    (now <ℤ expires)
    × (¬ Spent entries id now)
    × ((index : ℕ) × LapsedAt entries id now (start_slot entries id) 0 (rounds_of entries) index
        × (after ≡ set entries index (record { id = id; expires = expires })))

module _ (entries : List Entry) (id : List ℕ) (expires now : ℤ) where
  scan : Scan
  scan = scan_loop entries id now (start_slot entries id) (rounds_of entries) 0 none

  Spent-found : Spent entries id now → scan ≡ found
  unfolding scan
  Spent-found (k, lt, h) =
      scan_loop-found entries id now (start_slot entries id) (rounds_of entries) 0 k none
        (omega arith) (omega arith) h

  settle-Explains :
      now <ℤ expires
      → (r : Scan) → scan ≡ r
      → Explains entries id expires now (settle entries id expires r)
  unfolding scan
  settle-Explains live found e =
      let (k, lo, hi, h) =
        scan_loop-holds entries id now (start_slot entries id) (rounds_of entries) 0 none e in
      (live, (k, omega arith, h), refl)
  settle-Explains live (ended none) e =
      let (start, crowded) =
        scan_loop-full entries id now (start_slot entries id) (rounds_of entries) 0 none e in
      (
        live,
        (λ s. absurd (cc (Spent-found s))),
        (λ k h. crowded k (omega arith) (omega arith)),
        refl,
      )
  settle-Explains live (ended (some index)) e = (
    live,
    (λ s. absurd (cc (Spent-found s))),
    (
      index,
      elim (scan_loop-free entries id now (start_slot entries id) (rounds_of entries) 0 index none
          e) [ inl nothing ↦ absurd (cc) | inr l ↦ l ],
      refl,
    ),
  )

-- Each outcome of `consume` says exactly what was seen: `expired` by the clock, with no slot
-- read; `reused` if a live slot among those probed holds the id; `full` if none does and all of
-- them are live; and `accepted` if none does and one has lapsed, which is then overwritten.
-- Only `accepted` changes a slot.
pub consume-Explains :
    (entries : List Entry) (id : List ℕ) (expires now : ℤ)
    → Explains entries id expires now (consume entries id expires now)
unfolding consume scan
consume-Explains [] id expires now = elim (Bool-cases (leb_ℤ expires now)) [
  | inl late ↦ rw late (leb_ℤ→≤ℤ expires now late, refl)
  | inr live ↦ rw live (
    leb_ℤ-false expires now live,
    (λ s. absurd (omega (arith, s.1))),
    (λ k h. absurd (omega arith)),
    refl,
  )
]
consume-Explains (e ∷ es) id expires now = elim (Bool-cases (leb_ℤ expires now)) [
  | inl late ↦ rw late (leb_ℤ→≤ℤ expires now late, refl)
  | inr live ↦
      rw live (settle-Explains (e ∷ es) id expires now (leb_ℤ-false expires now live) _ refl)
]

module _ (id : List ℕ) (expires now : ℤ) where
  -- `consume` keeps the number of slots.
  pub consume-length :
      (entries : List Entry) → length (consume entries id expires now).1 ≡ length entries
  consume-length entries =
      go (consume entries id expires now) (consume-Explains entries id expires now)
    where
      go :
          (r : Outcome × List Entry)
          → Explains entries id expires now r
          → length r.1 ≡ length entries
      go (expired, after) x = ap length x.1
      go (reused, after) x = ap length x.2
      go (full, after) x = ap length x.3
      go (accepted, after) x = ap length x.2.2 ∙ length-set entries x.2.0 _

  -- A slot that has not lapsed is never overwritten.
  pub consume-keeps_lapsed :
      (entries : List Entry) (index : ℕ)
      → lapsed now (slot entries index) ≡ false
      → slot (consume entries id expires now).1 index ≡ slot entries index
  unfolding slot
  consume-keeps_lapsed entries index live =
      go (consume entries id expires now) (consume-Explains entries id expires now)
    where
      go :
          (r : Outcome × List Entry)
          → Explains entries id expires now r
          → slot r.1 index ≡ slot entries index
      go (expired, after) x = ap (λ es. slot es index) x.1
      go (reused, after) x = ap (λ es. slot es index) x.2
      go (full, after) x = ap (λ es. slot es index) x.3
      go (accepted, after) (w, n, (at, (k, lo, hi, same, l), e)) =
          ap (λ es. slot es index) e
          ∙ get_or-set_ne entries at index _ default (λ here. absurd (cc (rw (← same, here) at l)))

-- A slot where `consume` looks for the id records the redemption of it.
abbrev pub Recorded : List Entry → List ℕ → ℤ → Type 0
Recorded entries id expires =
    (k : ℕ) × (k < rounds_of entries)
    × (slot entries ((start_slot entries id + k) % length entries)
        ≡ record { id = id; expires = expires })

pub Recorded-Spent :
    (entries : List Entry) (id : List ℕ) (expires now : ℤ)
    → Recorded entries id expires
    → now <ℤ expires
    → Spent entries id now
unfolding holds
Recorded-Spent entries id expires now (k, lt, e) live =
    (k, lt, rw (e, eq_bytes_refl) (ground arith))

-- A redemption that was accepted is recorded.
pub accepted-Recorded :
    (entries : List Entry) (id : List ℕ) (expires now : ℤ)
    → (consume entries id expires now).0 ≡ accepted
    → Recorded (consume entries id expires now).1 id expires
unfolding start_slot slot
accepted-Recorded entries id expires now h =
    go (consume entries id expires now) (consume-Explains entries id expires now) h
  where
    go :
        (r : Outcome × List Entry)
        → Explains entries id expires now r
        → r.0 ≡ accepted
        → Recorded r.1 id expires
    go (expired, after) x h = absurd (cc)
    go (reused, after) x h = absurd (cc)
    go (full, after) x h = absurd (cc)
    go (accepted, after) (w, n, (index, (k, lo, hi, at, l), e)) h =
        let width = ap length e ∙ length-set entries index _ in
        (
          k,
          omega arith,
          rw (width, ← at, e) (get_or-set_self entries index _ default (omega arith)),
        )

-- A record stays while it is live.
pub consume-Recorded :
    (entries : List Entry) (id other : List ℕ) (expires its now : ℤ)
    → Recorded entries id expires
    → now <ℤ expires
    → Recorded (consume entries other its now).1 id expires
unfolding start_slot lapsed
consume-Recorded entries id other expires its now (k, lt, e) live =
    let n = consume-length other its now entries in
    let kept =
      consume-keeps_lapsed other its now entries ((start_slot entries id + k) % length entries)
        (rw e (ground arith)) in
    (k, omega arith, rw n (kept ∙ e))

-- ===== src/Redemption/Probe.antt =====
-- What the probe loop of `consume` finds.
use ngx_http_pow_gate.Common.{
  ℕ, zero, suc, ◌+◌, ◌%◌, ◌≤◌, ◌<◌, ◌≡◌, inl, inr, ◌⊎◌, true, false, arith, Bool-cases, Option,
  none, some, List, length, sym, ◌∙◌,
}
use native.Mathlib.Decide.{dec_lt}
use ngx_http_pow_gate.Common.Int.{ℤ}
use ngx_http_pow_gate.Redemption.{Entry, slot, found, ended, holds, lapsed, scan_loop, keep_free}

keep_free-cases :
    (now : ℤ) (e : Entry) (index : ℕ) (free : Option ℕ)
    → (keep_free now e index free ≡ free)
      ⊎ ((lapsed now e ≡ true) × (keep_free now e index free ≡ some index))
unfolding keep_free
keep_free-cases now e index free = ground arith

keep_free-eq-none :
    (now : ℤ) (e : Entry) (index : ℕ) (free : Option ℕ)
    → keep_free now e index free ≡ none
    → (free ≡ none) × (lapsed now e ≡ false)
unfolding keep_free
keep_free-eq-none now e index free h = ground arith

module _ (entries : List Entry) (id : List ℕ) (now : ℤ) (start : ℕ) where
  -- The slot of a round.
  abbrev pub place : ℕ → ℕ
  place k = (start + k) % length entries

  abbrev pub probed : ℕ → Entry
  probed k = slot entries (place k)

  -- What the loop does with its free slot in a round.
  abbrev keep : ℕ → Option ℕ → Option ℕ
  keep k = keep_free now (probed k) (place k)

  -- The loop meets a live slot of the id wherever one stands in the rounds left.
  pub scan_loop-found :
      (rounds probe k : ℕ) (free : Option ℕ)
      → probe ≤ k
      → k < probe + rounds
      → holds id now (probed k) ≡ true
      → scan_loop entries id now start rounds probe free ≡ found
  unfolding scan_loop
  scan_loop-found zero probe k free lo hi h = absurd (omega arith)
  scan_loop-found (suc rounds) probe k free lo hi h =
      elim (Bool-cases (holds id now (probed probe))) [
        | inl e ↦ rw e
        | inr e ↦
            rw e (scan_loop-found rounds (suc probe) k (keep probe free) (later e) (omega arith) h)
      ]
    where
      later : holds id now (probed probe) ≡ false → probe < k
      later e = grind arith

  -- An early return comes from a live slot of the id.
  pub scan_loop-holds :
      (rounds probe : ℕ) (free : Option ℕ)
      → scan_loop entries id now start rounds probe free ≡ found
      → (k : ℕ) × (probe ≤ k) × (k < probe + rounds) × (holds id now (probed k) ≡ true)
  unfolding scan_loop
  scan_loop-holds zero probe free e = cc
  scan_loop-holds (suc rounds) probe free e = elim (Bool-cases (holds id now (probed probe))) [
    | inl h ↦ (probe, omega arith, omega arith, h)
    | inr h ↦
        let (k, lo, hi, t) = scan_loop-holds rounds (suc probe) (keep probe free) (rw h at e) in
        (k, omega arith, omega arith, t)
  ]

  -- A round, from `probe` on, in which a slot had lapsed.
  abbrev pub LapsedAt : (probe rounds index : ℕ) → Type 0
  LapsedAt probe rounds index =
      (k : ℕ) × (probe ≤ k)
      × (k < probe + rounds)
      × (index ≡ place k)
      × (lapsed now (probed k) ≡ true)

  widen :
      (rounds probe index : ℕ) (free : Option ℕ)
      → (keep probe free ≡ some index) ⊎ LapsedAt (suc probe) rounds index
      → (free ≡ some index) ⊎ LapsedAt probe (suc rounds) index
  widen rounds probe index free (inl e) =
      elim (keep_free-cases now (probed probe) (place probe) free) [
        | inl same ↦ inl (sym same ∙ e)
        | inr (l, new) ↦ inr (probe, omega arith, omega arith, cc, l)
      ]
  widen rounds probe index free (inr (k, lo, hi, at, l)) = inr (k, omega arith, omega arith, at, l)

  -- The free slot that the loop ends with is the one that it came with, or a lapsed one.
  pub scan_loop-free :
      (rounds probe index : ℕ) (free : Option ℕ)
      → scan_loop entries id now start rounds probe free ≡ ended (some index)
      → (free ≡ some index) ⊎ LapsedAt probe rounds index
  unfolding scan_loop
  scan_loop-free zero probe index free e = inl (ground arith)
  scan_loop-free (suc rounds) probe index free e = elim (Bool-cases (holds id now (probed probe))) [
    | inl h ↦ absurd (cc (rw h at e))
    | inr h ↦
        widen rounds probe index free
          (scan_loop-free rounds (suc probe) index (keep probe free) (rw h at e))
  ]

  -- With no free slot at the end, every slot that was looked at was live.
  pub scan_loop-full :
      (rounds probe : ℕ) (free : Option ℕ)
      → scan_loop entries id now start rounds probe free ≡ ended none
      → (free ≡ none) × ((k : ℕ) → probe ≤ k → k < probe + rounds → lapsed now (probed k) ≡ false)
  unfolding scan_loop
  scan_loop-full zero probe free e = (ground arith, λ k lo hi. absurd (omega arith))
  scan_loop-full (suc rounds) probe free e = elim (Bool-cases (holds id now (probed probe))) [
    | inl h ↦ absurd (cc (rw h at e))
    | inr h ↦
        let (kept, live) = scan_loop-full rounds (suc probe) (keep probe free) (rw h at e) in
        let (before, here) = keep_free-eq-none now (probed probe) (place probe) free kept in
        (
          before,
          λ k lo hi. elim (dec_lt probe k) [
            | yes p ↦ live k p (omega arith)
            | no p ↦ let at : k ≡ probe = omega arith in rw at here
          ],
        )
  ]

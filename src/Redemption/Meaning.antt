-- ===== src/Redemption/Meaning.antt =====
-- What `consume` says and does, in terms of the expiries and the ids that the slots hold.
use ngx_http_pow_gate.Common.{
  ℕ, ◌+◌, ◌%◌, ◌<◌, ◌≡◌, ◌↔◌, refl, true, false, &&-left, &&-right, arith, List, length, min, set,
}
use ngx_http_pow_gate.Common.Int.{ℤ, ltb_ℤ, leb_ℤ→≤ℤ, leb_ℤ-false, ltb_ℤ→<ℤ, <ℤ→ltb_ℤ, ◌≤ℤ◌, ◌<ℤ◌}
use ngx_http_pow_gate.Common.Bytes.{eq_bytes, eq_bytes_iff}
use ngx_http_pow_gate.Redemption.Consume.{Spent, Explains, consume-Explains, consume-keeps_lapsed}
use ngx_http_pow_gate.Redemption.{
  Entry, slot, holds, lapsed, start_slot, consume, Outcome, accepted, reused, full, expired,
}

-- A slot whose expiry is still to come.
abbrev pub IsLive : ℤ → Entry → Type 0
IsLive now e = now <ℤ e.expires

holds_iff :
    (id : List ℕ) (now : ℤ) (e : Entry) → (holds id now e ≡ true) ↔ (IsLive now e × (e.id ≡ id))
unfolding holds
holds_iff id now e = (
  (λ h. (
    ltb_ℤ→<ℤ now e.expires (&&-left (ltb_ℤ now e.expires) (eq_bytes e.id id) h),
    (eq_bytes_iff e.id id).0 (&&-right (ltb_ℤ now e.expires) (eq_bytes e.id id) h),
  )),
  (λ (live, same). rw (<ℤ→ltb_ℤ now e.expires live, (eq_bytes_iff e.id id).1 same) refl),
)

lapsed-false : (now : ℤ) (e : Entry) → lapsed now e ≡ false → IsLive now e
unfolding lapsed
lapsed-false now e h = leb_ℤ-false e.expires now h

IsLive-lapsed : (now : ℤ) (e : Entry) → IsLive now e → lapsed now e ≡ false
unfolding lapsed
IsLive-lapsed now e h = ground arith

lapsed-true : (now : ℤ) (e : Entry) → lapsed now e ≡ true → e.expires ≤ℤ now
unfolding lapsed
lapsed-true now e h = leb_ℤ→≤ℤ e.expires now h

-- The slots that are looked at: as many as there are, or 64 if that is less, from the start on.
module _ (entries : List Entry) (id : List ℕ) where
  abbrev pub seen : ℕ → Entry
  seen k = slot entries ((start_slot entries id + k) % length entries)

  abbrev pub Seen : ℕ → Type 0
  Seen k = k < min (length entries) 64

  -- A live slot of the id is seen.
  abbrev pub Known : ℤ → Type 0
  Known now = (k : ℕ) × Seen k × IsLive now (seen k) × ((seen k).id ≡ id)

  -- What each outcome says, and what is left.
  abbrev pub Says : (expires now : ℤ) → Outcome × List Entry → Type 0
  Says expires now (expired, after) = (expires ≤ℤ now) × (after ≡ entries)
  Says expires now (reused, after) = (now <ℤ expires) × Known now × (after ≡ entries)
  Says expires now (full, after) =
      (now <ℤ expires)
      × (¬ Known now)
      × ((k : ℕ) → Seen k → IsLive now (seen k))
      × (after ≡ entries)
  Says expires now (accepted, after) =
      (now <ℤ expires)
      × (¬ Known now)
      × ((k : ℕ) × Seen k
          × ((seen k).expires ≤ℤ now)
          × (after
              ≡ set entries ((start_slot entries id + k) % length entries)
                  (record { id = id; expires = expires })))

  Spent-Known : (now : ℤ) → Spent entries id now ↔ Known now
  Spent-Known now = (
    (λ (k, lt, h). let (live, same) = (holds_iff id now (seen k)).0 h in (k, lt, live, same)),
    (λ (k, lt, live, same). (k, lt, (holds_iff id now (seen k)).1 (live, same))),
  )

  Explains-Says :
      (expires now : ℤ) (r : Outcome × List Entry)
      → Explains entries id expires now r
      → Says expires now r
  Explains-Says expires now (expired, after) x = x
  Explains-Says expires now (reused, after) (live, spent, same) =
      (live, (Spent-Known now).0 spent, same)
  Explains-Says expires now (full, after) (live, unspent, crowded, same) = (
    live,
    (λ h. unspent ((Spent-Known now).1 h)),
    (λ k lt. lapsed-false now (seen k) (crowded k lt)),
    same,
  )
  Explains-Says expires now (accepted, after) (live, unspent, (index, (k, lo, hi, at, l), e)) = (
    live,
    (λ h. unspent ((Spent-Known now).1 h)),
    (k, omega arith, lapsed-true now (seen k) l, rw (← at) e),
  )

  -- Each outcome of `consume` says what was seen: `expired` by the clock; `reused` if one of the
  -- first 64 slots from the start is live and holds the id; `full` if none does and all of them
  -- are live; and `accepted` if none does and one of them has lapsed, which is then overwritten.
  -- Only `accepted` changes a slot.
  pub consume-Says : (expires now : ℤ) → Says expires now (consume entries id expires now)
  consume-Says expires now =
      Explains-Says expires now (consume entries id expires now)
        (consume-Explains entries id expires now)

-- A slot whose expiry is still to come is never overwritten, whatever is consumed.
pub consume-keeps :
    (entries : List Entry) (id : List ℕ) (expires now : ℤ) (index : ℕ)
    → IsLive now (slot entries index)
    → slot (consume entries id expires now).1 index ≡ slot entries index
consume-keeps entries id expires now index live =
    consume-keeps_lapsed id expires now entries index (IsLive-lapsed now (slot entries index) live)

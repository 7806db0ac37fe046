-- ===== src/Redemption.antt =====
-- The one-use ledger: src/pow-gate-core/src/redemption.rs, and the part of
-- src/ngx-http-pow-gate/src/redemption.rs that calls it under the zone's lock with a clock that
-- never runs backwards. SHA-256 is a parameter; a slice is a list that is never resized.
pub mod Probe
pub mod Consume
pub mod Meaning
pub mod OnceOnly
mod Examples
use ngx_http_pow_gate.Common.{
  ℕ, zero, suc, ◌+◌, ◌%◌, min, Bool, true, false, not, ◌&&◌, ◌||◌, ltb, ◌==◌, if◌then◌else◌, Option,
  none, some, List, [], ◌∷◌, length, get_or, set, take, replicate,
}
use ngx_http_pow_gate.Common.Int.{ℤ, pos, ltb_ℤ, leb_ℤ, max_ℤ}
use ngx_http_pow_gate.Common.Bytes.{eq_bytes, be_value}

-- One slot; `default` is the zeroed slot of `calloc` and of `#[derive(Default)]`.
pub record Entry : Type 0 where
  pub id : List ℕ
  pub expires : ℤ

abbrev pub default : Entry
default = record { id = replicate 32 0; expires = pos 0 }

pub data Outcome : Type 0 where
  accepted reused full expired : Outcome

-- The slot in which a probe sequence starts; only ever called on a table with slots.
unfoldable pub start_slot : List Entry → List ℕ → ℕ
start_slot entries id = be_value (take 8 id) % length entries

-- A slot is read by an index below the length, so that the default is never returned.
unfoldable pub slot : List Entry → ℕ → Entry
slot entries index = get_or entries index default

abbrev pub probe_limit : ℕ
probe_limit = 64

-- What the loop leaves: an early return, or the first free slot that it met.
pub data Scan : Type 0 where
  found : Scan
  ended : Option ℕ → Scan

abbrev pub is_none : Option ℕ → Bool
is_none none = true
is_none (some i) = false

-- `entry.expires > now && entry.id == id`
unfoldable pub holds : List ℕ → ℤ → Entry → Bool
holds id now e = ltb_ℤ now e.expires && eq_bytes e.id id

-- `entry.expires <= now`
unfoldable pub lapsed : ℤ → Entry → Bool
lapsed now e = leb_ℤ e.expires now

-- `if entry.expires <= now && free.is_none() { free = Some(index); }`
unfoldable pub keep_free : ℤ → Entry → ℕ → Option ℕ → Option ℕ
unfolding lapsed
keep_free now e index free = if lapsed now e && is_none free then some index else free

-- The `for probe in ..` loop, by the number of rounds that are left.
unfoldable pub scan_loop :
    List Entry → List ℕ → ℤ → (start rounds probe : ℕ) (free : Option ℕ) → Scan
scan_loop entries id now start zero probe free = ended free
scan_loop entries id now start (suc rounds) probe free =
    let index = (start + probe) % length entries in
    let entry = slot entries index in
    let rest = scan_loop entries id now start rounds (suc probe) (keep_free now entry index free) in
    if holds id now entry then found else rest

-- The slots that the loop may look at.
abbrev pub rounds_of : List Entry → ℕ
rounds_of entries = min (length entries) probe_limit

abbrev pub settle : List Entry → List ℕ → ℤ → Scan → Outcome × List Entry
settle entries id expires found = (reused, entries)
settle entries id expires (ended none) = (full, entries)
settle entries id expires (ended (some index)) =
    (accepted, set entries index (record { id = id; expires = expires }))

abbrev pub is_empty : List Entry → Bool
is_empty [] = true
is_empty (e ∷ entries) = false

-- `consume`: the outcome, and the slots afterwards.
unfoldable pub consume : List Entry → List ℕ → ℤ → ℤ → Outcome × List Entry
unfolding scan_loop start_slot slot holds keep_free
consume entries id expires now =
    if leb_ℤ expires now
    then (expired, entries)
    else if is_empty entries
    then (full, entries)
    else settle entries id expires
        (scan_loop entries id now (start_slot entries id) (rounds_of entries) 0 none)

-- The state in the shared zone, without the issuer, which no operation changes.
pub record State : Type 0 where
  pub last_now : ℤ
  pub entries : List Entry

module _ (sha256 : List ℕ → List ℕ) where
  -- `id`
  abbrev pub id_of : List ℕ → List ℕ
  id_of token = sha256 token

  -- The critical section of the worker's `consume`: `clock` is what `runtime::now()` returns
  -- inside the lock.
  unfoldable pub redeem : State → List ℕ → ℤ → ℤ → Outcome × State
  redeem state token expires clock =
      let now = max_ℤ clock state.last_now in
      let done = consume state.entries (id_of token) expires now in
      (done.0, record { last_now = now; entries = done.1 })

  -- `consume` of the worker: with no zone nothing is ever redeemed.
  unfoldable pub consume_shared : Option State → List ℕ → ℤ → ℤ → Outcome × Option State
  consume_shared none token expires clock = (full, none)
  consume_shared (some state) token expires clock =
      let done = redeem state token expires clock in (done.0, some done.1)

-- ===== src/VerdictCache.antt =====
-- The bounded cache of DNS verdicts: src/pow-gate-core/src/verdict_cache.rs. An instant is its
-- nanoseconds since some start, a duration its nanoseconds, and `saturating_duration_since` the
-- difference that stops at zero. The hash map is a list of pairs with distinct keys.
pub mod Bounded
pub mod Entries
pub mod Verdicts
pub mod LateReply
mod Examples
use ngx_http_pow_gate.Common.{
  ℕ, zero, suc, ◌+◌, ◌-◌, ◌%◌, ◌^◌, Bool, true, false, ◌&&◌, ltb, leb, ◌==◌, if◌then◌else◌, Option,
  none, some, List, [], ◌∷◌, length,
}
use ngx_http_pow_gate.Common.Assoc.{Key, Map, lookup, remove, insert, update, retain}

pub record Entry : Type 0 where
  pub verdict : Bool
  pub at : ℕ
  pub generation : ℕ

pub data Lookup : Type 0 where
  cached : Bool → Lookup
  start : ℕ → Lookup
  full : Lookup

pub record VerdictCache (K : Type 0) : Type 0 where
  pub entries : Map K Entry
  pub capacity : ℕ
  pub ttl : ℕ
  pub next_sweep : ℕ
  pub generation : ℕ

-- One second.
abbrev pub second : ℕ
second = 1_000_000_000

-- `now.saturating_duration_since(entry.at) < self.ttl`
unfoldable pub is_fresh : ℕ → ℕ → Entry → Bool
is_fresh ttl now e = ltb (now - e.at) ttl

-- `VerdictCache::new`, with the instant that the clock shows then.
unfoldable pub new : {K : Type 0} → (capacity ttl now : ℕ) → VerdictCache K
new capacity ttl now = record {
  entries = [];
  capacity = capacity;
  ttl = ttl;
  next_sweep = now;
  generation = 0;
}

-- What `complete` writes: nothing if the reply is for another generation.
unfoldable pub resolve : ℕ → Bool → ℕ → Entry → Entry
resolve generation verdict now e =
    if e.generation == generation then record e { verdict = verdict; at = now } else e

module _ {K : Type 0} ⦃key : Key K⦄ where
  -- The sweep at the head of a miss: at most once in a second, and only if the cache is full.
  unfoldable pub sweep : ℕ → VerdictCache K → VerdictCache K
  sweep now c =
      if leb c.capacity (length c.entries) && leb c.next_sweep now
      then record c { entries = retain (is_fresh c.ttl now) c.entries; next_sweep = now + second }
      else c

  -- The last part of a miss: refuse, or insert a pending verdict under a new generation.
  unfoldable pub admit : K → ℕ → VerdictCache K → Lookup × VerdictCache K
  admit k now c =
      let generation = (c.generation + 1) % 2 ^ 64 in
      if leb c.capacity (length c.entries) then (full, c) else (
        start generation,
        record c {
          generation = generation;
          entries =
              insert k (record { verdict = false; at = now; generation = generation }) c.entries;
        },
      )

  -- `begin`
  unfoldable pub begin : K → ℕ → VerdictCache K → Lookup × VerdictCache K
  begin k now c = elim (lookup k c.entries) [
    | none ↦ admit k now (sweep now c)
    | some e ↦
        let expired = record c { entries = remove k c.entries } in
        if is_fresh c.ttl now e then (cached e.verdict, c) else admit k now (sweep now expired)
  ]

  -- `complete`
  unfoldable pub complete : K → ℕ → Bool → ℕ → VerdictCache K → VerdictCache K
  complete k generation verdict now c = record c {
    entries = update k (resolve generation verdict now) c.entries;
  }

  -- `cancel`
  unfoldable pub cancel : K → ℕ → VerdictCache K → VerdictCache K
  cancel k generation c = elim (lookup k c.entries) [
    | none ↦ c
    | some e ↦ if e.generation == generation then record c { entries = remove k c.entries } else c
  ]

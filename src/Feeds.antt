-- ===== src/Feeds.antt =====
-- The feeds of address ranges: `add_feed_json` of src/pow-gate-core/src/ranges.rs and
-- src/pow-gate-core/src/feeds.rs. The JSON of a feed and the parser of addresses are parameters;
-- an instant is its nanoseconds since some start.
use ngx_http_pow_gate.Common.{
  ℕ, zero, suc, ◌+◌, ◌-◌, ◌≡◌, Bool, true, false, ◌&&◌, ltb, ◌==◌, if◌then◌else◌, Option, none,
  some, List, [], ◌∷◌, ◌++◌, length, ◌>>=◌,
}
use ngx_http_pow_gate.Context.{IpAddr}
use ngx_http_pow_gate.Ranges.{normalize}
use ngx_http_pow_gate.RangeSet.{IpRangeSet, new, push_cidr, contains}
pub mod Whole
mod Examples

-- `Prefix`, an entry of a feed
pub record Prefix : Type 0 where
  pub ipv4_prefix : Option (List ℕ)
  pub ipv6_prefix : Option (List ℕ)

-- `FeedSnapshot`
pub record FeedSnapshot : Type 0 where
  pub ranges : IpRangeSet
  pub updated : ℕ

-- `age`, `saturating_duration_since`
unfoldable pub age : FeedSnapshot → ℕ → ℕ
age feed now = now - feed.updated

-- `fresh`
unfoldable pub fresh : FeedSnapshot → (now max_stale : ℕ) → Bool
fresh feed now max_stale = ltb (age feed now) max_stale

-- `contains`
unfoldable pub feed_contains : FeedSnapshot → IpAddr → (now max_stale : ℕ) → Bool
feed_contains feed ip now max_stale = fresh feed now max_stale && contains feed.ranges ip

abbrev pub is_empty : Prefix → Bool
is_empty p = is_none p.ipv4_prefix && is_none p.ipv6_prefix
  where
    is_none : Option (List ℕ) → Bool
    is_none none = true
    is_none (some text) = false

module _ (parse_ip : List ℕ → Option IpAddr) (read_feed : List ℕ → Option (List Prefix)) where
  -- One text of an entry, if it has it: `none` stands for `return 0`.
  unfoldable pub push_text : ℕ × IpRangeSet → Option (List ℕ) → Option (ℕ × IpRangeSet)
  push_text done none = some done
  push_text done (some text) =
      push_cidr parse_ip done.1 text >>= λ pushed. some (done.0 + 1, pushed)

  unfoldable pub push_prefix : ℕ × IpRangeSet → Prefix → Option (ℕ × IpRangeSet)
  push_prefix done p =
      if is_empty p
      then none
      else (push_text done p.ipv4_prefix >>= λ more. push_text more p.ipv6_prefix)

  -- The `for` loop
  unfoldable pub push_prefixes : ℕ × IpRangeSet → List Prefix → Option (ℕ × IpRangeSet)
  push_prefixes done [] = some done
  push_prefixes done (p ∷ ps) = push_prefix done p >>= λ more. push_prefixes more ps

  -- The feed has been read, or could not be, which leaves nothing to add.
  unfoldable pub read_prefixes : Option (List Prefix) → Option (ℕ × IpRangeSet)
  read_prefixes none = some (0, new)
  read_prefixes (some ps) = if ltb 100000 (length ps) then none else push_prefixes (0, new) ps

  abbrev pub merged : IpRangeSet → Option (ℕ × IpRangeSet) → ℕ × IpRangeSet
  merged set none = (0, set)
  merged set (some (n, parsed)) = (
    n,
    record {
      ranges_v4 = normalize (set.ranges_v4 ++ parsed.ranges_v4);
      ranges_v6 = normalize (set.ranges_v6 ++ parsed.ranges_v6);
      prefixes = set.prefixes + parsed.prefixes;
    },
  )

  -- `add_feed_json`: the count, and the set afterwards
  unfoldable pub add_feed_json : IpRangeSet → List ℕ → ℕ × IpRangeSet
  add_feed_json set bytes = merged set (read_prefixes (read_feed bytes))

  -- `FeedSnapshot::parse`
  unfoldable pub parse : List ℕ → ℕ → Option FeedSnapshot
  parse bytes now =
      let added = add_feed_json new bytes in
      if added.0 == 0 then none else some (record { ranges = added.1; updated = now })

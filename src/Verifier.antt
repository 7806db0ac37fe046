-- ===== src/Verifier.antt =====
-- The verifiers of bots: src/ngx-http-pow-gate/src/verifier.rs. The clock, the DNS, the room in the
-- queue of the resolvers and what a feed's server returns are parameters; a lock is not poisoned.
use ngx_http_pow_gate.Common.{
  ℕ, zero, suc, ◌-◌, ◌≡◌, Bool, true, false, not, ◌&&◌, ◌||◌, ltb, ◌==◌, if◌then◌else◌, Option,
  none, some, List, [], ◌∷◌, length, ◌>>=◌,
}
use ngx_http_pow_gate.Common.Assoc.{Key}
use ngx_http_pow_gate.Context.{IpAddr}
use ngx_http_pow_gate.Feeds.{FeedSnapshot, feed_contains, fresh, parse, Prefix}
use ngx_http_pow_gate.HostNames.{same_address, fcrdns_confirm}
use ngx_http_pow_gate.HostNames.Boundary.{same_address_iff}
use ngx_http_pow_gate.VerdictCache.{
  VerdictCache, Lookup, cached, start, full, begin, complete, cancel,
}
pub mod Block
pub mod Confirmed
pub mod Settings
mod Examples

instance abbrev pub address : Key IpAddr
address = record { equal = same_address; equal_iff = same_address_iff }

-- `Verifier`
pub record Verifier : Type 0 where
  pub ranges : List (Option FeedSnapshot)
  pub max_stale : ℕ
  pub urls : List (List ℕ)
  pub refresh : ℕ
  pub fcrdns_suffixes : List (List ℕ)
  pub verdicts : VerdictCache IpAddr

-- The words of `verifier_result`
pub data Reason : Type 0 where
  unknown_verifier : Reason
  verified_range : Reason
  verified_dns : Reason
  feed_stale : Reason
  verifier_unconfirmed : Reason

-- `iter().flatten().any(..)`
unfoldable pub any_feed : (FeedSnapshot → Bool) → List (Option FeedSnapshot) → Bool
any_feed test [] = false
any_feed test (none ∷ feeds) = any_feed test feeds
any_feed test (some feed ∷ feeds) = test feed || any_feed test feeds

-- What `fcrdns_cached` does with the answer of the cache; `queued` is whether the job was taken.
unfoldable pub asked : IpAddr → Bool → Lookup × VerdictCache IpAddr → Bool × VerdictCache IpAddr
asked ip queued (cached verdict, c) = (verdict, c)
asked ip queued (full, c) = (false, c)
asked ip queued (start generation, c) = (false, if queued then c else cancel ip generation c)

-- `fcrdns_cached`
unfoldable pub fcrdns_cached :
    VerdictCache IpAddr → IpAddr → (now : ℕ) → (queued : Bool) → Bool × VerdictCache IpAddr
fcrdns_cached verdicts ip now queued = asked ip queued (begin ip now verdicts)

-- The end of a job of the resolvers.
unfoldable pub resolved :
    (reverse_dns : IpAddr → Option (List ℕ)) (forward_dns : List ℕ → List IpAddr)
    (suffixes : List (List ℕ))
    → IpAddr
    → (generation now : ℕ) → VerdictCache IpAddr
    → VerdictCache IpAddr
resolved reverse_dns forward_dns suffixes ip generation now verdicts =
    complete ip generation (fcrdns_confirm reverse_dns forward_dns ip suffixes) now verdicts

abbrev pub is_empty : List (List ℕ) → Bool
is_empty [] = true
is_empty (s ∷ suffixes) = false

-- The word for an address that is not confirmed, by the feeds that are loaded again
abbrev pub unconfirmed : Verifier → List (Option FeedSnapshot) → ℕ → Reason
unconfirmed v feeds now =
    if any_feed (λ feed. not (fresh feed now v.max_stale)) feeds
    then feed_stale
    else verifier_unconfirmed

abbrev pub by_dns : Verifier → List (Option FeedSnapshot) → ℕ → Bool → Bool × Reason
by_dns v again now true = (true, verified_dns)
by_dns v again now false = (false, unconfirmed v again now)

-- The DNS is asked only if there are suffixes; `later` is the clock as it is read there.
unfoldable pub by_name :
    Verifier
    → List (Option FeedSnapshot)
    → IpAddr
    → (now later : ℕ) → Bool
    → (Bool × Reason) × Verifier
by_name v again ip now later queued =
    if is_empty v.fcrdns_suffixes
    then ((false, unconfirmed v again now), v)
    else (let c = fcrdns_cached v.verdicts ip later queued in
        (by_dns v again now c.0, record v { verdicts = c.1 }))

-- `verifier_result` of the verifier that the registry has; `again` is what a second load of the
-- ranges gives.
unfoldable pub verifier_result :
    Verifier
    → List (Option FeedSnapshot)
    → IpAddr
    → (now later : ℕ) → Bool
    → (Bool × Reason) × Verifier
verifier_result v again ip now later queued =
    if any_feed (λ feed. feed_contains feed ip now v.max_stale) v.ranges
    then ((true, verified_range), v)
    else by_name v again ip now later queued

abbrev pub unknown : Bool × Reason
unknown = (false, unknown_verifier)

-- `feeds[index] = ..`
unfoldable pub store : ℕ → FeedSnapshot → List (Option FeedSnapshot) → List (Option FeedSnapshot)
store n feed [] = []
store zero feed (f ∷ feeds) = some feed ∷ feeds
store (suc n) feed (f ∷ feeds) = f ∷ store n feed feeds

abbrev pub kept : ℕ → List (Option FeedSnapshot) → Option FeedSnapshot → List (Option FeedSnapshot)
kept index feeds none = feeds
kept index feeds (some feed) = store index feed feeds

module _ (parse_ip : List ℕ → Option IpAddr) (read_feed : List ℕ → Option (List Prefix)) where
  unfoldable pub fetched_feed : Option (List ℕ) → ℕ → Option FeedSnapshot
  fetched_feed bytes now =
      bytes >>= λ b. if ltb 8388608 (length b) then none else parse parse_ip read_feed b now

  -- One source of the refresher, with the bytes its server returned.
  unfoldable pub refresh_source :
      ℕ → Option (List ℕ) → ℕ → List (Option FeedSnapshot) → List (Option FeedSnapshot)
  refresh_source index bytes now feeds = kept index feeds (fetched_feed bytes now)

-- ===== src/Verifier/Confirmed.antt =====
-- Where a verifier's yes comes from: src/ngx-http-pow-gate/src/verifier.rs.
use ngx_http_pow_gate.Common.{
  ℕ, ◌-◌, ◌≡◌, ◌<◌, ◌⊎◌, refl, Bool, true, false, Option, none, some, List, [], ◌∷◌, Bool-cases,
  inl, inr, &&-left, &&-right, ◌∙◌, ap, subst, ltb→lt,
}
use ngx_http_pow_gate.Context.{IpAddr}
use ngx_http_pow_gate.Feeds.{FeedSnapshot, feed_contains, fresh, age}
use ngx_http_pow_gate.HostNames.{fcrdns_confirm}
use ngx_http_pow_gate.RangeSet.{contains}
use ngx_http_pow_gate.VerdictCache.{VerdictCache, Lookup, cached, start, full, new, begin, cancel}
use ngx_http_pow_gate.VerdictCache.Verdicts.{
  Call, begins, completes, cancels, step, after, Confirmed, begin-Confirmed,
}
use ngx_http_pow_gate.Verifier.{
  address, Verifier, any_feed, asked, fcrdns_cached, resolved, is_empty, by_name, by_dns,
  verifier_result,
}

-- What happens to the verdicts: a client is looked up, or a resolver ends a job with what the DNS
-- says then.
pub data Event : Type 0 where
  looks_up : IpAddr → (now : ℕ) → (queued : Bool) → Event
  ends : (IpAddr → Option (List ℕ)) → (List ℕ → List IpAddr) → IpAddr → (generation now : ℕ) → Event

asked-verdicts :
    (ip : IpAddr) (queued : Bool) (p : Lookup × VerdictCache IpAddr)
    → ((asked ip queued p).1 ≡ p.1) ⊎ ((g : ℕ) × ((asked ip queued p).1 ≡ cancel ip g p.1))
unfolding asked
asked-verdicts ip queued (cached verdict, c) = inl refl
asked-verdicts ip queued (full, c) = inl refl
asked-verdicts ip true (start g, c) = inl refl
asked-verdicts ip false (start g, c) = inr (g, refl)

-- A look-up is one call on the cache, or that and the cancelling of what it began.
fcrdns_cached-calls :
    (c : VerdictCache IpAddr) (ip : IpAddr) (now : ℕ) (queued : Bool)
    → ((fcrdns_cached c ip now queued).1 ≡ step (begins ip now) c)
      ⊎ ((g : ℕ) × ((fcrdns_cached c ip now queued).1
            ≡ step (cancels ip g) (step (begins ip now) c)))
unfolding fcrdns_cached step
fcrdns_cached-calls c ip now queued = asked-verdicts ip queued (begin ip now c)

not_begun :
    (ip : IpAddr) (now : ℕ) (calls : List (Call IpAddr)) (other : IpAddr) (g at : ℕ)
    → Confirmed other g at (begins ip now ∷ calls)
    → Confirmed other g at calls
not_begun ip now calls other g at (inl e) = absurd (cc)
not_begun ip now calls other g at (inr said) = said

not_cancelled :
    (ip : IpAddr) (h : ℕ) (calls : List (Call IpAddr)) (other : IpAddr) (g at : ℕ)
    → Confirmed other g at (cancels ip h ∷ calls)
    → Confirmed other g at calls
not_cancelled ip h calls other g at (inl e) = absurd (cc)
not_cancelled ip h calls other g at (inr said) = said

module _ (suffixes : List (List ℕ)) where
  unfoldable pub happen : Event → VerdictCache IpAddr → VerdictCache IpAddr
  happen (looks_up ip now queued) c = (fcrdns_cached c ip now queued).1
  happen (ends reverse_dns forward_dns ip generation now) c =
      resolved reverse_dns forward_dns suffixes ip generation now c

  -- The verdicts after the events of a list, the latest first.
  unfoldable pub verdicts_after : VerdictCache IpAddr → List Event → VerdictCache IpAddr
  verdicts_after c [] = c
  verdicts_after c (event ∷ earlier) = happen event (verdicts_after c earlier)

  -- The DNS has confirmed the address at this instant.
  unfoldable pub DnsSaid : IpAddr → (at : ℕ) → List Event → Type 0
  DnsSaid ip at [] = ⊥
  DnsSaid ip at (looks_up other now queued ∷ earlier) = DnsSaid ip at earlier
  DnsSaid ip at (ends reverse_dns forward_dns other generation now ∷ earlier) =
      ((other ≡ ip) × (now ≡ at) × (fcrdns_confirm reverse_dns forward_dns ip suffixes ≡ true))
      ⊎ DnsSaid ip at earlier

  -- The events are calls on the cache, and a positive verdict among those is the DNS's.
  abbrev IsTold : VerdictCache IpAddr → List Event → List (Call IpAddr) → Type 0
  IsTold made events calls =
      (verdicts_after made events ≡ after made calls)
      × ((ip : IpAddr) (generation at : ℕ)
          → Confirmed ip generation at calls
          → DnsSaid ip at events)

  told :
      (made : VerdictCache IpAddr) (events : List Event)
      → (calls : List (Call IpAddr)) × IsTold made events calls
  unfolding verdicts_after after happen DnsSaid step resolved
  told made [] = ([], (refl, λ ip generation at said. said))
  told made (looks_up ip now queued ∷ earlier) =
      let (calls, (same, said)) = told made earlier in
      elim (fcrdns_cached-calls (verdicts_after made earlier) ip now queued)
        as (λ _.
          (more : List (Call IpAddr)) × IsTold made (looks_up ip now queued ∷ earlier) more) [
            | inl e ↦ (
              begins ip now ∷ calls,
              (
                e ∙ ap (step (begins ip now)) same,
                λ other g at c. said other g at (not_begun ip now calls other g at c),
              ),
            )
            | inr (h, e) ↦ (
              cancels ip h ∷ begins ip now ∷ calls,
              (
                e ∙ ap (λ c. step (cancels ip h) (step (begins ip now) c)) same,
                λ other g at c. said other g at (
                    not_begun ip now calls other g at
                      (not_cancelled ip h (begins ip now ∷ calls) other g at c)),
              ),
            )
          ]
  told made (ends reverse_dns forward_dns ip generation now ∷ earlier) =
      let (calls, (same, said)) = told made earlier in
      let answer = fcrdns_confirm reverse_dns forward_dns ip suffixes in
      (
        completes ip generation answer now ∷ calls,
        (
          ap (resolved reverse_dns forward_dns suffixes ip generation now) same,
          λ other g at c.
              elim c
                as (λ _.
                  DnsSaid other at (ends reverse_dns forward_dns ip generation now ∷ earlier)) [
                    | inl e ↦
                        let here : ip ≡ other = cc in
                        let positive : fcrdns_confirm reverse_dns forward_dns ip suffixes ≡ true =
                          cc in
                        inl (
                          here,
                          cc,
                          subst (λ i. fcrdns_confirm reverse_dns forward_dns i suffixes ≡ true) here
                              positive,
                        )
                    | inr old ↦ inr (said other g at old)
                  ],
        ),
      )

-- A feed of the list holds the address, and is not too old.
unfoldable pub AnyHolds : IpAddr → (now max_stale : ℕ) → List (Option FeedSnapshot) → Type 0
AnyHolds ip now max_stale [] = ⊥
AnyHolds ip now max_stale (none ∷ feeds) = AnyHolds ip now max_stale feeds
AnyHolds ip now max_stale (some feed ∷ feeds) =
    ((now - feed.updated < max_stale) × (contains feed.ranges ip ≡ true))
    ⊎ AnyHolds ip now max_stale feeds

held :
    (feed : FeedSnapshot) (ip : IpAddr) (now max_stale : ℕ)
    → feed_contains feed ip now max_stale ≡ true
    → (now - feed.updated < max_stale) × (contains feed.ranges ip ≡ true)
unfolding feed_contains fresh age
held feed ip now max_stale h = (ltb→lt _ _ (&&-left _ _ h), &&-right _ _ h)

any_feed-AnyHolds :
    (ip : IpAddr) (now max_stale : ℕ) (feeds : List (Option FeedSnapshot))
    → any_feed (λ feed. feed_contains feed ip now max_stale) feeds ≡ true
    → AnyHolds ip now max_stale feeds
unfolding any_feed AnyHolds
any_feed-AnyHolds ip now max_stale [] h = absurd (cc)
any_feed-AnyHolds ip now max_stale (none ∷ feeds) h = any_feed-AnyHolds ip now max_stale feeds h
any_feed-AnyHolds ip now max_stale (some feed ∷ feeds) h =
    let test = feed_contains feed ip now max_stale in
    elim (Bool-cases test) as (λ _. AnyHolds ip now max_stale (some feed ∷ feeds)) [
      | inl t ↦ inl (held feed ip now max_stale t)
      | inr f ↦ inr (any_feed-AnyHolds ip now max_stale feeds (rw f at h))
    ]

asked-true :
    (ip : IpAddr) (queued : Bool) (p : Lookup × VerdictCache IpAddr)
    → (asked ip queued p).0 ≡ true
    → p.0 ≡ cached true
unfolding asked
asked-true ip queued (cached verdict, c) h = ap cached h
asked-true ip queued (full, c) h = absurd (cc)
asked-true ip queued (start g, c) h = absurd (cc)

by_name-true :
    (v : Verifier) (again : List (Option FeedSnapshot)) (ip : IpAddr) (now later : ℕ)
    (queued : Bool)
    → (by_name v again ip now later queued).0.0 ≡ true
    → (is_empty v.fcrdns_suffixes ≡ false) × ((fcrdns_cached v.verdicts ip later queued).0 ≡ true)
unfolding by_name
by_name-true v again ip now later queued h = elim (Bool-cases (is_empty v.fcrdns_suffixes)) [
  | inl e ↦ absurd (cc (rw e at h))
  | inr e ↦ (e, positive (fcrdns_cached v.verdicts ip later queued).0 (rw e at h))
]
  where
    positive : (b : Bool) → (by_dns v again now b).0 ≡ true → b ≡ true
    positive true e = refl
    positive false e = absurd (cc)

-- A verifier says yes only if a feed that is not too old holds the address, or if it has suffixes
-- and the DNS confirmed the address for them less than the time to live before, whatever the
-- look-ups and the resolvers did since the verdicts were made.
pub verifier_result-true :
    (v : Verifier) (again : List (Option FeedSnapshot)) (ip : IpAddr) (now later : ℕ)
    (queued : Bool) (capacity ttl made : ℕ) (events : List Event)
    → v.verdicts ≡ verdicts_after v.fcrdns_suffixes (new capacity ttl made) events
    → (verifier_result v again ip now later queued).0.0 ≡ true
    → AnyHolds ip now v.max_stale v.ranges
      ⊎ ((is_empty v.fcrdns_suffixes ≡ false)
          × (at : ℕ) × DnsSaid v.fcrdns_suffixes ip at events
          × (later - at < ttl))
unfolding verifier_result by_name fcrdns_cached
verifier_result-true v again ip now later queued capacity ttl made events reached h =
    elim (Bool-cases (any_feed (λ feed. feed_contains feed ip now v.max_stale) v.ranges)) [
      | inl t ↦ inl (any_feed-AnyHolds ip now v.max_stale v.ranges t)
      | inr f ↦ inr (named f)
    ]
  where
    named :
        any_feed (λ feed. feed_contains feed ip now v.max_stale) v.ranges ≡ false
        → (is_empty v.fcrdns_suffixes ≡ false)
          × (at : ℕ) × DnsSaid v.fcrdns_suffixes ip at events
          × (later - at < ttl)
    named f =
        let (some_suffix, positive) = by_name-true v again ip now later queued (rw f at h) in
        let (calls, (same, said)) = told v.fcrdns_suffixes (new capacity ttl made) events in
        let served = asked-true ip queued (begin ip later v.verdicts) positive in
        let (g, at, confirmed, recent) =
          begin-Confirmed capacity ttl made calls ip later
            (subst (λ c. (begin ip later c).0 ≡ cached true) (reached ∙ same) served) in
        (some_suffix, at, said ip g at confirmed, recent)

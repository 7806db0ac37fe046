-- ===== src/Feeds/Whole.antt =====
-- A feed counts as a whole or not at all: src/pow-gate-core/src/feeds.rs.
use ngx_http_pow_gate.Common.{
  ℕ, zero, suc, ◌+◌, ◌≤◌, ◌<◌, ◌≡◌, refl, arith, true, false, ltb, leb, ◌==◌, Option, none, some,
  List, [], ◌∷◌, length, >>=-eq-some, Option-cases, require-eq-some, unless-eq-some, subst, sym,
  ◌∙◌, inl, inr,
}
use ngx_http_pow_gate.Common.Parse.{split_once}
use ngx_http_pow_gate.Context.{IpAddr, v4, v6}
use ngx_http_pow_gate.RangeSet.{IpRangeSet, new, push_cidr, push_interval, cidr_parts, unwrap_or}
use ngx_http_pow_gate.Feeds.{
  Prefix, FeedSnapshot, is_empty, push_text, push_prefix, push_prefixes, read_prefixes, merged,
  add_feed_json, parse,
}

-- The texts of an entry, and of a feed.
abbrev pub one : Option (List ℕ) → ℕ
one none = 0
one (some text) = 1

abbrev pub texts : Prefix → ℕ
texts p = one p.ipv4_prefix + one p.ipv6_prefix

unfoldable pub all_texts : List Prefix → ℕ
all_texts [] = 0
all_texts (p ∷ ps) = texts p + all_texts ps

-- Every entry has a text.
unfoldable pub IsFilled : List Prefix → Type 0
IsFilled [] = Unit
IsFilled (p ∷ ps) = (is_empty p ≡ false) × IsFilled ps

push_interval-prefixes :
    (set pushed : IpRangeSet) (bits : Option ℕ) (ip : IpAddr)
    → push_interval set bits ip ≡ some pushed
    → pushed.prefixes ≡ set.prefixes + 1
unfolding push_interval
push_interval-prefixes set pushed bits (v4 a) h =
    let (b, h₁) = require-eq-some (leb (unwrap_or bits 32) 32) _ h in cc
push_interval-prefixes set pushed bits (v6 a) h =
    let (b, h₁) = require-eq-some (leb (unwrap_or bits 128) 128) _ h in cc

-- The count and the set have grown by as many prefixes.
abbrev Grown : ℕ × IpRangeSet → ℕ → ℕ × IpRangeSet → Type 0
Grown done n more = (more.0 ≡ done.0 + n) × (more.1.prefixes ≡ done.1.prefixes + n)

stays : (done more : ℕ × IpRangeSet) → done ≡ more → Grown done 0 more
stays done more e =
    let n : done.0 ≡ more.0 = cc in
    let m : done.1.prefixes ≡ more.1.prefixes = cc in (omega arith, omega arith)

within : (n : ℕ) → ltb 100000 n ≡ false → n ≤ 100000
within n h = ground arith

nothing_added : (more : ℕ × IpRangeSet) → some (0, new) ≡ some more → more.0 == 0 ≡ false → ⊥
nothing_added more h n =
    let same : 0 ≡ more.0 = cc in
    let zero_more : true ≡ false = subst (λ m. m == 0 ≡ false) (sym same) n in absurd (cc)

not_zero : (n : ℕ) → n == 0 ≡ false → 0 < n
not_zero zero h = absurd (cc)
not_zero (suc n) h = omega arith

module _ (parse_ip : List ℕ → Option IpAddr) (read_feed : List ℕ → Option (List Prefix)) where
  push_cidr-prefixes :
      (set pushed : IpRangeSet) (cidr : List ℕ)
      → push_cidr parse_ip set cidr ≡ some pushed
      → pushed.prefixes ≡ set.prefixes + 1
  unfolding push_cidr
  push_cidr-prefixes set pushed cidr h =
      let ((text, bits), read, h₁) = >>=-eq-some (cidr_parts cidr (split_once b'/' cidr)) _ h in
      let (ip, found, h₂) = >>=-eq-some (parse_ip text) _ h₁ in
      push_interval-prefixes set pushed bits ip h₂

  push_text-Grown :
      (done more : ℕ × IpRangeSet) (text : Option (List ℕ))
      → push_text parse_ip read_feed done text ≡ some more
      → Grown done (one text) more
  unfolding push_text
  push_text-Grown done more none h = stays done more (cc)
  push_text-Grown done more (some text) h =
      let (pushed, h₁, h₂) = >>=-eq-some (push_cidr parse_ip done.1 text) _ h in
      let e = push_cidr-prefixes done.1 pushed text h₁ in
      let same : (done.0 + 1, pushed) ≡ more = cc in (cc, cc)

  push_prefix-Grown :
      (done more : ℕ × IpRangeSet) (p : Prefix)
      → push_prefix parse_ip read_feed done p ≡ some more
      → (is_empty p ≡ false) × Grown done (texts p) more
  unfolding push_prefix
  push_prefix-Grown done more p h =
      let (filled, h₁) = unless-eq-some (is_empty p) _ h in
      let (step, h₂, h₃) = >>=-eq-some (push_text parse_ip read_feed done p.ipv4_prefix) _ h₁ in
      let (n₁, m₁) = push_text-Grown done step p.ipv4_prefix h₂ in
      let (n₂, m₂) = push_text-Grown step more p.ipv6_prefix h₃ in
      (filled, (omega arith, omega arith))

  push_prefixes-Grown :
      (done more : ℕ × IpRangeSet) (ps : List Prefix)
      → push_prefixes parse_ip read_feed done ps ≡ some more
      → IsFilled ps × Grown done (all_texts ps) more
  unfolding push_prefixes IsFilled all_texts
  push_prefixes-Grown done more [] h = (tt, stays done more (cc))
  push_prefixes-Grown done more (p ∷ ps) h =
      let (step, h₁, h₂) = >>=-eq-some (push_prefix parse_ip read_feed done p) _ h in
      let (filled, (n₁, m₁)) = push_prefix-Grown done step p h₁ in
      let (rest, (n₂, m₂)) = push_prefixes-Grown step more ps h₂ in
      ((filled, rest), (omega arith, omega arith))

  -- What `add_feed_json` has done with a new set when its count is not zero.
  abbrev IsWhole : List ℕ → ℕ × IpRangeSet → Type 0
  IsWhole bytes added =
      (ps : List Prefix) × (read_feed bytes ≡ some ps)
      × (length ps ≤ 100000)
      × IsFilled ps
      × (added.0 ≡ all_texts ps)
      × (added.1.prefixes ≡ all_texts ps)

  read_prefixes-IsWhole :
      (bytes : List ℕ) (ps : List Prefix) (more : ℕ × IpRangeSet)
      → read_feed bytes ≡ some ps
      → read_prefixes parse_ip read_feed (some ps) ≡ some more
      → IsWhole bytes more
  unfolding read_prefixes
  read_prefixes-IsWhole bytes ps more e h =
      let (b, h₁) = unless-eq-some (ltb 100000 (length ps)) _ h in
      let (filled, (n, m)) = push_prefixes-Grown (0, new) more ps h₁ in
      (ps, e, within (length ps) b, filled, omega arith, omega arith)

  -- A count that is not zero is that of a feed without a bad entry.
  merged-eq-some :
      (o : Option (ℕ × IpRangeSet))
      → (merged parse_ip read_feed new o).0 == 0 ≡ false
      → (more : ℕ × IpRangeSet) × (o ≡ some more)
        × (more.0 == 0 ≡ false)
        × ((merged parse_ip read_feed new o).0 ≡ more.0)
        × ((merged parse_ip read_feed new o).1.prefixes ≡ more.1.prefixes)
  merged-eq-some none h = absurd (cc)
  merged-eq-some (some more) h = (more, refl, h, refl, omega arith)

  add_feed_json-IsWhole :
      (bytes : List ℕ)
      → (add_feed_json parse_ip read_feed new bytes).0 == 0 ≡ false
      → IsWhole bytes (add_feed_json parse_ip read_feed new bytes)
  unfolding add_feed_json read_prefixes
  add_feed_json-IsWhole bytes h =
      let feed = read_feed bytes in
      let (more, e, n, e₀, e₁) = merged-eq-some (read_prefixes parse_ip read_feed feed) h in
      elim (Option-cases feed)
        as (λ _. IsWhole bytes (add_feed_json parse_ip read_feed new bytes)) [
          | inl missing ↦
              let nothing : some (0, new) ≡ some more =
                subst (λ f. read_prefixes parse_ip read_feed f ≡ some more) missing e in
              absurd (nothing_added more nothing n)
          | inr (ps, read) ↦
              let (qs, r, few, filled, a, b) =
                read_prefixes-IsWhole bytes ps more read
                  (subst (λ f. read_prefixes parse_ip read_feed f ≡ some more) read e) in
              (qs, r, few, filled, e₀ ∙ a, e₁ ∙ b)
        ]

  -- A feed is taken only if it is read as at most 100,000 entries, each with a text, at least
  -- one; its set then counts every text, and its age starts now.
  pub parse-eq-some :
      (bytes : List ℕ) (now : ℕ) (feed : FeedSnapshot)
      → parse parse_ip read_feed bytes now ≡ some feed
      → (ps : List Prefix) × (read_feed bytes ≡ some ps)
        × (length ps ≤ 100000)
        × IsFilled ps
        × (0 < all_texts ps)
        × (feed.ranges.prefixes ≡ all_texts ps)
        × (feed.updated ≡ now)
  unfolding parse
  parse-eq-some bytes now feed h =
      let added = add_feed_json parse_ip read_feed new bytes in
      let (some_added, e) = unless-eq-some (added.0 == 0) _ h in
      let (ps, read, few, filled, n, m) = add_feed_json-IsWhole bytes some_added in
      let e₁ : added.1.prefixes ≡ feed.ranges.prefixes = cc in
      let e₂ : now ≡ feed.updated = cc in
      let positive = not_zero added.0 some_added in
      (ps, read, few, filled, omega arith, omega arith, sym e₂)

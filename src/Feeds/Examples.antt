-- ===== src/Feeds/Examples.antt =====
-- Runs of the theorem on a feed of one entry with two texts.
use ngx_http_pow_gate.Common.{
  ℕ, ◌≤◌, ◌<◌, ◌≡◌, refl, true, false, Option, none, some, List, [], ◌∷◌, length, if◌then◌else◌,
  ◌==◌,
}
use ngx_http_pow_gate.Common.Bytes.{codes}
use ngx_http_pow_gate.Common.Parse.{split_once, parse_unsigned, unsigned, digits_value}
use ngx_http_pow_gate.Context.{IpAddr, v4, v6}
use ngx_http_pow_gate.Ranges.{
  normalize, sort, put, coalesce, at, partition_point, contains_interval,
}
use ngx_http_pow_gate.RangeSet.{
  push_cidr, push_interval, cidr_parts, trim, trim_start, reverse, cidr_interval, contains,
}
use ngx_http_pow_gate.Feeds.{
  Prefix, FeedSnapshot, push_text, push_prefix, push_prefixes, read_prefixes, add_feed_json, parse,
  age, fresh, feed_contains,
}
use ngx_http_pow_gate.Feeds.Whole.{IsFilled, all_texts, parse-eq-some}

-- The parser of addresses is a parameter; this one is for the test.
abbrev some_ip : List ℕ → Option IpAddr
some_ip [] = none
some_ip (c ∷ s) = if c == 58 then some (v6 1) else some (v4 167772161)

abbrev one_entry : List Prefix
one_entry =
    record { ipv4_prefix = some (codes "10.0.0.0/8"); ipv6_prefix = some (codes "::1") } ∷ []

abbrev empty_entry : List Prefix
empty_entry = record { ipv4_prefix = none; ipv6_prefix = none } ∷ one_entry

-- The reader of JSON is a parameter; this one knows three texts.
abbrev some_feed : List ℕ → Option (List Prefix)
some_feed [] = none
some_feed (c ∷ []) = some one_entry
some_feed (c ∷ d ∷ s) = some empty_entry

abbrev taken : FeedSnapshot
taken = record {
  ranges = record {
    ranges_v4 = (167772160, 184549375) ∷ [];
    ranges_v6 = (1, 1) ∷ [];
    prefixes = 2;
  };
  updated = 50;
}

feed_taken : parse some_ip some_feed (1 ∷ []) 50 ≡ some taken
unfolding parse add_feed_json read_prefixes push_prefixes push_prefix push_text push_cidr cidr_parts
    trim trim_start reverse push_interval split_once parse_unsigned unsigned digits_value
    cidr_interval normalize sort put coalesce
feed_taken = refl

-- One entry without a text empties the whole feed.
refused : parse some_ip some_feed (1 ∷ 2 ∷ []) 50 ≡ none
unfolding parse add_feed_json read_prefixes push_prefixes push_prefix normalize
refused = refl

-- 10.0.0.1 is in it until it is too old.
held : feed_contains taken (v4 167772161) 59 10 ≡ true
unfolding feed_contains fresh age contains contains_interval partition_point at
held = refl

stale : feed_contains taken (v4 167772161) 60 10 ≡ false
unfolding feed_contains fresh age contains contains_interval partition_point at
stale = refl

parse-eq-some_example :
    (ps : List Prefix) × (some_feed (1 ∷ []) ≡ some ps)
    × (length ps ≤ 100000)
    × IsFilled ps
    × (0 < all_texts ps)
    × (taken.ranges.prefixes ≡ all_texts ps)
    × (taken.updated ≡ 50)
parse-eq-some_example = parse-eq-some some_ip some_feed (1 ∷ []) 50 taken feed_taken

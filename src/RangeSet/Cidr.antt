-- ===== src/RangeSet/Cidr.antt =====
-- What a CIDR stands for, and what adding one does to a set.
use ngx_http_pow_gate.Common.{
  ℕ, ◌+◌, ◌-◌, ◌/◌, ◌^◌, ◌≤◌, ◌<◌, leb→le, ◌≡◌, ◌↔◌, ◌⊎◌, inl, inr, refl, subst, arith, true, false,
  leb, ◌==◌, Option, some, none, List, [], ◌∷◌, ◌++◌, length, >>=-eq-some, require-eq-some,
}
use ngx_http_pow_gate.Common.Parse.{split_once}
use ngx_http_pow_gate.Context.{IpAddr, v4, v6}
use ngx_http_pow_gate.Ranges.{Interval, insert_interval}
use ngx_http_pow_gate.Ranges.Order.{Holds}
use ngx_http_pow_gate.Ranges.Normal.{IsNormal}
use ngx_http_pow_gate.Ranges.Inserted.{insert_interval-IsNormal, contains_interval-insert_interval}
use ngx_http_pow_gate.RangeSet.Blocks.{cidr_interval_iff}
use ngx_http_pow_gate.RangeSet.{
  IpRangeSet, cidr_interval, cidr_parts, unwrap_or, push_interval, pop, settle_last, with_v4,
  with_v6, sorted_in, push_cidr, add_cidr, contains,
}

pop-append : (ranges : List Interval) (r : Interval) → pop (ranges ++ r ∷ []) ≡ some (ranges, r)
unfolding pop
pop-append [] r = refl
pop-append (q ∷ []) r = refl
pop-append (q ∷ p ∷ ranges) r = rw (pop-append (p ∷ ranges) r) refl

settle_last-append :
    (ranges : List Interval) (r : Interval)
    → settle_last (ranges ++ r ∷ []) ≡ some (insert_interval ranges r)
unfolding settle_last
settle_last-append ranges r = rw (pop-append ranges r) refl

grown :
    (ranges : List Interval) (r : Interval) → (length (ranges ++ r ∷ []) == length ranges) ≡ false
grown [] r = refl
grown (q ∷ ranges) r = let ih = grown ranges r in ground arith

same_length : (n : ℕ) → (n == n) ≡ true
same_length n = ground arith

-- The number of an address is one of its family's width.
abbrev pub Fits : IpAddr → Type 0
Fits (v4 a) = a < 2 ^ 32
Fits (v6 a) = a < 2 ^ 128

-- The leading bits that an entry fixes, which are all if it names none; no more than there are.
abbrev pub leading : (width : ℕ) → Option ℕ → ℕ
leading width none = width
leading width (some bits) = bits

abbrev pub IsPrefix : Option ℕ → IpAddr → Type 0
IsPrefix prefix (v4 a) = leading 32 prefix ≤ 32
IsPrefix prefix (v6 a) = leading 128 prefix ≤ 128

-- The addresses that an entry of a family and a prefix stands for: those of the family that agree
-- with it on the leading bits.
abbrev pub InNetwork : Option ℕ → IpAddr → IpAddr → Type 0
InNetwork prefix (v4 a) (v4 b) = b / 2 ^ (32 - leading 32 prefix) ≡ a / 2 ^ (32 - leading 32 prefix)
InNetwork prefix (v6 a) (v6 b) =
    b / 2 ^ (128 - leading 128 prefix) ≡ a / 2 ^ (128 - leading 128 prefix)
InNetwork prefix (v4 a) (v6 b) = ⊥
InNetwork prefix (v6 a) (v4 b) = ⊥

-- The interval of the entry, which holds just those.
abbrev InInterval : Option ℕ → IpAddr → IpAddr → Type 0
InInterval prefix (v4 a) (v4 b) = Holds b (cidr_interval 32 (unwrap_or prefix 32) a)
InInterval prefix (v6 a) (v6 b) = Holds b (cidr_interval 128 (unwrap_or prefix 128) a)
InInterval prefix (v4 a) (v6 b) = ⊥
InInterval prefix (v6 a) (v4 b) = ⊥

leading-unwrap_or : (width : ℕ) (prefix : Option ℕ) → unwrap_or prefix width ≡ leading width prefix
leading-unwrap_or width none = refl
leading-unwrap_or width (some bits) = refl

interval_iff :
    (prefix : Option ℕ) (a b : IpAddr)
    → Fits a
    → Fits b
    → InInterval prefix a b ↔ InNetwork prefix a b
interval_iff prefix (v4 a) (v4 b) ha hb =
    rw (← leading-unwrap_or 32 prefix) (cidr_interval_iff 32 (unwrap_or prefix 32) a b ha hb)
interval_iff prefix (v6 a) (v6 b) ha hb =
    rw (← leading-unwrap_or 128 prefix) (cidr_interval_iff 128 (unwrap_or prefix 128) a b ha hb)
interval_iff prefix (v4 a) (v6 b) ha hb = ((λ h. h), (λ h. h))
interval_iff prefix (v6 a) (v4 b) ha hb = ((λ h. h), (λ h. h))

abbrev pub IsNormalSet : IpRangeSet → Type 0
IsNormalSet set = IsNormal set.ranges_v4 × IsNormal set.ranges_v6

cidr_interval-proper :
    (width bits a : ℕ) → (cidr_interval width bits a).0 ≤ (cidr_interval width bits a).1
unfolding cidr_interval
cidr_interval-proper width bits a = omega arith

-- What a set holds once an entry has been added, in terms of its interval.
abbrev Inserts : IpRangeSet → Option ℕ → IpAddr → IpRangeSet → Type 0
Inserts set prefix ip after =
    IsNormalSet after
    × (after.prefixes ≡ set.prefixes + 1)
    × ((b : IpAddr)
        → (contains after b ≡ true) ↔ (InInterval prefix ip b ⊎ (contains set b ≡ true)))

module _ (set : IpRangeSet) (r : Interval) where
  abbrev pushed_v4 : IpRangeSet
  pushed_v4 = record set { ranges_v4 = set.ranges_v4 ++ r ∷ []; prefixes = set.prefixes + 1 }

  abbrev pushed_v6 : IpRangeSet
  pushed_v6 = record set { ranges_v6 = set.ranges_v6 ++ r ∷ []; prefixes = set.prefixes + 1 }

  abbrev sorted_v4 : IpRangeSet
  sorted_v4 = record set {
    ranges_v4 = insert_interval set.ranges_v4 r;
    prefixes = set.prefixes + 1;
  }

  abbrev sorted_v6 : IpRangeSet
  sorted_v6 = record set {
    ranges_v6 = insert_interval set.ranges_v6 r;
    prefixes = set.prefixes + 1;
  }

  sorted_in-v4 : sorted_in set pushed_v4 ≡ some sorted_v4
  unfolding sorted_in with_v4
  sorted_in-v4 = rw (grown set.ranges_v4 r, settle_last-append set.ranges_v4 r) refl

  sorted_in-v6 : sorted_in set pushed_v6 ≡ some sorted_v6
  unfolding sorted_in with_v6
  sorted_in-v6 = rw (same_length (length set.ranges_v4), settle_last-append set.ranges_v6 r) refl

holds_v4 :
    (set : IpRangeSet) (prefix : Option ℕ) (a : ℕ)
    → IsNormalSet set
    → (b : IpAddr)
    → (contains (sorted_v4 set (cidr_interval 32 (unwrap_or prefix 32) a)) b ≡ true)
      ↔ (InInterval prefix (v4 a) b ⊎ (contains set b ≡ true))
unfolding contains
holds_v4 set prefix a n (v4 x) =
    let r = cidr_interval 32 (unwrap_or prefix 32) a in
    contains_interval-insert_interval set.ranges_v4 r x
      (cidr_interval-proper 32 (unwrap_or prefix 32) a) n.0
holds_v4 set prefix a n (v6 x) = ((λ h. inr h), (λ h. elim h [ inl bad ↦ absurd bad | inr c ↦ c ]))

add_v4 :
    (set : IpRangeSet) (prefix : Option ℕ) (a : ℕ)
    → IsNormalSet set
    → Inserts set prefix (v4 a) (sorted_v4 set (cidr_interval 32 (unwrap_or prefix 32) a))
add_v4 set prefix a n =
    let r = cidr_interval 32 (unwrap_or prefix 32) a in
    let inserted =
      insert_interval-IsNormal set.ranges_v4 r (cidr_interval-proper 32 (unwrap_or prefix 32) a)
        n.0 in
    ((inserted, n.1), refl, holds_v4 set prefix a n)

holds_v6 :
    (set : IpRangeSet) (prefix : Option ℕ) (a : ℕ)
    → IsNormalSet set
    → (b : IpAddr)
    → (contains (sorted_v6 set (cidr_interval 128 (unwrap_or prefix 128) a)) b ≡ true)
      ↔ (InInterval prefix (v6 a) b ⊎ (contains set b ≡ true))
unfolding contains
holds_v6 set prefix a n (v6 x) =
    let r = cidr_interval 128 (unwrap_or prefix 128) a in
    contains_interval-insert_interval set.ranges_v6 r x
      (cidr_interval-proper 128 (unwrap_or prefix 128) a) n.1
holds_v6 set prefix a n (v4 x) = ((λ h. inr h), (λ h. elim h [ inl bad ↦ absurd bad | inr c ↦ c ]))

add_v6 :
    (set : IpRangeSet) (prefix : Option ℕ) (a : ℕ)
    → IsNormalSet set
    → Inserts set prefix (v6 a) (sorted_v6 set (cidr_interval 128 (unwrap_or prefix 128) a))
add_v6 set prefix a n =
    let r = cidr_interval 128 (unwrap_or prefix 128) a in
    let inserted =
      insert_interval-IsNormal set.ranges_v6 r (cidr_interval-proper 128 (unwrap_or prefix 128) a)
        n.1 in
    ((n.0, inserted), refl, holds_v6 set prefix a n)

push_interval-Inserts :
    (set pushed after : IpRangeSet) (prefix : Option ℕ) (ip : IpAddr)
    → IsNormalSet set
    → push_interval set prefix ip ≡ some pushed
    → sorted_in set pushed ≡ some after
    → Inserts set prefix ip after
unfolding push_interval
push_interval-Inserts set pushed after prefix (v4 a) n h g =
    let r = cidr_interval 32 (unwrap_or prefix 32) a in
    let (bits, h₁) = require-eq-some (leb (unwrap_or prefix 32) 32) (some (pushed_v4 set r)) h in
    let e : pushed_v4 set r ≡ pushed = cc in
    let same : sorted_v4 set r ≡ after = cc (sorted_in-v4 set r) in
    subst (Inserts set prefix (v4 a)) same (add_v4 set prefix a n)
push_interval-Inserts set pushed after prefix (v6 a) n h g =
    let r = cidr_interval 128 (unwrap_or prefix 128) a in
    let (bits, h₁) = require-eq-some (leb (unwrap_or prefix 128) 128) (some (pushed_v6 set r)) h in
    let e : pushed_v6 set r ≡ pushed = cc in
    let same : sorted_v6 set r ≡ after = cc (sorted_in-v6 set r) in
    subst (Inserts set prefix (v6 a)) same (add_v6 set prefix a n)

-- What a set holds once an entry has been added: of the addresses that there are, those of the
-- entry and what it held.
abbrev pub Adds : IpRangeSet → Option ℕ → IpAddr → IpRangeSet → Type 0
Adds set prefix ip after =
    IsNormalSet after
    × (after.prefixes ≡ set.prefixes + 1)
    × ((b : IpAddr)
        → Fits b
        → (contains after b ≡ true) ↔ (InNetwork prefix ip b ⊎ (contains set b ≡ true)))

Inserts-Adds :
    (set after : IpRangeSet) (prefix : Option ℕ) (ip : IpAddr)
    → Fits ip
    → Inserts set prefix ip after
    → Adds set prefix ip after
Inserts-Adds set after prefix ip fits (normal, count, held) = (
  normal,
  count,
  λ b small.
      let (to, from) = held b in
      let (out, back) = interval_iff prefix ip b fits small in
      (
        (λ h. elim (to h) [ inl inside ↦ inl (out inside) | inr before ↦ inr before ]),
        (λ h. elim h [ inl inside ↦ from (inl (back inside)) | inr before ↦ from (inr before) ]),
      ),
)

push_interval-IsPrefix :
    (set pushed : IpRangeSet) (prefix : Option ℕ) (ip : IpAddr)
    → push_interval set prefix ip ≡ some pushed
    → IsPrefix prefix ip
unfolding push_interval
push_interval-IsPrefix set pushed prefix (v4 a) h =
    rw (← leading-unwrap_or 32 prefix)
      (leb→le (unwrap_or prefix 32) 32 (require-eq-some (leb (unwrap_or prefix 32) 32) _ h).0)
push_interval-IsPrefix set pushed prefix (v6 a) h =
    rw (← leading-unwrap_or 128 prefix)
      (leb→le (unwrap_or prefix 128) 128 (require-eq-some (leb (unwrap_or prefix 128) 128) _ h).0)

-- The entry that a text reads as, with a prefix that its family has, was added to a set.
abbrev pub IsAdded : (List ℕ → Option IpAddr) → IpRangeSet → List ℕ → IpRangeSet → Type 0
IsAdded parse_ip set cidr after =
    (text : List ℕ) × (prefix : Option ℕ) × (ip : IpAddr) × (cidr_parts cidr (split_once b'/' cidr)
      ≡ some (text, prefix))
    × (parse_ip text ≡ some ip)
    × IsPrefix prefix ip
    × Adds set prefix ip after

module _ (parse_ip : List ℕ → Option IpAddr) where
  -- A set in normal form to which a CIDR was added is in normal form, counts one prefix more, and
  -- holds what it held and the addresses of the entry that the text reads as: those of its family
  -- that agree with it on the leading bits of its prefix, of which there are no more than its
  -- family has. The numbers of addresses fit their family.
  pub add_cidr-Adds :
      ((text : List ℕ) (ip : IpAddr) → parse_ip text ≡ some ip → Fits ip)
      → (set after : IpRangeSet) (cidr : List ℕ) → IsNormalSet set
      → add_cidr parse_ip set cidr ≡ some after
      → IsAdded parse_ip set cidr after
  unfolding add_cidr push_cidr
  add_cidr-Adds fits set after cidr n h =
      let (pushed, h₁, g) = >>=-eq-some (push_cidr parse_ip set cidr) (sorted_in set) h in
      let ((text, prefix), read, h₂) = >>=-eq-some (cidr_parts cidr (split_once b'/' cidr)) _ h₁ in
      let (ip, found, h₃) = >>=-eq-some (parse_ip text) _ h₂ in
      let inserted = push_interval-Inserts set pushed after prefix ip n h₃ g in
      (
        text,
        prefix,
        ip,
        read,
        found,
        push_interval-IsPrefix set pushed prefix ip h₃,
        Inserts-Adds set after prefix ip (fits text ip found) inserted,
      )

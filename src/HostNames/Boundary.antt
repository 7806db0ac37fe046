-- ===== src/HostNames/Boundary.antt =====
-- A host is matched on the boundary of a label: src/pow-gate-core/src/ranges.rs.
use ngx_http_pow_gate.Common.{
  ℕ, ◌-◌, ◌≤◌, ◌≡◌, ◌≢◌, ◌↔◌, refl, arith, Bool, true, false, ◌&&◌, ◌||◌, leb, Option, none, some,
  List, [], ◌∷◌, ◌++◌, length, take, drop, length-append, take-append-drop, Bool-cases, inl, inr,
  ◌⊎◌, &&-left, &&-right, sym, ap, ◌∙◌, ==_iff,
}
use ngx_http_pow_gate.Common.Bytes.{eq_bytes, eq_bytes→≡, eq_bytes_refl}
use ngx_http_pow_gate.Context.{IpAddr, v4, v6}
use ngx_http_pow_gate.HostNames.{
  clean_host, clean_suffix, ends_with, cleaned_match, host_matches_suffix, any_suffix, same_address,
  among, fcrdns_confirms, fcrdns_confirm, confirmed_host,
}

-- The host is the suffix, or a name under it.
abbrev pub Under : (host suffix : List ℕ) → Type 0
Under host suffix = (host ≡ suffix) ⊎ ((labels : List ℕ) × (host ≡ labels ++ b'.' ∷ suffix))

ends_with-under :
    (s end : List ℕ) → ends_with s end ≡ true → (before : List ℕ) × (s ≡ before ++ end)
unfolding ends_with
ends_with-under s end h =
    let same = eq_bytes→≡ (drop (length s - length end) s) end (&&-right _ _ h) in
    (
      take (length s - length end) s,
      sym (take-append-drop (length s - length end) s)
          ∙ ap (λ t. take (length s - length end) s ++ t) same,
    )

drop-append : (a b : List ℕ) → drop (length a) (a ++ b) ≡ b
drop-append [] b = refl
drop-append (c ∷ a) b = drop-append a b

ends_with-append : (a b : List ℕ) → ends_with (a ++ b) b ≡ true
unfolding ends_with
ends_with-append a b =
    let size : length (a ++ b) - length b ≡ length a = omega (arith, length-append a b) in
    let fits : leb (length b) (length (a ++ b)) ≡ true =
      long (length b) (length (a ++ b)) (omega (arith, length-append a b)) in
    rw (fits, size, drop-append a b, eq_bytes_refl b)
  where
    long : (m n : ℕ) → m ≤ n → leb m n ≡ true
    long m n h = ground arith

-- The host matches the suffix: neither is empty, and the host is the suffix or ends in it behind
-- a dot.
abbrev pub Matches : (host suffix : List ℕ) → Type 0
Matches host suffix = (host ≢ []) × (suffix ≢ []) × Under host suffix

cleaned_match_iff :
    (host suffix : List ℕ) → (cleaned_match host suffix ≡ true) ↔ Matches host suffix
cleaned_match_iff [] suffix = (λ e. absurd (cc e), λ m. absurd (m.0 refl))
cleaned_match_iff (c ∷ host) [] = (λ e. absurd (cc e), λ m. absurd (m.1 refl))
cleaned_match_iff (c ∷ host) (d ∷ suffix) =
    (λ e. (λ k. absurd (cc k), λ k. absurd (cc k), sides e), λ m. back m.2)
  where
    sides :
        (eq_bytes (c ∷ host) (d ∷ suffix) || ends_with (c ∷ host) (b'.' ∷ d ∷ suffix)) ≡ true
        → Under (c ∷ host) (d ∷ suffix)
    sides e = elim (Bool-cases (eq_bytes (c ∷ host) (d ∷ suffix))) [
      | inl same ↦ inl (eq_bytes→≡ (c ∷ host) (d ∷ suffix) same)
      | inr differ ↦ inr (ends_with-under (c ∷ host) (b'.' ∷ d ∷ suffix) (rw differ at e))
    ]

    back :
        Under (c ∷ host) (d ∷ suffix)
        → (eq_bytes (c ∷ host) (d ∷ suffix) || ends_with (c ∷ host) (b'.' ∷ d ∷ suffix)) ≡ true
    back (inl e) = rw (← e) (rw (eq_bytes_refl (c ∷ host)))
    back (inr (labels, e)) = elim (Bool-cases (eq_bytes (c ∷ host) (d ∷ suffix))) [
      | inl same ↦ rw same
      | inr differ ↦ rw differ (rw e (ends_with-append labels (b'.' ∷ d ∷ suffix)))
    ]

abbrev pub AnySuffix : List ℕ → List (List ℕ) → Type 0
AnySuffix host [] = ⊥
AnySuffix host (suffix ∷ suffixes) =
    Matches (clean_host host) (clean_suffix suffix) ⊎ AnySuffix host suffixes

||_iff : {A B : Type 0} (a b : Bool) → (a ≡ true) ↔ A → (b ≡ true) ↔ B → ((a || b) ≡ true) ↔ (A ⊎ B)
||_iff true b f g = (λ e. inl (f.0 refl), λ e. refl)
||_iff false b f g = (λ e. inr (g.0 e), λ e. elim e [ inl x ↦ absurd (cc (f.1 x)) | inr y ↦ g.1 y ])

any_suffix_iff :
    (host : List ℕ) (suffixes : List (List ℕ))
    → (any_suffix host suffixes ≡ true) ↔ AnySuffix host suffixes
unfolding any_suffix host_matches_suffix
any_suffix_iff host [] = (λ e. absurd (cc e), λ a. elim a [ ])
any_suffix_iff host (suffix ∷ suffixes) =
    ||_iff _ _ (cleaned_match_iff (clean_host host) (clean_suffix suffix))
      (any_suffix_iff host suffixes)

abbrev pub Among : IpAddr → List IpAddr → Type 0
Among ip [] = ⊥
Among ip (first ∷ ips) = (first ≡ ip) ⊎ Among ip ips

pub same_address_iff : (a b : IpAddr) → (same_address a b ≡ true) ↔ (a ≡ b)
same_address_iff (v4 a) (v4 b) = (λ e. ap v4 ((==_iff a b).0 e), λ e. (==_iff a b).1 (cc))
same_address_iff (v4 a) (v6 b) = (λ e. absurd (cc e), λ e. absurd (cc e))
same_address_iff (v6 a) (v4 b) = (λ e. absurd (cc e), λ e. absurd (cc e))
same_address_iff (v6 a) (v6 b) = (λ e. ap v6 ((==_iff a b).0 e), λ e. (==_iff a b).1 (cc))

among_iff : (ip : IpAddr) (ips : List IpAddr) → (among ip ips ≡ true) ↔ Among ip ips
unfolding among
among_iff ip [] = (λ e. absurd (cc e), λ a. elim a [ ])
among_iff ip (first ∷ ips) = ||_iff _ _ (same_address_iff first ip) (among_iff ip ips)

-- An address is confirmed as a bot's exactly if its own reverse name is, up to case and dots at
-- the ends, one of the suffixes or a name under one, on the boundary of a label, and that same
-- name resolves to the address.
pub fcrdns_confirm_iff :
    (reverse_dns : IpAddr → Option (List ℕ)) (forward_dns : List ℕ → List IpAddr) (ip : IpAddr)
    (suffixes : List (List ℕ))
    → (fcrdns_confirm reverse_dns forward_dns ip suffixes ≡ true) ↔ (
        (host : List ℕ) × (reverse_dns ip ≡ some host)
        × AnySuffix host suffixes
        × Among ip (forward_dns host))
unfolding fcrdns_confirm fcrdns_confirms
fcrdns_confirm_iff reverse_dns forward_dns ip suffixes = named (reverse_dns ip)
  where
    both :
        (host named_host : List ℕ)
        → host ≡ named_host
        → AnySuffix named_host suffixes
        → Among ip (forward_dns named_host)
        → (any_suffix host suffixes && among ip (forward_dns host)) ≡ true
    both host named_host e a b =
        rw e (
          rw
            ((any_suffix_iff named_host suffixes).1 a, (among_iff ip (forward_dns named_host)).1 b))

    named :
        (name : Option (List ℕ))
        → (confirmed_host suffixes ip forward_dns name ≡ true) ↔ (
            (host : List ℕ) × (name ≡ some host)
            × AnySuffix host suffixes
            × Among ip (forward_dns host))
    named none = (λ e. absurd (cc e), λ h. absurd (cc h.1))
    named (some host) = (
      λ e. (
        host,
        refl,
        (any_suffix_iff host suffixes).0 (&&-left _ _ e),
        (among_iff ip (forward_dns host)).0 (&&-right _ _ e),
      ),
      λ h. both host h.0 (cc h.1) h.2 h.3,
    )

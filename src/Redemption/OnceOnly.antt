-- ===== src/Redemption/OnceOnly.antt =====
-- A challenge is redeemed at most once, over every sequence of redemptions by all the workers.
-- The zone's lock puts the critical sections in one order, which is the order of the list here.
use ngx_http_pow_gate.Common.{
  ℕ, suc, ◌≤◌, ◌≡◌, ◌≢◌, refl, inl, inr, ◌⊎◌, Bool, true, false, arith, if◌then◌else◌, Bool-cases,
  Option, none, some, List, [], ◌∷◌, ◌&&◌, &&-left, &&-right, subst, All,
}
use ngx_http_pow_gate.Common.Int.{ℤ, leb_ℤ, max_ℤ, ◌≤ℤ◌, ◌<ℤ◌, max_ℤ_bounds, leb_ℤ→≤ℤ, leb_ℤ-false}
use ngx_http_pow_gate.Common.Bytes.{eq_bytes, eq_bytes→≡}
use ngx_http_pow_gate.Redemption.Consume.{
  Spent, Recorded, Explains, consume-Explains, Recorded-Spent, accepted-Recorded, consume-Recorded,
}
use ngx_http_pow_gate.Redemption.{
  Entry, consume, Outcome, accepted, reused, full, expired, State, id_of, redeem, consume_shared,
}

-- A call of the worker's `consume`, with the clock that it read inside the lock.
pub record Request : Type 0 where
  pub token : List ℕ
  pub expires : ℤ
  pub clock : ℤ

abbrev pub is_accepted : Outcome → Bool
is_accepted accepted = true
is_accepted reused = false
is_accepted full = false
is_accepted expired = false

is_accepted-false : (o : Outcome) → o ≢ accepted → is_accepted o ≡ false
is_accepted-false o h = ground arith

is_accepted-true : (o : Outcome) → is_accepted o ≡ true → o ≡ accepted
is_accepted-true o h = ground arith

-- The record is there while the challenge lives; once it does not, the clock has passed it.
abbrev IsClosed : List ℕ → ℤ → State → Type 0
IsClosed id expires s = (expires ≤ℤ s.last_now) ⊎ Recorded s.entries id expires

consume-eq_accepted :
    (entries : List Entry) (id : List ℕ) (expires now : ℤ)
    → (consume entries id expires now).0 ≡ accepted
    → (now <ℤ expires) × (¬ Spent entries id now)
consume-eq_accepted entries id expires now h =
    go (consume entries id expires now) (consume-Explains entries id expires now) h
  where
    go :
        (r : Outcome × List Entry)
        → Explains entries id expires now r
        → r.0 ≡ accepted
        → (now <ℤ expires) × (¬ Spent entries id now)
    go (expired, after) x h = absurd (cc)
    go (reused, after) x h = absurd (cc)
    go (full, after) x h = absurd (cc)
    go (accepted, after) x h = (x.0, x.1)

module _ (sha256 : List ℕ → List ℕ) where
  -- The calls that a list of requests makes, and how many of those for `id` are accepted.
  unfoldable pub grants : List ℕ → Option State → List Request → ℕ
  grants id z [] = 0
  grants id z (r ∷ rs) =
      let done = consume_shared sha256 z r.token r.expires r.clock in
      let more = grants id done.1 rs in
      if eq_bytes (id_of sha256 r.token) id && is_accepted done.0 then suc more else more

  redeem-IsClosed :
      (id : List ℕ) (expires : ℤ) (s : State) (token : List ℕ) (its clock : ℤ)
      → IsClosed id expires s
      → IsClosed id expires (redeem sha256 s token its clock).1
  unfolding redeem
  redeem-IsClosed id expires s token its clock (inl late) =
      inl (omega (arith, max_ℤ_bounds clock s.last_now))
  redeem-IsClosed id expires s token its clock (inr recorded) =
      let now = max_ℤ clock s.last_now in
      elim (Bool-cases (leb_ℤ expires now)) [
        | inl late ↦ inl (leb_ℤ→≤ℤ expires now late)
        | inr live ↦ inr (
            consume-Recorded s.entries id (id_of sha256 token) expires its now recorded
              (leb_ℤ-false expires now live))
      ]

  redeem-refused :
      (expires : ℤ) (s : State) (token : List ℕ) (clock : ℤ)
      → IsClosed (id_of sha256 token) expires s
      → (redeem sha256 s token expires clock).0 ≢ accepted
  unfolding redeem
  redeem-refused expires s token clock closed h =
      let now = max_ℤ clock s.last_now in
      let id = id_of sha256 token in
      let (live, unspent) = consume-eq_accepted s.entries id expires now h in
      elim closed [
        | inl late ↦ absurd (omega (arith, max_ℤ_bounds clock s.last_now))
        | inr recorded ↦ unspent (Recorded-Spent s.entries id expires now recorded live)
      ]

  redeem-accepted :
      (expires : ℤ) (s : State) (token : List ℕ) (clock : ℤ)
      → (redeem sha256 s token expires clock).0 ≡ accepted
      → IsClosed (id_of sha256 token) expires (redeem sha256 s token expires clock).1
  unfolding redeem
  redeem-accepted expires s token clock h =
      inr (accepted-Recorded s.entries (id_of sha256 token) expires (max_ℤ clock s.last_now) h)

  -- The authenticated expiry is a part of the challenge, so the requests for one id agree on it.
  abbrev pub Agree : List ℕ → ℤ → List Request → Type 0
  Agree id expires = All (λ r. id_of sha256 r.token ≡ id → r.expires ≡ expires)

  grants-closed :
      (id : List ℕ) (expires : ℤ) (s : State) (rs : List Request)
      → IsClosed id expires s
      → Agree id expires rs
      → grants id (some s) rs ≡ 0
  unfolding grants consume_shared
  grants-closed id expires s [] closed agree = refl
  grants-closed id expires s (r ∷ rs) closed agree =
      let later = redeem-IsClosed id expires s r.token r.expires r.clock closed in
      let rest =
        grants-closed id expires (redeem sha256 s r.token r.expires r.clock).1 rs later agree.1 in
      elim (Bool-cases (eq_bytes (id_of sha256 r.token) id)) [
        | inr other ↦ rw other rest
        | inl same ↦
            let e = eq_bytes→≡ (id_of sha256 r.token) id same in
            rw (same, refused r agree closed e) rest
      ]
    where
      refused :
          (r : Request)
          → Agree id expires (r ∷ rs)
          → IsClosed id expires s
          → id_of sha256 r.token ≡ id
          → is_accepted (redeem sha256 s r.token r.expires r.clock).0 ≡ false
      refused r agree closed e =
          is_accepted-false _
            (redeem-refused r.expires s r.token r.clock (rw (e, agree.0 e) closed))

  grants-none : (id : List ℕ) (rs : List Request) → grants id none rs ≡ 0
  unfolding grants consume_shared
  grants-none id [] = refl
  grants-none id (r ∷ rs) = ground (arith, grants-none id rs)

  -- Over any sequence of redemptions, whatever the clock reads and whichever other tokens come
  -- between, the calls for one id, which agree on its expiry, are accepted at most once.
  pub grants-le-one :
      (id : List ℕ) (expires : ℤ) (z : Option State) (rs : List Request)
      → Agree id expires rs
      → grants id z rs ≤ 1
  unfolding grants consume_shared
  grants-le-one id expires z [] agree = omega arith
  grants-le-one id expires none (r ∷ rs) agree = omega (arith, grants-none id (r ∷ rs))
  grants-le-one id expires (some s) (r ∷ rs) agree =
      let after = redeem sha256 s r.token r.expires r.clock in
      let rest = grants-le-one id expires (some after.1) rs agree.1 in
      elim (Bool-cases (eq_bytes (id_of sha256 r.token) id && is_accepted after.0)) [
        | inr other ↦ rw other rest
        | inl both ↦
            let e = eq_bytes→≡ (id_of sha256 r.token) id (&&-left _ _ both) in
            let closed : IsClosed id expires after.1 =
              subst (λ x. IsClosed id x after.1) (agree.0 e)
                (subst (λ x. IsClosed x r.expires after.1) e
                  (redeem-accepted r.expires s r.token r.clock
                    (is_accepted-true after.0 (&&-right _ _ both)))) in
            rw both (omega (arith, grants-closed id expires after.1 rs closed agree.1))
      ]

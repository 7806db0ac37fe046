-- ===== src/Redis/Script.antt =====
-- What the redemption script promises: `CONSUME` of src/pow-gate-core/src/redis.rs.
use ngx_http_pow_gate.Common.{
  ℕ, ◌≡◌, ◌≢◌, refl, arith, if◌then◌else◌, some, List, Bool-cases, inl, inr, ◌⊎◌, Option-cases, ap,
  sym, subst, some_injective, ◌∙◌,
}
use ngx_http_pow_gate.Common.Int.{
  ℤ, pos, ltb_ℤ, leb_ℤ, max_ℤ, abs_diff, ◌+ℤ◌, ◌-ℤ◌, ◌≤ℤ◌, ◌<ℤ◌, +ℤ_parts, -ℤ_parts, leb_ℤ-false,
  max_ℤ_bounds,
}
use ngx_http_pow_gate.Common.Bytes.{codes}
use ngx_http_pow_gate.Redis.{
  Server, Keys, Arguments, number_at, same_text, seconds, spend, consume_script,
}
use ngx_http_pow_gate.Redis.Markers.{
  IsServer, Call, keys_of, run, runs, NoneAfter, Marked, keys-apart, passed-Marked, runs-Marked,
}

module _ (server : Server) (k : Keys) (a : Arguments) where
  -- An accepted run: the clocks agreed, the token was in time by the later of the server's clock
  -- and the clock key, and its marker was not there and has been set.
  pub record Accepted (db : server.Db) (current : ℤ) (db' : server.Db) : Type 0 where
    pub previous : ℤ
    pub clocked : number_at server db k.clock_key ≡ some previous
    pub before : server.Db
    pub kept : (before ≡ db) ⊎ ((text : List ℕ) × (before ≡ server.set db k.clock_key text))
    pub in_time : max_ℤ current previous <ℤ a.expires
    pub marked :
        server.set_nx_ex before k.spent_key
          (codes "1")
          (seconds server a (max_ℤ current previous))
          current
        ≡ some db'

  kept_before :
      (db : server.Db) (previous now : ℤ)
      → let db1 : server.Db =
          if ltb_ℤ previous now then server.set db k.clock_key (server.tostring now) else db in
        (db1 ≡ db) ⊎ ((text : List ℕ) × (db1 ≡ server.set db k.clock_key text))
  kept_before db previous now = elim (Bool-cases (ltb_ℤ previous now)) [
    | inl ahead ↦ rw ahead (inr (server.tostring now, refl))
    | inr behind ↦ rw behind (inl refl)
  ]

  spend-Accepted :
      (db : server.Db) (current previous : ℤ) (db' : server.Db)
      → number_at server db k.clock_key ≡ some previous
      → spend server db k a current previous ≡ (pos 1, db')
      → Accepted db current db'
  unfolding spend
  spend-Accepted db current previous db' e h =
      let now = max_ℤ current previous in
      let db1 : server.Db =
        if ltb_ℤ previous now then server.set db k.clock_key (server.tostring now) else db in
      elim (Bool-cases (leb_ℤ a.expires now)) [
        | inl late ↦ absurd (cc (rw late at h))
        | inr early ↦
            elim (Option-cases
              (server.set_nx_ex db1 k.spent_key (codes "1") (seconds server a now) current)) [
                | inl there ↦ absurd (cc (rw (early, there) at h))
                | inr (db2, e2) ↦
                    let same : db2 ≡ db' = cc (rw (early, e2) at h) in
                    record {
                      previous = previous;
                      clocked = e;
                      before = db1;
                      kept = kept_before db previous now;
                      in_time = leb_ℤ-false a.expires now early;
                      marked = e2 ∙ ap some same;
                    }
              ]
      ]

  pub consume_script-Accepted :
      (db : server.Db) (current : ℤ) (db' : server.Db)
      → consume_script server db k a current ≡ (pos 1, db')
      → Accepted db current db'
  unfolding consume_script
  consume_script-Accepted db current db' h =
      elim (Bool-cases (same_text server (server.get db k.epoch_key) a.epoch)) [
        | inr other ↦ absurd (cc (rw other at h))
        | inl same ↦ elim (Option-cases (number_at server db k.clock_key)) [
          | inl nothing ↦ absurd (cc (rw (same, nothing) at h))
          | inr (previous, found) ↦
              elim (Bool-cases (ltb_ℤ a.skew (pos (abs_diff current a.clock)))) [
                | inl apart ↦ absurd (cc (rw (same, found, apart) at h))
                | inr near ↦
                    spend-Accepted db current previous db' found (rw (same, found, near) at h)
              ]
        ]
      ]

-- The seconds of a marker reach past the end of its token.
reaches :
    (server : Server) (a : Arguments) (current now : ℤ)
    → now ≤ℤ current +ℤ a.skew +ℤ pos 1
    → a.expires ≤ℤ current +ℤ seconds server a now
reaches server a current now back = omega (
  arith,
  +ℤ_parts current (seconds server a now),
  +ℤ_parts (a.expires -ℤ now +ℤ a.skew) (pos 1),
  +ℤ_parts (a.expires -ℤ now) a.skew,
  -ℤ_parts a.expires now,
  +ℤ_parts (current +ℤ a.skew) (pos 1),
  +ℤ_parts current a.skew,
)

below_trans : (x y z : ℤ) → x <ℤ y → y ≤ℤ z → x <ℤ z
below_trans x y z h g = omega arith

in_time_lem : (later previous expires : ℤ) → max_ℤ later previous <ℤ expires → later <ℤ expires
in_time_lem later previous expires h = omega (arith, (max_ℤ_bounds later previous).0)

within : (c p skew : ℤ) → pos 0 ≤ℤ skew → p ≤ℤ c +ℤ skew +ℤ pos 1 → max_ℤ c p ≤ℤ c +ℤ skew +ℤ pos 1
within c p skew positive h =
    let sum = +ℤ_parts (c +ℤ skew) (pos 1) in
    let part = +ℤ_parts c skew in
    elim (Bool-cases (leb_ℤ c p)) [ inl ahead ↦ rw ahead h | inr behind ↦ rw behind (omega arith) ]

module _ (server : Server) (k : Keys) (a : Arguments) (db : server.Db) (current : ℤ) where
  accepted :
      (consume_script server db k a current).0 ≡ pos 1
      → Accepted server k a db current (consume_script server db k a current).1
  accepted h =
      consume_script-Accepted server k a db current (consume_script server db k a current).1 (cc h)

  accepted-early : (consume_script server db k a current).0 ≡ pos 1 → current <ℤ a.expires
  accepted-early h = in_time_lem current (accepted h).previous a.expires (accepted h).in_time

  -- A token whose marker is there is not accepted.
  Marked-refused :
      (laws : IsServer server) (until : ℤ)
      → k.clock_key ≢ k.spent_key
      → Marked server laws k.spent_key until db
      → (consume_script server db k a current).0 ≢ pos 1
  Marked-refused laws until apart (held, ends) h =
      let acc = accepted h in
      let now = max_ℤ current acc.previous in
      let there : server.get acc.before k.spent_key ≡ some (codes "1") = elim acc.kept [
        | inl same ↦ rw same held
        | inr (text, same) ↦
            rw same ((laws.set_others db k.clock_key k.spent_key text apart).0 ∙ held)
      ] in
      cc (
        laws.there acc.before k.spent_key (codes "1") (codes "1") (seconds server a now) current
            there,
        acc.marked,
      )

-- An accepted run has set the marker of its token, for its seconds.
first-Marked :
    (server : Server) (laws : IsServer server) (k : Keys) (a : Arguments) (db : server.Db)
    (current previous : ℤ)
    → number_at server db k.clock_key ≡ some previous
    → (consume_script server db k a current).0 ≡ pos 1
    → Marked server laws k.spent_key
        (current +ℤ seconds server a (max_ℤ current previous))
        (consume_script server db k a current).1
first-Marked server laws k a db current previous clocked first =
    let db' = (consume_script server db k a current).1 in
    let acc = consume_script-Accepted server k a db current db' (cc first) in
    let same : acc.previous ≡ previous =
      some_injective acc.previous previous (sym acc.clocked ∙ clocked) in
    rw (← same) (
      laws.set_nx_ex_there acc.before db' k.spent_key (codes "1")
        (seconds server a (max_ℤ current acc.previous)) current acc.marked)

module _ (server : Server) (laws : IsServer server) (sha256 : List ℕ → List ℕ)
    (namespace : List ℕ) where
  -- A token that a run of the script has redeemed is not redeemed by a later run that names the
  -- same epoch and expiry, after any runs for any tokens of the namespace in between, if the
  -- server's clock has shown no more than it shows at the later run in any of those, and if the
  -- clock key was ahead of the server's clock by at most the allowed skew and one second at the
  -- first run. With the clock set back further, the marker ends before the token does.
  pub consume_script-once :
      (db : server.Db) (a b : Call) (calls : List Call) (previous : ℤ)
      → (run server laws sha256 namespace db a).0 ≡ pos 1
      → number_at server (laws.passed a.time db) (keys_of server laws sha256 namespace a).clock_key
        ≡ some previous
      → previous ≤ℤ a.time +ℤ a.arguments.skew +ℤ pos 1
      → pos 0 ≤ℤ a.arguments.skew
      → b.presented ≡ a.presented
      → b.arguments.epoch ≡ a.arguments.epoch
      → b.arguments.expires ≡ a.arguments.expires
      → NoneAfter b.time calls
      → (run server laws sha256 namespace
          (runs server laws sha256 namespace (run server laws sha256 namespace db a).1 calls)
          b).0
        ≢ pos 1
  consume_script-once db a b calls previous first clocked back skew token epoch same before second =
      let k = keys_of server laws sha256 namespace a in
      let now = max_ℤ a.time previous in
      let until = a.time +ℤ seconds server a.arguments now in
      let after =
        runs server laws sha256 namespace (run server laws sha256 namespace db a).1 calls in
      let kb = keys_of server laws sha256 namespace b in
      let db' = laws.passed b.time after in
      let fresh : b.time <ℤ a.arguments.expires =
        subst (λ e. b.time <ℤ e) same (accepted-early server kb b.arguments db' b.time second) in
      let alive : b.time <ℤ until = below_trans b.time a.arguments.expires until fresh (
        reaches server a.arguments a.time now
          (within a.time previous a.arguments.skew skew back)) in
      let marked =
        runs-Marked server laws sha256 namespace a.arguments.epoch a.presented until b.time
          (run server laws sha256 namespace db a).1 calls alive before
          (first-Marked server laws k a.arguments (laws.passed a.time db) a.time previous clocked
            first) in
      let one_key : k.spent_key ≡ kb.spent_key = rw (token, epoch) refl in
      Marked-refused server kb b.arguments db' b.time laws until
        (keys-apart sha256 namespace b.arguments.epoch b.arguments.epoch b.presented b.presented)
        (subst (λ key. Marked server laws key until db') one_key
          (passed-Marked server laws k.spent_key until after b.time alive marked))
        second

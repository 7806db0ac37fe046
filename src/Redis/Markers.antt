-- ===== src/Redis/Markers.antt =====
-- The markers of a Redis server, which keep a token from being redeemed again: the keys of
-- `CONSUME` in src/pow-gate-core/src/redis.rs, through any runs of it.
use ngx_http_pow_gate.Common.{
  ℕ, ◌<◌, ◌≡◌, ◌≢◌, arith, Bool, true, false, if◌then◌else◌, Option, none, some, List, [], ◌∷◌,
  ◌++◌, Bool-cases, Option-cases, inl, inr, ap, ◌∙◌, length, length-append,
}
use ngx_http_pow_gate.Common.Int.{ℤ, pos, ltb_ℤ, leb_ℤ, max_ℤ, abs_diff, ◌+ℤ◌, ◌≤ℤ◌, ◌<ℤ◌}
use ngx_http_pow_gate.Common.Bytes.{codes, eq_bytes, eq_bytes_iff}
use ngx_http_pow_gate.Mac.{hex}
use ngx_http_pow_gate.Redis.{
  Server, Keys, Arguments, number_at, same_text, seconds, spend, spent, with_previous,
  consume_script, keys, base,
}

-- What Redis documents of the commands and of the time to live of a key: a key that is there is
-- not set again, one that is set by NX EX is there until its seconds have passed, and setting a
-- key leaves the others. `deadline` is EXPIRETIME; `passed` is the data as a script finds it at a
-- time, without the keys that have ended by then.
pub record IsServer (server : Server) : Type 0 where
  pub deadline : server.Db → List ℕ → Option ℤ
  pub passed : ℤ → server.Db → server.Db
  pub there :
      (db : server.Db) (key v w : List ℕ) (secs current : ℤ)
      → server.get db key ≡ some v
      → server.set_nx_ex db key w secs current ≡ none
  pub set_others :
      (db : server.Db) (key other v : List ℕ)
      → key ≢ other
      → (server.get (server.set db key v) other ≡ server.get db other)
        × (deadline (server.set db key v) other ≡ deadline db other)
  pub set_nx_ex_there :
      (db db' : server.Db) (key w : List ℕ) (secs current : ℤ)
      → server.set_nx_ex db key w secs current ≡ some db'
      → (server.get db' key ≡ some w) × (deadline db' key ≡ some (current +ℤ secs))
  pub set_nx_ex_others :
      (db db' : server.Db) (key other w : List ℕ) (secs current : ℤ)
      → key ≢ other
      → server.set_nx_ex db key w secs current ≡ some db'
      → (server.get db' other ≡ server.get db other) × (deadline db' other ≡ deadline db other)
  pub lives :
      (db : server.Db) (key : List ℕ) (until current : ℤ)
      → deadline db key ≡ some until
      → current <ℤ until
      → (server.get (passed current db) key ≡ server.get db key)
        × (deadline (passed current db) key ≡ some until)

length-keys :
    (b epoch id : List ℕ)
    → length (b ++ codes ":clock") < length (b ++ codes ":" ++ epoch ++ codes ":spent:" ++ id)
length-keys b epoch id = omega (
  arith,
  length-append b (codes ":clock"),
  length-append (b ++ codes ":" ++ epoch ++ codes ":spent:") id,
  length-append (b ++ codes ":" ++ epoch) (codes ":spent:"),
  length-append (b ++ codes ":") epoch,
  length-append b (codes ":"),
)

-- The clock of a namespace is never where one of its markers is.
pub keys-apart :
    (sha256 : List ℕ → List ℕ) (namespace epoch other token presented : List ℕ)
    → (keys sha256 namespace other presented).clock_key
      ≢ (keys sha256 namespace epoch token).spent_key
unfolding keys
keys-apart sha256 namespace epoch other token presented e =
    absurd (omega (arith, length-keys (base namespace) epoch (hex (sha256 token)), ap length e))

-- One run of the script: the time of the server, the token, and the arguments.
pub record Call : Type 0 where
  pub time : ℤ
  pub presented : List ℕ
  pub arguments : Arguments

module _ (server : Server) (laws : IsServer server) (sha256 : List ℕ → List ℕ)
    (namespace : List ℕ) where
  abbrev pub keys_of : Call → Keys
  keys_of call = keys sha256 namespace call.arguments.epoch call.presented

  -- A run at its time, and the runs of a list, the first one first.
  abbrev pub run : server.Db → Call → ℤ × server.Db
  run db call =
      consume_script server (laws.passed call.time db) (keys_of call) call.arguments call.time

  unfoldable pub runs : server.Db → List Call → server.Db
  runs db [] = db
  runs db (call ∷ calls) = runs (run db call).1 calls

-- The server's clock shows no more than this in any of the runs.
unfoldable pub NoneAfter : ℤ → List Call → Type 0
NoneAfter later [] = Unit
NoneAfter later (call ∷ calls) = (call.time ≤ℤ later) × NoneAfter later calls

module _ (server : Server) (laws : IsServer server) (key : List ℕ) (until : ℤ) where
  -- The marker is there, until its end.
  abbrev pub Marked : server.Db → Type 0
  Marked db = (server.get db key ≡ some (codes "1")) × (laws.deadline db key ≡ some until)

  module _ (k : Keys) (apart : k.clock_key ≢ key) where
    clock_set-Marked :
        (db : server.Db) (ahead : Bool) (text : List ℕ)
        → Marked db
        → Marked (if ahead then server.set db k.clock_key text else db)
    clock_set-Marked db true text (held, ends) =
        let (g, d) = laws.set_others db k.clock_key key text apart in (g ∙ held, d ∙ ends)
    clock_set-Marked db false text m = m

    spent-Marked :
        (db : server.Db) (secs current : ℤ)
        → Marked db
        → Marked (spent server db (server.set_nx_ex db k.spent_key (codes "1") secs current)).1
    spent-Marked db secs current (held, ends) =
        elim (Option-cases (server.set_nx_ex db k.spent_key (codes "1") secs current)) [
          | inl there ↦ rw there (held, ends)
          | inr (db', e) ↦ elim (Bool-cases (eq_bytes k.spent_key key)) [
            | inl same ↦
                let here = (eq_bytes_iff k.spent_key key).0 same in
                absurd (
                  cc (
                    e,
                    laws.there db k.spent_key (codes "1") (codes "1") secs current (rw here held),
                  ))
            | inr other ↦
                let differ : k.spent_key ≢ key =
                  λ here. absurd (cc ((eq_bytes_iff k.spent_key key).1 here)) in
                let (g, d) =
                  laws.set_nx_ex_others db db' k.spent_key key (codes "1") secs current differ e in
                rw e (g ∙ held, d ∙ ends)
          ]
        ]

    spend-Marked :
        (db : server.Db) (a : Arguments) (current previous : ℤ)
        → Marked db
        → Marked (spend server db k a current previous).1
    unfolding spend
    spend-Marked db a current previous m =
        let now = max_ℤ current previous in
        elim (Bool-cases (leb_ℤ a.expires now)) [
          | inl late ↦ rw late m
          | inr early ↦ rw early (
              spent-Marked _ (seconds server a now) current
                (clock_set-Marked db (ltb_ℤ previous now) (server.tostring now) m))
        ]

    consume_script-Marked :
        (db : server.Db) (a : Arguments) (current : ℤ)
        → Marked db
        → Marked (consume_script server db k a current).1
    unfolding consume_script
    consume_script-Marked db a current m =
        elim (Bool-cases (same_text server (server.get db k.epoch_key) a.epoch)) [
          | inr other ↦ rw other m
          | inl same ↦ rw same (by_clock (number_at server db k.clock_key))
        ]
      where
        by_clock : (n : Option ℤ) → Marked (with_previous server db k a current n).1
        by_clock none = m
        by_clock (some previous) =
            elim (Bool-cases (ltb_ℤ a.skew (pos (abs_diff current a.clock)))) [
              | inl apart_clocks ↦ rw apart_clocks m
              | inr near ↦ rw near (spend-Marked db a current previous m)
            ]

  -- Time that does not reach its end leaves a marker alone.
  pub passed-Marked :
      (db : server.Db) (current : ℤ)
      → current <ℤ until
      → Marked db
      → Marked (laws.passed current db)
  passed-Marked db current early (held, ends) =
      let (g, d) = laws.lives db key until current ends early in (g ∙ held, d)

module _ (server : Server) (laws : IsServer server) (sha256 : List ℕ → List ℕ)
    (namespace epoch token : List ℕ) (until later : ℤ) where
  -- Runs for whatever tokens keep a marker that ends after the last of them.
  pub runs-Marked :
      (db : server.Db) (calls : List Call)
      → later <ℤ until
      → NoneAfter later calls
      → Marked server laws (keys sha256 namespace epoch token).spent_key until db
      → Marked server laws
          (keys sha256 namespace epoch token).spent_key
          until
          (runs server laws sha256 namespace db calls)
  unfolding runs NoneAfter
  runs-Marked db [] alive none_after m = m
  runs-Marked db (call ∷ calls) alive (before, rest) m =
      let key = (keys sha256 namespace epoch token).spent_key in
      let k = keys_of server laws sha256 namespace call in
      let apart = keys-apart sha256 namespace epoch call.arguments.epoch token call.presented in
      let early : call.time <ℤ until = omega arith in
      runs-Marked (run server laws sha256 namespace db call).1 calls alive rest (
        consume_script-Marked server laws key until k apart (laws.passed call.time db)
          call.arguments call.time (passed-Marked server laws key until db call.time early m))

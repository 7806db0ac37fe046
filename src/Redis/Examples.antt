-- ===== src/Redis/Examples.antt =====
-- Runs of the theorems on commands, replies and a small server.
use ngx_http_pow_gate.Common.{
  ℕ, ◌+◌, ◌≡◌, ◌≢◌, refl, arith, Option, none, some, false, subst, List, [], ◌∷◌, ◌++◌, length,
  if◌then◌else◌, Bool-cases, inl, inr,
}
use ngx_http_pow_gate.Common.Int.{ℤ, ltb_ℤ, ◌<ℤ◌, <ℤ→ltb_ℤ, pos, negsuc, ◌+ℤ◌, ◌-ℤ◌}
use ngx_http_pow_gate.Common.Bytes.{codes, eq_bytes, eq_bytes→≡, eq_bytes_refl}
use ngx_http_pow_gate.Common.Decimal.{decimal, decimal_digits}
use ngx_http_pow_gate.Common.Parse.{parse_i64, unsigned, digits_value}
use ngx_http_pow_gate.Mac.{hex}
use ngx_http_pow_gate.Redis.{
  Server, Arguments, command, reply, whole, integer, cr, lf, keys, base, consume_script,
  health_script, spend, bulk, bulks,
}
use ngx_http_pow_gate.Redis.Framing.{command_injective}
use ngx_http_pow_gate.Redis.Replies.{reply-decimal}
use ngx_http_pow_gate.Redis.Markers.{IsServer, Call, run, runs, NoneAfter}
use ngx_http_pow_gate.Redis.Script.{consume_script-once}

abbrev auth : List (List ℕ)
auth = codes "AUTH" ∷ (1 ∷ 13 ∷ 10 ∷ []) ∷ []

auth_sent :
    command auth
    ≡ codes "*2"
      ++ cr ∷ lf ∷ codes "$4"
      ++ cr ∷ lf ∷ codes "AUTH"
      ++ cr ∷ lf ∷ codes "$3"
      ++ cr ∷ lf ∷ 1 ∷ 13 ∷ 10 ∷ cr ∷ lf ∷ []
unfolding command bulks bulk decimal decimal_digits
auth_sent = refl

command_injective_example : auth ≡ auth
command_injective_example =
    command_injective auth auth (ground arith, (ground arith, tt))
      (ground arith, (ground arith, tt)) (ground arith) (ground arith) refl

reply-decimal_example :
    reply (b':' ∷ decimal 1 ++ cr ∷ lf ∷ []) ≡ whole (integer (pos 1)) (length (decimal 1) + 3)
unfolding decimal decimal_digits
reply-decimal_example = reply-decimal 1 [] (omega arith) (omega arith)

-- A server whose keys leave at their deadline.
abbrev Cells : Type 0
Cells = List ℕ → Option (List ℕ × Option ℤ)

abbrev value : Option (List ℕ × Option ℤ) → Option (List ℕ)
value none = none
value (some e) = some e.0

abbrev end : Option (List ℕ × Option ℤ) → Option ℤ
end none = none
end (some e) = e.1

abbrev put : Cells → List ℕ → List ℕ → Option ℤ → Cells
put db key v ends other = if eq_bytes key other then some (v, ends) else db other

abbrev put_new : Cells → List ℕ → List ℕ → ℤ → Option (List ℕ × Option ℤ) → Option Cells
put_new db key v ends none = some (put db key v (some ends))
put_new db key v ends (some e) = none

abbrev still : ℤ → Option (List ℕ × Option ℤ) → Option (List ℕ × Option ℤ)
still current none = none
still current (some (v, none)) = some (v, none)
still current (some (v, some ends)) = if ltb_ℤ current ends then some (v, some ends) else none

abbrev as_text : ℤ → List ℕ
as_text (pos n) = decimal n
as_text (negsuc n) = []

abbrev small_server : Server
small_server = record {
  Db = Cells;
  get = λ db key. value (db key);
  set = λ db key v. put db key v none;
  set_nx_ex = λ db key v secs current. put_new db key v (current +ℤ secs) (db key);
  tonumber = parse_i64;
  tostring = as_text;
}

not_same : (key other : List ℕ) → key ≢ other → eq_bytes key other ≡ false
not_same key other apart = elim (Bool-cases (eq_bytes key other)) [
  | inl same ↦ absurd (apart (eq_bytes→≡ key other same))
  | inr differ ↦ differ
]

there_lem :
    (e : Option (List ℕ × Option ℤ)) (db : Cells) (key v w : List ℕ) (ends : ℤ)
    → value e ≡ some v
    → put_new db key w ends e ≡ none
there_lem none db key v w ends h = absurd (cc h)
there_lem (some e) db key v w ends h = refl

put_new_lem :
    (e : Option (List ℕ × Option ℤ)) (db db' : Cells) (key w : List ℕ) (ends : ℤ)
    → put_new db key w ends e ≡ some db'
    → put db key w (some ends) ≡ db'
put_new_lem none db db' key w ends h = cc
put_new_lem (some e) db db' key w ends h = absurd (cc h)

lives_lem :
    (e : Option (List ℕ × Option ℤ)) (until current : ℤ)
    → end e ≡ some until
    → current <ℤ until
    → (value (still current e) ≡ value e) × (end (still current e) ≡ some until)
lives_lem none until current h early = absurd (cc h)
lives_lem (some (v, none)) until current h early = absurd (cc h)
lives_lem (some (v, some ends)) until current h early =
    let same : ends ≡ until = cc in rw (<ℤ→ltb_ℤ current ends (rw same early)) (refl, h)

abbrev small_server-IsServer : IsServer small_server
small_server-IsServer = record {
  deadline = λ db key. end (db key);
  passed = λ current db key. still current (db key);
  there = λ db key v w secs current h. there_lem (db key) db key v w (current +ℤ secs) h;
  set_others = λ db key other v apart. rw (not_same key other apart) (refl, refl);
  set_nx_ex_there = λ db db' key w secs current h.
      subst (λ d. (value (d key) ≡ some w) × (end (d key) ≡ some (current +ℤ secs)))
        (put_new_lem (db key) db db' key w (current +ℤ secs) h)
        (rw (eq_bytes_refl key) (refl, refl));
  set_nx_ex_others = λ db db' key other w secs current apart h.
      subst (λ d. (value (d other) ≡ value (db other)) × (end (d other) ≡ end (db other)))
        (put_new_lem (db key) db db' key w (current +ℤ secs) h)
        (rw (not_same key other apart) (refl, refl));
  lives = λ db key until current h early. lives_lem (db key) until current h early;
}

abbrev first_bytes : List ℕ → List ℕ
first_bytes token = token

abbrev with_clock : List ℕ → Cells
with_clock clock =
    put (put (λ key. none) (codes "powgate:{n}:epoch") (codes "e") none) (codes "powgate:{n}:clock")
      clock none

abbrev run_at : (expires clock : ℕ) → Arguments
run_at expires clock = record {
  epoch = codes "e";
  expires = pos expires;
  skew = pos 5;
  clock = pos clock;
}

abbrev call : (time expires token : ℕ) → Call
call time expires token = record {
  time = pos time;
  presented = token ∷ [];
  arguments = run_at expires time;
}

abbrev run_small : Cells → Call → ℤ × Cells
run_small db c = run small_server small_server-IsServer first_bytes (codes "n") db c

program : Unit {0}
unfolding consume_script spend keys base hex eq_bytes parse_i64 unsigned digits_value decimal
    decimal_digits ◌+ℤ◌ ◌-ℤ◌ runs NoneAfter health_script
program = tt

script_healthy :
    health_script small_server
      (with_clock (codes "90"))
      (keys first_bytes (codes "n") (codes "e") (7 ∷ []))
      (codes "e")
    ≡ pos 1
unfolding program
script_healthy = refl

-- Another token is redeemed before the first one is presented again.
consume_script-once_example :
    (run_small
      (runs small_server small_server-IsServer first_bytes
        (codes "n")
        (run_small (with_clock (codes "90")) (call 100 160 7)).1
        (call 110 170 8 ∷ []))
      (call 120 160 7)).0
    ≢ pos 1
unfolding program
consume_script-once_example =
    consume_script-once small_server small_server-IsServer first_bytes (codes "n")
      (with_clock (codes "90")) (call 100 160 7) (call 120 160 7) (call 110 170 8 ∷ []) (pos 90)
      refl refl (ground arith) (ground arith) refl refl refl (ground arith, tt)

-- With the clock of the server 100 seconds behind the clock key, the marker of a token that ends
-- at 300 is set for 106 seconds, until 206; then the token is accepted again.
accepted_first : (run_small (with_clock (codes "200")) (call 100 300 7)).0 ≡ pos 1
unfolding program
accepted_first = refl

accepted_again :
    (run_small (run_small (with_clock (codes "200")) (call 100 300 7)).1 (call 206 300 7)).0 ≡ pos 1
unfolding program
accepted_again = refl

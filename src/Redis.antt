-- ===== src/Redis.antt =====
-- The Redis protocol of the shared ledger: src/pow-gate-core/src/redis.rs. The two scripts run on
-- the server: they are modelled as functions on its data, whose commands are parameters.
use ngx_http_pow_gate.Common.{
  ℕ, zero, suc, ◌+◌, ◌-◌, ◌/◌, ◌%◌, ◌≡◌, Bool, true, false, not, ◌&&◌, ◌||◌, ltb, leb, ◌==◌,
  if◌then◌else◌, Option, none, some, List, [], ◌∷◌, ◌++◌, length, take, drop, refl,
}
use ngx_http_pow_gate.Common.Int.{ℤ, pos, negsuc, ltb_ℤ, leb_ℤ, max_ℤ, abs_diff, ◌+ℤ◌, ◌-ℤ◌}
use ngx_http_pow_gate.Common.Bytes.{codes, eq_bytes}
use ngx_http_pow_gate.Common.Parse.{parse_i64}
use ngx_http_pow_gate.Common.Decimal.{decimal}
use ngx_http_pow_gate.Mac.{hex}
pub mod Framing
pub mod Replies
pub mod Markers
pub mod Script
mod Examples

abbrev pub cr : ℕ
cr = 13

abbrev pub lf : ℕ
lf = 10

abbrev crlf : List ℕ
crlf = cr ∷ lf ∷ []

-- `HEALTH`
abbrev pub health_text : List ℕ
health_text =
    codes
      "if redis.call('GET',KEYS[1])~=ARGV[1] or not tonumber(redis.call('GET',KEYS[2])) then return -2 end return 1"

-- `CONSUME`, line by line
abbrev pub consume_text : List ℕ
consume_text =
    lf ∷ codes "if redis.call('GET',KEYS[1])~=ARGV[1] then return -2 end"
    ++ lf ∷ codes "local previous=tonumber(redis.call('GET',KEYS[3]))"
    ++ lf ∷ codes "if not previous then return -2 end"
    ++ lf ∷ codes "local current=tonumber(redis.call('TIME')[1])"
    ++ lf ∷ codes "local skew=tonumber(ARGV[3])"
    ++ lf ∷ codes "if math.abs(current-tonumber(ARGV[4]))>skew then return -3 end"
    ++ lf ∷ codes "local now=math.max(current,previous)"
    ++ lf ∷ codes "local expires=tonumber(ARGV[2])"
    ++ lf ∷ codes "if expires<=now then return -1 end"
    ++ lf ∷ codes "if now>previous then redis.call('SET',KEYS[3],tostring(now)) end"
    ++ lf ∷ codes "if redis.call('SET',KEYS[2],'1','NX','EX',expires-now+skew+1) then return 1 end"
    ++ lf ∷ codes "return 0"
    ++ lf ∷ []

-- The three keys of a token.
pub record Keys : Type 0 where
  pub epoch_key : List ℕ
  pub spent_key : List ℕ
  pub clock_key : List ℕ

unfoldable pub base : List ℕ → List ℕ
base namespace = codes "powgate:{" ++ namespace ++ codes "}"

unfoldable pub keys : (sha256 : List ℕ → List ℕ) (namespace epoch token : List ℕ) → Keys
keys sha256 namespace epoch token = record {
  epoch_key = base namespace ++ codes ":epoch";
  spent_key = base namespace ++ codes ":" ++ epoch ++ codes ":spent:" ++ hex (sha256 token);
  clock_key = base namespace ++ codes ":clock";
}

-- One part of `command`: its length, and its bytes.
unfoldable pub bulk : List ℕ → List ℕ
bulk part = b'$' ∷ decimal (length part) ++ crlf ++ part ++ crlf

unfoldable pub bulks : List (List ℕ) → List ℕ
bulks [] = []
bulks (part ∷ parts) = bulk part ++ bulks parts

-- `command`
unfoldable pub command : List (List ℕ) → List ℕ
command parts = b'*' ∷ decimal (length parts) ++ crlf ++ bulks parts

pub data Reply : Type 0 where
  integer : ℤ → Reply
  ok null error : Reply

-- `Ok(None)`, `Ok(Some(..))` and `Err`.
pub data Parsed : Type 0 where
  partial : Parsed
  whole : Reply → ℕ → Parsed
  refused : Parsed

-- `windows(2).position(..)`: where the first line ends.
unfoldable pub line_end : List ℕ → Option ℕ
line_end [] = none
line_end (c ∷ s) = ends_here c s (line_end s)
  where
    later : Option ℕ → Option ℕ
    later none = none
    later (some n) = some (suc n)

    ends_here : ℕ → List ℕ → Option ℕ → Option ℕ
    ends_here c [] rest = none
    ends_here c (d ∷ s) rest = if (c == cr) && (d == lf) then some 0 else later rest

abbrev pub as_integer : ℕ → Option ℤ → Parsed
as_integer used none = refused
as_integer used (some n) = whole (integer n) used

-- A line, by its first byte.
unfoldable pub sorted : List ℕ → ℕ → Parsed
sorted [] used = refused
sorted (c ∷ s) used =
    if c == b'-'
    then whole error used
    else if c == b':'
    then as_integer used (parse_i64 s)
    else refused

-- The line is one of the replies of AUTH and EVAL.
unfoldable pub line_reply : List ℕ → ℕ → Parsed
line_reply line used =
    if eq_bytes line (codes "+OK")
    then whole ok used
    else if eq_bytes line (codes "$-1")
    then whole null used
    else sorted line used

abbrev pub reply_at : List ℕ → Option ℕ → Parsed
reply_at input none = partial
reply_at input (some end) = line_reply (take end input) (end + 2)

-- `reply`
unfoldable pub reply : List ℕ → Parsed
reply input = if ltb 1024 (length input) then refused else reply_at input (line_end input)

-- The commands that the scripts call; Lua's numbers are integers here.
pub record Server : Type 1 where
  pub Db : Type 0
  pub get : Db → List ℕ → Option (List ℕ)
  pub set : Db → List ℕ → List ℕ → Db
  -- `SET key value NX EX seconds`, at the time of the server; nothing if the key is there.
  pub set_nx_ex : Db → List ℕ → List ℕ → (seconds current : ℤ) → Option Db
  pub tonumber : List ℕ → Option ℤ
  pub tostring : ℤ → List ℕ

-- `ARGV`
pub record Arguments : Type 0 where
  pub epoch : List ℕ
  pub expires : ℤ
  pub skew : ℤ
  pub clock : ℤ

module _ (server : Server) where
  abbrev pub number_at : server.Db → List ℕ → Option ℤ
  number_at db key = elim (server.get db key) [ none ↦ none | some text ↦ server.tonumber text ]

  abbrev pub same_text : Option (List ℕ) → List ℕ → Bool
  same_text none epoch = false
  same_text (some text) epoch = eq_bytes text epoch

  abbrev is_number : Option ℤ → Bool
  is_number none = false
  is_number (some n) = true

  -- `HEALTH`
  unfoldable pub health_script : server.Db → Keys → List ℕ → ℤ
  health_script db k epoch =
      if not (same_text (server.get db k.epoch_key) epoch)
        || not (is_number (number_at db k.clock_key))
      then negsuc 1
      else pos 1

  abbrev pub spent : server.Db → Option server.Db → ℤ × server.Db
  spent db none = (pos 0, db)
  spent db (some db') = (pos 1, db')

  -- `expires-now+skew+1`
  abbrev pub seconds : Arguments → ℤ → ℤ
  seconds a now = a.expires -ℤ now +ℤ a.skew +ℤ pos 1

  -- The clock key is a number, and the clocks agree.
  unfoldable pub spend : server.Db → Keys → Arguments → (current previous : ℤ) → ℤ × server.Db
  spend db k a current previous =
      let now = max_ℤ current previous in
      let db' : server.Db =
        if ltb_ℤ previous now then server.set db k.clock_key (server.tostring now) else db in
      if leb_ℤ a.expires now
      then (negsuc 0, db)
      else spent db' (server.set_nx_ex db' k.spent_key (codes "1") (seconds a now) current)

  abbrev pub with_previous : server.Db → Keys → Arguments → ℤ → Option ℤ → ℤ × server.Db
  with_previous db k a current none = (negsuc 1, db)
  with_previous db k a current (some previous) =
      if ltb_ℤ a.skew (pos (abs_diff current a.clock))
      then (negsuc 2, db)
      else spend db k a current previous

  -- `CONSUME`: the reply, and the data afterwards; `current` is the time of the server.
  unfoldable pub consume_script : server.Db → Keys → Arguments → ℤ → ℤ × server.Db
  unfolding spend
  consume_script db k a current =
      if not (same_text (server.get db k.epoch_key) a.epoch)
      then (negsuc 1, db)
      else with_previous db k a current (number_at db k.clock_key)

-- ===== src/Cluster/Wiring.antt =====
-- The bytes of a job: `make_job`, `write` and `read` of src/ngx-http-pow-gate/src/cluster.rs, and
-- that their loops end. What the calls of `send` and `recv` return is a parameter.
use ngx_http_pow_gate.Common.{
  ℕ, zero, suc, ◌+◌, ◌-◌, ◌*◌, ◌≤◌, ◌<◌, ◌≡◌, ◌≢◌, refl, arith, Bool, true, false, not, ◌&&◌, ◌||◌,
  ltb, leb, ◌==◌, if◌then◌else◌, Option, none, some, List, [], ◌∷◌, ◌++◌, length, length-append,
  drop, length-drop, Bool-cases, inl, inr, ltb→lt,
}
use ngx_http_pow_gate.Common.Int.{ℤ, pos, negsuc}
use ngx_http_pow_gate.Common.Bytes.{codes}
use ngx_http_pow_gate.Common.Decimal.{decimal}
use ngx_http_pow_gate.Redemption.{Outcome, accepted, reused, full, expired}
use ngx_http_pow_gate.Redis.{
  Keys, Reply, integer, ok, null, error, Parsed, partial, whole, refused, reply, command,
  health_text, consume_text,
}
pub mod Loops

-- The part of `Config` that a job's bytes are made of.
pub record Account : Type 0 where
  pub epoch : List ℕ
  pub username : List ℕ
  pub password : List ℕ
  pub skew : ℤ

abbrev pub is_empty : List ℕ → Bool
is_empty [] = true
is_empty (c ∷ s) = false

-- The AUTH command of `make_job`
unfoldable pub auth_command : Account → List ℕ
auth_command account =
    if is_empty account.password
    then []
    else if is_empty account.username
    then command (codes "AUTH" ∷ account.password ∷ [])
    else command (codes "AUTH" ∷ account.username ∷ account.password ∷ [])

-- `to_string` of an `i64`
unfoldable pub signed_decimal : ℤ → List ℕ
signed_decimal (pos n) = decimal n
signed_decimal (negsuc n) = b'-' ∷ decimal (suc n)

-- The EVAL commands of `make_job`
unfoldable pub health_command : Account → Keys → List ℕ
health_command account k =
    command
      (codes "EVAL" ∷ health_text ∷ codes "2" ∷ k.epoch_key ∷ k.clock_key ∷ account.epoch ∷ [])

unfoldable pub consume_command : Account → Keys → (expires now : ℤ) → List ℕ
consume_command account k expires now = command (
    codes "EVAL"
    ∷ consume_text
    ∷ codes "3"
    ∷ k.epoch_key
    ∷ k.spent_key
    ∷ k.clock_key
    ∷ account.epoch
    ∷ signed_decimal expires
    ∷ signed_decimal account.skew
    ∷ signed_decimal now
    ∷ [])

-- `output` and `auth` of `make_job`
unfoldable pub output : Account → Keys → (expires now : ℤ) → Bool → List ℕ
output account k expires now health =
    auth_command account
    ++ (if health then health_command account k else consume_command account k expires now)

unfoldable pub has_auth : Account → Bool
has_auth account = not (is_empty account.password)

-- What a call of `send` or of `recv` returns: `NGX_AGAIN`, with whether the event could be armed
-- again, an error or the end, or a count of bytes (`send`), or the bytes (`recv`).
pub data Sent : Type 0 where
  again : Bool → Sent
  broken : Sent
  bytes : ℕ → Sent

pub data Received : Type 0 where
  again : Bool → Received
  broken : Received
  bytes : List ℕ → Received

-- How a handler leaves: it waits for the next event, or calls `complete`.
pub data Written : Type 0 where
  waits : ℕ → Written
  fails : Written

abbrev pub armed : ℕ → Bool → Option Written
armed sent true = some (waits sent)
armed sent false = some fails

module _ (send : ℕ → Sent) (rearm : Bool) (size : ℕ) where
  -- The loop of `write` and what follows it, with fuel: `none` means that the fuel ran out.
  -- `send k` is what the `k`th call returns, and `rearm` whether the read event can be armed.
  unfoldable pub write_loop : (fuel k sent : ℕ) → Option Written
  write_loop zero k sent = none
  write_loop (suc fuel) k sent =
      if ltb sent size
      then elim (send k) [
        | again arm ↦ armed sent arm
        | broken ↦ some fails
        | bytes n ↦
            let rest = write_loop fuel (suc k) (sent + n) in if n == 0 then some fails else rest
      ]
      else armed sent rearm

-- What a read has made of the input.
pub data Digest : Type 0 where
  more : Bool → List ℕ → Digest
  done : Outcome → Bool → Digest

-- The outcome of a reply of EVAL, and whether it fences.
unfoldable pub verdict : Reply → Outcome × Bool
verdict (integer (pos n)) =
    if n == 1 then (accepted, false) else if n == 0 then (reused, false) else (full, false)
verdict (integer (negsuc n)) =
    if n == 0 then (expired, false) else if n == 1 then (full, true) else (full, false)
verdict ok = (full, false)
verdict null = (full, false)
verdict error = (full, false)

abbrev pub ended : Outcome × Bool → Digest
ended v = done v.0 v.1

-- The inner loop of `read` once AUTH has been answered
abbrev pub digest_eval : List ℕ → Parsed → Digest
digest_eval input partial = more false input
digest_eval input refused = done full false
digest_eval input (whole r used) = ended (verdict r)

abbrev pub is_ok : Reply → Bool
is_ok ok = true
is_ok (integer n) = false
is_ok null = false
is_ok error = false

-- The inner loop of `read` before AUTH has been answered: its first round, and the `continue`
abbrev pub digest_auth : List ℕ → Parsed → Digest
digest_auth input partial = more true input
digest_auth input refused = done full false
digest_auth input (whole r used) =
    let left = drop used input in if is_ok r then digest_eval left (reply left) else done full false

-- The inner loop of `read`
unfoldable pub digest : Bool → List ℕ → Digest
digest true input = digest_auth input (reply input)
digest false input = digest_eval input (reply input)

-- How `read` leaves: it waits, or calls `complete`.
pub data Ended : Type 0 where
  waits : Bool → List ℕ → Ended
  ends : Outcome → Bool → Ended

abbrev pub rearmed : Bool → List ℕ → Bool → Option Ended
rearmed auth input true = some (waits auth input)
rearmed auth input false = some (ends full false)

abbrev pub too_long : List ℕ → List ℕ → Bool
too_long input chunk = is_empty chunk || ltb 1024 (length input + length chunk)

module _ (recv : ℕ → Received) where
  -- The loop of `read`, with fuel; `recv k` is what the `k`th call returns.
  unfoldable pub read_loop : (fuel k : ℕ) (auth : Bool) (input : List ℕ) → Option Ended
  read_loop zero k auth input = none
  read_loop (suc fuel) k auth input = elim (recv k) [
    | again arm ↦ rearmed auth input arm
    | broken ↦ some (ends full false)
    | bytes chunk ↦
        if too_long input chunk
        then some (ends full false)
        else elim (digest auth (input ++ chunk)) [
          | more auth' input' ↦ read_loop fuel (suc k) auth' input'
          | done outcome fenced ↦ some (ends outcome fenced)
        ]
  ]

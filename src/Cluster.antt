-- ===== src/Cluster.antt =====
-- The cluster ledger of one worker: src/ngx-http-pow-gate/src/cluster.rs. A job has a number in
-- place of its address, and stands in the queue that holds its pointer; the sockets, timers and
-- clocks of nginx are what the events bring.
use ngx_http_pow_gate.Common.{
  ℕ, zero, suc, ◌+◌, ◌-◌, ◌%◌, ◌^◌, ◌≤◌, ◌<◌, ◌≡◌, refl, Bool, true, false, not, ◌&&◌, ◌||◌, ltb,
  leb, ◌==◌, if◌then◌else◌, Option, none, some, List, [], ◌∷◌, ◌++◌, length,
}
use ngx_http_pow_gate.Common.Int.{ℤ, leb_ℤ}
use ngx_http_pow_gate.Redemption.{Outcome, accepted, reused, full, expired}
use ngx_http_pow_gate.Finish.{Grant, Response, finish}
pub mod Wiring
pub mod Settings
pub mod Configured
pub mod Bounds
pub mod Steps
pub mod Fenced
pub mod Answers
mod Examples

-- The part of `Config` that the state machine reads.
pub record Limits : Type 0 where
  pub connections : ℕ
  pub queue : ℕ

-- `timer` is whether the deadline of the job is set.
pub record Job : Type 0 where
  pub id : ℕ
  pub request : Option ℕ
  pub grant : Option Grant
  pub expires : ℤ
  pub health : Bool
  pub timer : Bool

-- A call of `redemption::finish`: the request, the outcome and the grant.
pub record Answer : Type 0 where
  pub request : ℕ
  pub outcome : Outcome
  pub grant : Grant

-- `Runtime`, with the health job that is under way, the number of the next job and the answers.
pub record Runtime : Type 0 where
  pub pending : List Job
  pub active : List Job
  pub checking : Option Job
  pub health_busy : Bool
  pub pumping : Bool
  pub ready : Bool
  pub fenced : Bool
  pub last_ok : ℕ
  pub next : ℕ
  pub answers : List Answer

-- `activate`
abbrev pub activated : Runtime
activated = record {
  pending = [];
  active = [];
  checking = none;
  health_busy = false;
  pumping = false;
  ready = false;
  fenced = false;
  last_ok = 0;
  next = 0;
  answers = [];
}

-- `retain(|&p| p != job)`
unfoldable pub without : ℕ → List Job → List Job
without id [] = []
without id (job ∷ jobs) = let rest = without id jobs in if job.id == id then rest else job ∷ rest

abbrev pub is_accepted : Outcome → Bool
is_accepted accepted = true
is_accepted reused = false
is_accepted full = false
is_accepted expired = false

-- The clocks of a step: `ngx_current_msec` and `runtime::now()`.
pub record Clock : Type 0 where
  pub msec : ℕ
  pub now : ℤ

-- `available`: `wrapping_sub` on 64 bits
unfoldable pub available : Clock → Runtime → Bool
available clock rt =
    rt.ready && not rt.fenced && ltb ((clock.msec + (2 ^ 64 - rt.last_ok % 2 ^ 64)) % 2 ^ 64) 2500

-- `issuer`
abbrev pub issuer : List ℕ → Runtime → Option (List ℕ)
issuer identity rt = if rt.fenced then none else some identity

-- "A late successful Redis reply cannot mint an already expired token."
unfoldable pub final_outcome : Clock → Job → Outcome → Outcome
final_outcome clock job outcome =
    if not job.health && is_accepted outcome && leb_ℤ job.expires clock.now
    then expired
    else outcome

-- `if fenced { .. }`
abbrev pub fence : Bool → Runtime → Runtime
fence fenced rt = if fenced then record rt { fenced = true; ready = false } else rt

-- `if (*job).health { .. } else { .. }`
abbrev pub settle_health : Clock → Outcome → Runtime → Runtime
settle_health clock outcome rt =
    let ready = is_accepted outcome && not rt.fenced in
    record rt {
      checking = none;
      health_busy = false;
      ready = ready;
      last_ok = if ready then clock.msec else rt.last_ok;
    }

abbrev pub leave_queues : Job → Runtime → Runtime
leave_queues job rt = record rt {
  active = without job.id rt.active;
  pending = without job.id rt.pending;
}

-- `complete` until its pump
unfoldable pub release : Clock → Job → Outcome → Bool → Runtime → Runtime
release clock job outcome fenced rt =
    if job.health
    then settle_health clock outcome (fence fenced rt)
    else leave_queues job (fence fenced rt)

abbrev pub answered : Option ℕ → Option Grant → Outcome → Runtime → Runtime
answered none grant outcome rt = rt
answered (some request) none outcome rt = rt
answered (some request) (some grant) outcome rt =
    let answer : Answer = record { request = request; outcome = outcome; grant = grant } in
    record rt { answers = rt.answers ++ answer ∷ [] }

-- `complete` after its pump
unfoldable pub reply_to : Clock → Job → Outcome → Runtime → Runtime
reply_to clock job outcome rt = answered job.request job.grant (final_outcome clock job outcome) rt

-- `complete` while a pump runs, which is not started again
unfoldable pub complete_nested : Clock → Job → Outcome → Bool → Runtime → Runtime
unfolding release reply_to
complete_nested clock job outcome fenced rt =
    reply_to clock job outcome (release clock job outcome fenced rt)

-- What `ngx_event_connect_peer` leaves: no connection, a refused one, or one that goes on.
pub data Link : Type 0 where
  unlinked failed opened : Link

abbrev pub is_opened : Link → Bool
is_opened unlinked = false
is_opened failed = false
is_opened opened = true

module _ (limits : Limits) (dial : ℕ → Link) (clock : Clock) where
  -- `connect` of a job that waits for no health reply, under a pump
  unfoldable pub connect_nested : Job → Runtime → Runtime
  connect_nested job rt =
      if is_opened (dial job.id) then rt else complete_nested clock job full false rt

  -- `pop_front`, `push` and `connect`
  unfoldable pub start_first : Runtime → List Job → Runtime
  unfolding connect_nested
  start_first rt [] = rt
  start_first rt (job ∷ jobs) =
      connect_nested job (record rt { pending = jobs; active = rt.active ++ job ∷ [] })

  -- The `while` loop of the pump, with fuel.
  unfoldable pub pump_loop : ℕ → Runtime → Runtime
  pump_loop zero rt = rt
  pump_loop (suc fuel) rt =
      let rest = pump_loop fuel (start_first rt rt.pending) in
      if ltb (length rt.active) limits.connections then rest else rt

  -- Every round takes a job from the queue.
  unfoldable pub pump : Runtime → Runtime
  unfolding pump_loop
  pump rt =
      let done = pump_loop (length rt.pending) (record rt { pumping = true }) in
      if rt.pumping then rt else record done { pumping = false }

  -- `complete`
  unfoldable pub complete : Job → Outcome → Bool → Runtime → Runtime
  complete job outcome fenced rt =
      reply_to clock job outcome (pump (release clock job outcome fenced rt))

  -- `connect`
  unfoldable pub connect : Job → Runtime → Runtime
  connect job rt = if is_opened (dial job.id) then rt else complete job full false rt

  -- `poll`, with whether nginx is exiting; `connect` sets the deadline of a health job.
  unfoldable pub poll : Bool → Runtime → Runtime
  poll exiting rt =
      let job : Job = record {
        id = rt.next;
        request = none;
        grant = none;
        expires = ℤ.pos 0;
        health = true;
        timer = true;
      } in
      if exiting || rt.health_busy || rt.fenced
      then rt
      else connect job (record rt { health_busy = true; checking = some job; next = suc rt.next })

  -- `redeem`, when it is not answered at once
  unfoldable pub enqueue : ℕ → ℤ → Grant → Runtime → Runtime
  enqueue request expires grant rt =
      let job : Job = record {
        id = rt.next;
        request = some request;
        grant = some grant;
        expires = expires;
        health = false;
        timer = true;
      } in
      if ltb (length rt.active) limits.connections
      then connect job (record rt { active = rt.active ++ job ∷ []; next = suc rt.next })
      else record rt { pending = rt.pending ++ job ∷ []; next = suc rt.next }

  -- `redeem`, with whether `ngx_http_cleanup_add` returns nothing
  unfoldable pub redeem : ℕ → ℤ → Grant → Bool → Runtime → Runtime
  redeem request expires grant no_cleanup rt =
      if not (available clock rt)
        || (leb limits.connections (length rt.active) && leb limits.queue (length rt.pending))
        || no_cleanup
      then answered (some request) (some grant) full rt
      else enqueue request expires grant rt

  -- `timeout`
  abbrev pub timeout : Job → Runtime → Runtime
  timeout job rt = complete job full false rt

  -- `aborted`: the request is gone, and is not answered.
  abbrev pub aborted : Job → Runtime → Runtime
  aborted job rt = complete (record job { request = none }) full false rt

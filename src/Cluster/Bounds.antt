-- ===== src/Cluster/Bounds.antt =====
-- What holds of a worker's cluster state: the queues keep to their limits, no job waits while a
-- connection is free, and a fence stays.
use ngx_http_pow_gate.Common.{
  ℕ, zero, suc, ◌≤◌, ◌<◌, ◌≡◌, refl, arith, Bool, true, false, ltb, ◌==◌, if◌then◌else◌, Option,
  none, some, List, [], ◌∷◌, ◌++◌, length, length-append, All, Bool-cases, inl, inr, ◌⊎◌, subst,
  ltb→lt,
}
use ngx_http_pow_gate.Redemption.{Outcome, full}
use ngx_http_pow_gate.Finish.{Grant}
use ngx_http_pow_gate.Cluster.{
  Limits, Job, Runtime, Clock, Link, without, is_opened, fence, settle_health, leave_queues,
  release, answered, reply_to, complete_nested, connect_nested, start_first, pump_loop,
  final_outcome,
}

-- A job of the queues: it has its deadline, and is no health job.
abbrev pub Timed : Job → Type 0
Timed job = (job.timer ≡ true) × (job.health ≡ false)

-- The busy mark stands for one health job, which has no request.
abbrev pub Checks : Option Job → Bool → Type 0
Checks none busy = busy ≡ false
Checks (some job) busy =
    (busy ≡ true) × (job.timer ≡ true) × (job.health ≡ true) × (job.request ≡ none)

pub length-without-le : (id : ℕ) (jobs : List Job) → length (without id jobs) ≤ length jobs
unfolding without
length-without-le id [] = omega arith
length-without-le id (job ∷ jobs) = ground (arith, length-without-le id jobs)

without-All : (id : ℕ) (jobs : List Job) → All Timed jobs → All Timed (without id jobs)
unfolding without
without-All id [] all = tt
without-All id (job ∷ jobs) all = elim (Bool-cases (job.id == id)) [
  | inl same ↦ rw same (without-All id jobs all.1)
  | inr other ↦ rw other (all.0, without-All id jobs all.1)
]

pub All-snoc :
    (jobs : List Job) (job : Job) → All Timed jobs → Timed job → All Timed (jobs ++ job ∷ [])
All-snoc [] job all p = (p, tt)
All-snoc (j ∷ jobs) job all p = (all.0, All-snoc jobs job all.1 p)

-- What every part of a step keeps.
pub record Loose (limits : Limits) (rt : Runtime) : Type 0 where
  pub active : length rt.active ≤ limits.connections
  pub pending : length rt.pending ≤ limits.queue
  pub active_timed : All Timed rt.active
  pub pending_timed : All Timed rt.pending
  pub health : Checks rt.checking rt.health_busy
  pub unready : rt.fenced ≡ true → rt.ready ≡ false

-- No job waits for a connection that is free.
abbrev pub IsDrained : Limits → Runtime → Type 0
IsDrained limits rt = (rt.pending ≡ []) ⊎ (length rt.active ≡ limits.connections)

module _ (limits : Limits) where
  pub answered-Loose :
      (request : Option ℕ) (grant : Option Grant) (outcome : Outcome) (rt : Runtime)
      → Loose limits rt
      → Loose limits (answered request grant outcome rt)
  answered-Loose none grant outcome rt l = l
  answered-Loose (some request) none outcome rt l = l
  answered-Loose (some request) (some grant) outcome rt l = record {
    active = l.active;
    pending = l.pending;
    active_timed = l.active_timed;
    pending_timed = l.pending_timed;
    health = l.health;
    unready = l.unready;
  }

  fence-Loose : (fenced : Bool) (rt : Runtime) → Loose limits rt → Loose limits (fence fenced rt)
  fence-Loose false rt l = l
  fence-Loose true rt l = record {
    active = l.active;
    pending = l.pending;
    active_timed = l.active_timed;
    pending_timed = l.pending_timed;
    health = l.health;
    unready = λ e. refl;
  }

  settle_health-Loose :
      (clock : Clock) (outcome : Outcome) (rt : Runtime)
      → Loose limits rt
      → Loose limits (settle_health clock outcome rt)
  settle_health-Loose clock outcome rt l = record {
    active = l.active;
    pending = l.pending;
    active_timed = l.active_timed;
    pending_timed = l.pending_timed;
    health = refl;
    unready = λ e. rw e (ground arith);
  }

  leave_queues-Loose :
      (job : Job) (rt : Runtime) → Loose limits rt → Loose limits (leave_queues job rt)
  leave_queues-Loose job rt l = record {
    active = omega (arith, l.active, length-without-le job.id rt.active);
    pending = omega (arith, l.pending, length-without-le job.id rt.pending);
    active_timed = without-All job.id rt.active l.active_timed;
    pending_timed = without-All job.id rt.pending l.pending_timed;
    health = l.health;
    unready = l.unready;
  }

  pub release-Loose :
      (clock : Clock) (job : Job) (outcome : Outcome) (fenced : Bool) (rt : Runtime)
      → Loose limits rt
      → Loose limits (release clock job outcome fenced rt)
  unfolding release
  release-Loose clock job outcome fenced rt l =
      let loose = fence-Loose fenced rt l in
      elim (Bool-cases job.health) [
        | inl health ↦ rw health (settle_health-Loose clock outcome (fence fenced rt) loose)
        | inr request ↦ rw request (leave_queues-Loose job (fence fenced rt) loose)
      ]

  pub reply_to-Loose :
      (clock : Clock) (job : Job) (outcome : Outcome) (rt : Runtime)
      → Loose limits rt
      → Loose limits (reply_to clock job outcome rt)
  unfolding reply_to
  reply_to-Loose clock job outcome rt l =
      answered-Loose job.request job.grant (final_outcome clock job outcome) rt l

module _ (limits : Limits) (dial : ℕ → Link) (clock : Clock) where
  connect_nested-Loose :
      (job : Job) (rt : Runtime)
      → Loose limits rt
      → Loose limits (connect_nested limits dial clock job rt)
  unfolding connect_nested complete_nested
  connect_nested-Loose job rt l = elim (Bool-cases (is_opened (dial job.id))) [
    | inl open_link ↦ rw open_link l
    | inr closed ↦ rw closed (
        reply_to-Loose limits clock job full (release clock job full false rt)
          (release-Loose limits clock job full false rt l))
  ]

  pub start_first-Loose :
      (rt : Runtime) (jobs : List Job)
      → rt.pending ≡ jobs
      → length rt.active < limits.connections
      → Loose limits rt
      → Loose limits (start_first limits dial clock rt jobs)
  unfolding start_first
  start_first-Loose rt [] e room l = l
  start_first-Loose rt (job ∷ jobs) e room l =
      let timed : All Timed (job ∷ jobs) = subst (All Timed) e l.pending_timed in
      let size : length (job ∷ jobs) ≤ limits.queue =
        subst (λ q. length q ≤ limits.queue) e l.pending in
      connect_nested-Loose job (record rt { pending = jobs; active = rt.active ++ job ∷ [] })
        (record {
          active = omega (arith, length-append rt.active (job ∷ []));
          pending = omega arith;
          active_timed = All-snoc rt.active job l.active_timed timed.0;
          pending_timed = timed.1;
          health = l.health;
          unready = l.unready;
        })

  pub pump_loop-Loose :
      (fuel : ℕ) (rt : Runtime)
      → Loose limits rt
      → Loose limits (pump_loop limits dial clock fuel rt)
  unfolding pump_loop
  pump_loop-Loose zero rt l = l
  pump_loop-Loose (suc fuel) rt l = elim (Bool-cases (ltb (length rt.active) limits.connections)) [
    | inl room ↦ rw room (
        pump_loop-Loose fuel (start_first limits dial clock rt rt.pending)
          (start_first-Loose rt rt.pending refl (ltb→lt _ _ room) l))
    | inr busy ↦ rw busy l
  ]

  -- A round takes a job from the queue.
  start_first-shorter :
      (rt : Runtime) (job : Job) (jobs : List Job)
      → length (start_first limits dial clock rt (job ∷ jobs)).pending ≤ length jobs
  unfolding start_first connect_nested complete_nested release reply_to
  start_first-shorter rt job jobs = elim (Bool-cases (is_opened (dial job.id))) [
    | inl open_link ↦ rw open_link (omega arith)
    | inr closed ↦ rw closed (shorter job.health job.request job.grant)
  ]
    where
      within : Runtime
      within = record rt { pending = jobs; active = rt.active ++ job ∷ [] }

      shorter :
          (health : Bool) (request : Option ℕ) (grant : Option Grant)
          → length
              (answered request grant (final_outcome clock job full) (
                if health
                then settle_health clock full within
                else leave_queues job within)).pending
            ≤ length jobs
      shorter true none grant = omega arith
      shorter true (some request) none = omega arith
      shorter true (some request) (some grant) = omega arith
      shorter false none grant = length-without-le job.id jobs
      shorter false (some request) none = length-without-le job.id jobs
      shorter false (some request) (some grant) = length-without-le job.id jobs

  -- As many rounds as jobs wait are enough.
  pub pump_loop-IsDrained :
      (fuel : ℕ) (rt : Runtime)
      → length rt.pending ≤ fuel
      → Loose limits rt
      → IsDrained limits (pump_loop limits dial clock fuel rt)
  unfolding pump_loop
  pump_loop-IsDrained zero rt enough l = inl (empty rt.pending enough)
    where
      empty : (jobs : List Job) → length jobs ≤ 0 → jobs ≡ []
      empty [] h = refl
      empty (job ∷ jobs) h = absurd (omega arith)
  pump_loop-IsDrained (suc fuel) rt enough l =
      elim (Bool-cases (ltb (length rt.active) limits.connections)) [
        | inr busy ↦ rw busy (inr (le_antisymm l.active (ltb-false _ _ busy)))
        | inl room ↦ rw room (
            pump_loop-IsDrained fuel (start_first limits dial clock rt rt.pending)
              (fewer rt.pending refl enough)
              (start_first-Loose rt rt.pending refl (ltb→lt _ _ room) l))
      ]
    where
      ltb-false : (a b : ℕ) → ltb a b ≡ false → b ≤ a
      ltb-false a b h = ground arith

      le_antisymm : {a b : ℕ} → a ≤ b → b ≤ a → a ≡ b
      le_antisymm h k = omega arith

      fewer :
          (jobs : List Job)
          → rt.pending ≡ jobs
          → length rt.pending ≤ suc fuel
          → length (start_first limits dial clock rt jobs).pending ≤ fuel
      fewer [] e h = unfold start_first in rw e (omega arith)
      fewer (job ∷ jobs) e h =
          let size : suc (length jobs) ≤ suc fuel = subst (λ q. length q ≤ suc fuel) e h in
          omega (arith, start_first-shorter rt job jobs)

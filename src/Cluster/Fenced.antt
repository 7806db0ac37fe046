-- ===== src/Cluster/Fenced.antt =====
-- A fence of a worker's cluster ledger is for good.
use ngx_http_pow_gate.Common.{
  ℕ, zero, suc, ◌≡◌, refl, arith, Bool, true, false, ◌||◌, ltb, if◌then◌else◌, Option, none, some,
  List, [], ◌∷◌, ◌++◌, length, Bool-cases, inl, inr,
}
use ngx_http_pow_gate.Common.Int.{ℤ}
use ngx_http_pow_gate.Redemption.{Outcome, full}
use ngx_http_pow_gate.Finish.{Grant}
use ngx_http_pow_gate.Cluster.{
  Limits, Job, Runtime, Clock, Link, is_opened, available, issuer, fence, settle_health,
  leave_queues, release, answered, reply_to, connect_nested, start_first, pump_loop, pump, complete,
  poll, redeem, final_outcome, complete_nested,
}
use ngx_http_pow_gate.Cluster.Steps.{
  Step, polled, redeemed, finished, disconnected, Reach, stays, after,
}

abbrev Fenced : Runtime → Type 0
Fenced rt = rt.fenced ≡ true

answered-Fenced :
    (request : Option ℕ) (grant : Option Grant) (outcome : Outcome) (rt : Runtime)
    → Fenced rt
    → Fenced (answered request grant outcome rt)
answered-Fenced none grant outcome rt f = f
answered-Fenced (some request) none outcome rt f = f
answered-Fenced (some request) (some grant) outcome rt f = f

release-Fenced :
    (clock : Clock) (job : Job) (outcome : Outcome) (fenced : Bool) (rt : Runtime)
    → Fenced rt
    → Fenced (release clock job outcome fenced rt)
unfolding release
release-Fenced clock job outcome fenced rt f = flags job.health fenced
  where
    flags :
        (health fenced : Bool)
        → (if health
            then settle_health clock outcome (fence fenced rt)
            else leave_queues job (fence fenced rt)).fenced
          ≡ true
    flags true true = refl
    flags true false = f
    flags false true = refl
    flags false false = f

module _ (limits : Limits) (dial : ℕ → Link) (clock : Clock) where
  connect_nested-Fenced :
      (job : Job) (rt : Runtime) → Fenced rt → Fenced (connect_nested limits dial clock job rt)
  unfolding connect_nested complete_nested reply_to
  connect_nested-Fenced job rt f = elim (Bool-cases (is_opened (dial job.id))) [
    | inl open_link ↦ rw open_link f
    | inr closed ↦ rw closed (
        answered-Fenced job.request job.grant (final_outcome clock job full)
          (release clock job full false rt) (release-Fenced clock job full false rt f))
  ]

  start_first-Fenced :
      (rt : Runtime) (jobs : List Job) → Fenced rt → Fenced (start_first limits dial clock rt jobs)
  unfolding start_first
  start_first-Fenced rt [] f = f
  start_first-Fenced rt (job ∷ jobs) f =
      connect_nested-Fenced job (record rt { pending = jobs; active = rt.active ++ job ∷ [] }) f

  pump_loop-Fenced :
      (fuel : ℕ) (rt : Runtime) → Fenced rt → Fenced (pump_loop limits dial clock fuel rt)
  unfolding pump_loop
  pump_loop-Fenced zero rt f = f
  pump_loop-Fenced (suc fuel) rt f = elim (Bool-cases (ltb (length rt.active) limits.connections)) [
    | inl room ↦ rw room (
        pump_loop-Fenced fuel (start_first limits dial clock rt rt.pending)
          (start_first-Fenced rt rt.pending f))
    | inr busy ↦ rw busy f
  ]

  complete-Fenced :
      (job : Job) (outcome : Outcome) (fenced : Bool) (rt : Runtime)
      → Fenced rt
      → Fenced (complete limits dial clock job outcome fenced rt)
  unfolding complete pump reply_to
  complete-Fenced job outcome fenced rt f =
      let freed = release clock job outcome fenced rt in
      let kept = release-Fenced clock job outcome fenced rt f in
      answered-Fenced job.request job.grant (final_outcome clock job outcome) _
        (elim (Bool-cases freed.pumping) [
          | inl pumping ↦ rw pumping kept
          | inr idle ↦
              rw idle
                (pump_loop-Fenced (length freed.pending) (record freed { pumping = true }) kept)
        ])

  -- The guards of `poll` and `redeem` see a fence, so that neither starts a job.
  poll-Fenced : (exiting : Bool) (rt : Runtime) → Fenced rt → poll limits dial clock exiting rt ≡ rt
  unfolding poll
  poll-Fenced exiting rt f =
      let skip : (exiting || rt.health_busy || rt.fenced) ≡ true = ground arith in rw skip

  redeem-Fenced :
      (request : ℕ) (expires : ℤ) (grant : Grant) (no_cleanup : Bool) (rt : Runtime)
      → Fenced rt
      → redeem limits dial clock request expires grant no_cleanup rt
        ≡ answered (some request) (some grant) full rt
  unfolding redeem available
  redeem-Fenced request expires grant no_cleanup rt f = rw f (ground arith)

module _ (limits : Limits) where
  Step-Fenced : {rt rt' : Runtime} → Step limits rt rt' → Fenced rt → Fenced rt'
  Step-Fenced {rt} (polled dial clock exiting) f = rw (poll-Fenced limits dial clock exiting rt f) f
  Step-Fenced {rt} (redeemed dial clock request expires grant no_cleanup) f =
      rw (redeem-Fenced limits dial clock request expires grant no_cleanup rt f) f
  Step-Fenced {rt} (finished dial clock job outcome fenced h) f =
      complete-Fenced limits dial clock job outcome fenced rt f
  Step-Fenced {rt} (disconnected dial clock job h) f =
      complete-Fenced limits dial clock (record job { request = none }) full false rt f

  -- A worker that a reply has fenced stays fenced, whatever events follow: it has no issuer, so
  -- that no context can be made, a poll starts no health job, and every redemption is answered at
  -- once by the outcome of a full ledger and starts no job.
  pub Reach-fenced :
      {rt rt' : Runtime}
      → rt.fenced ≡ true
      → Reach limits rt rt'
      → (identity : List ℕ) (dial : ℕ → Link) (clock : Clock) (request : ℕ) (expires : ℤ)
        (grant : Grant) (no_cleanup exiting : Bool)
      → (rt'.fenced ≡ true)
        × (issuer identity rt' ≡ none)
        × (poll limits dial clock exiting rt' ≡ rt')
        × (redeem limits dial clock request expires grant no_cleanup rt'
            ≡ answered (some request) (some grant) full rt')
  Reach-fenced {rt = rt} {rt' = rt'} f run identity dial clock request expires grant no_cleanup
        exiting =
      let f' = kept run in
      (
        f',
        rw f',
        poll-Fenced limits dial clock exiting rt' f',
        redeem-Fenced limits dial clock request expires grant no_cleanup rt' f',
      )
    where
      kept : {end : Runtime} → Reach limits rt end → Fenced end
      kept stays = f
      kept (after run step) = Step-Fenced step (kept run)

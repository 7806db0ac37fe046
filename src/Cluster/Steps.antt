-- ===== src/Cluster/Steps.antt =====
-- The events of a worker's cluster ledger as a step relation, and what every reachable state has.
use ngx_http_pow_gate.Common.{
  ℕ, ◌≤◌, ◌<◌, ◌≡◌, refl, arith, Bool, true, false, not, ◌&&◌, ◌||◌, ltb, leb, if◌then◌else◌,
  Option, none, some, List, [], ◌∷◌, length, length-append, Bool-cases, inl, inr, ◌⊎◌, ltb→lt,
}
use ngx_http_pow_gate.Common.Int.{ℤ}
use ngx_http_pow_gate.Redemption.{Outcome, full}
use ngx_http_pow_gate.Finish.{Grant}
use ngx_http_pow_gate.Cluster.{
  Limits, Job, Runtime, Clock, Link, is_opened, activated, available, fence, settle_health,
  leave_queues, release, answered, reply_to, pump, complete, connect, poll, enqueue, redeem,
  aborted, final_outcome,
}
use ngx_http_pow_gate.Cluster.Bounds.{
  Loose, IsDrained, All-snoc, answered-Loose, release-Loose, pump_loop-Loose, pump_loop-IsDrained,
}

-- The job stands in a queue.
abbrev pub In : Job → List Job → Type 0
In job [] = ⊥
In job (first ∷ jobs) = (first ≡ job) ⊎ In job jobs

-- The job is one that an event may name: it is connecting, waiting, or the health job.
abbrev pub Holds : Runtime → Job → Type 0
Holds rt job = In job rt.active ⊎ (In job rt.pending ⊎ (rt.checking ≡ some job))

module _ (limits : Limits) where
  -- One event, with what the system calls and the clocks say in it. `finished` stands for `write`,
  -- `read` and `timeout` where they call `complete`.
  pub data Step : Runtime → Runtime → Type 0 where
    polled :
        {rt : Runtime} (dial : ℕ → Link) (clock : Clock) (exiting : Bool)
        → Step rt (poll limits dial clock exiting rt)
    redeemed :
        {rt : Runtime} (dial : ℕ → Link) (clock : Clock) (request : ℕ) (expires : ℤ) (grant : Grant)
        (no_cleanup : Bool)
        → Step rt (redeem limits dial clock request expires grant no_cleanup rt)
    finished :
        {rt : Runtime} (dial : ℕ → Link) (clock : Clock) (job : Job) (outcome : Outcome)
        (fenced : Bool)
        → Holds rt job
        → Step rt (complete limits dial clock job outcome fenced rt)
    disconnected :
        {rt : Runtime} (dial : ℕ → Link) (clock : Clock) (job : Job)
        → Holds rt job
        → Step rt (aborted limits dial clock job rt)

  -- What a run of events reaches.
  pub data Reach (start : Runtime) : Runtime → Type 0 where
    stays : Reach start start
    after : {rt rt' : Runtime} → Reach start rt → Step rt rt' → Reach start rt'

  pub record IsSound (rt : Runtime) : Type 0 where
    pub loose : Loose limits rt
    pub drained : IsDrained limits rt
    pub idle : rt.pumping ≡ false

  answered-IsSound :
      (request : Option ℕ) (grant : Option Grant) (outcome : Outcome) (rt : Runtime)
      → IsSound rt
      → IsSound (answered request grant outcome rt)
  answered-IsSound none grant outcome rt s = s
  answered-IsSound (some request) none outcome rt s = s
  answered-IsSound (some request) (some grant) outcome rt s = record {
    loose = answered-Loose limits (some request) (some grant) outcome rt s.loose;
    drained = s.drained;
    idle = s.idle;
  }

  release-pumping :
      (clock : Clock) (job : Job) (outcome : Outcome) (fenced : Bool) (rt : Runtime)
      → (release clock job outcome fenced rt).pumping ≡ rt.pumping
  unfolding release
  release-pumping clock job outcome fenced rt = flags job.health fenced
    where
      flags :
          (health fenced : Bool)
          → (if health
              then settle_health clock outcome (fence fenced rt)
              else leave_queues job (fence fenced rt)).pumping
            ≡ rt.pumping
      flags true true = refl
      flags true false = refl
      flags false true = refl
      flags false false = refl

module _ (limits : Limits) (dial : ℕ → Link) (clock : Clock) where
  pump-IsSound :
      (rt : Runtime)
      → rt.pumping ≡ false
      → Loose limits rt
      → IsSound limits (pump limits dial clock rt)
  unfolding pump
  pump-IsSound rt idle l =
      let begun : Runtime = record rt { pumping = true } in
      let loose : Loose limits begun = record {
        active = l.active;
        pending = l.pending;
        active_timed = l.active_timed;
        pending_timed = l.pending_timed;
        health = l.health;
        unready = l.unready;
      } in
      let done = pump_loop-Loose limits dial clock (length rt.pending) begun loose in
      rw idle (record {
        loose = record {
          active = done.active;
          pending = done.pending;
          active_timed = done.active_timed;
          pending_timed = done.pending_timed;
          health = done.health;
          unready = done.unready;
        };
        drained =
            pump_loop-IsDrained limits dial clock (length rt.pending) begun (omega arith) loose;
        idle = refl;
      })

  complete-IsSound :
      (job : Job) (outcome : Outcome) (fenced : Bool) (rt : Runtime)
      → rt.pumping ≡ false
      → Loose limits rt
      → IsSound limits (complete limits dial clock job outcome fenced rt)
  unfolding complete reply_to
  complete-IsSound job outcome fenced rt idle l =
      let freed = release clock job outcome fenced rt in
      answered-IsSound limits job.request job.grant (final_outcome clock job outcome)
        (pump limits dial clock freed)
        (pump-IsSound freed (rw (release-pumping limits clock job outcome fenced rt) idle)
          (release-Loose limits clock job outcome fenced rt l))

  -- A job that has been put in place is connected.
  connect-IsSound :
      (job : Job) (rt : Runtime)
      → IsSound limits rt
      → IsSound limits (connect limits dial clock job rt)
  unfolding connect
  connect-IsSound job rt s = elim (Bool-cases (is_opened (dial job.id))) [
    | inl open_link ↦ rw open_link s
    | inr closed ↦ rw closed (complete-IsSound job full false rt s.idle s.loose)
  ]

  poll-IsSound :
      (exiting : Bool) (rt : Runtime)
      → IsSound limits rt
      → IsSound limits (poll limits dial clock exiting rt)
  unfolding poll
  poll-IsSound exiting rt s = elim (Bool-cases (exiting || rt.health_busy || rt.fenced)) [
    | inl skip ↦ rw skip s
    | inr check ↦ rw check (
        connect-IsSound _ _ (record {
          loose = record {
            active = s.loose.active;
            pending = s.loose.pending;
            active_timed = s.loose.active_timed;
            pending_timed = s.loose.pending_timed;
            health = (refl, refl, refl, refl);
            unready = s.loose.unready;
          };
          drained = s.drained;
          idle = s.idle;
        }))
  ]

  pub room-pending :
      (rt : Runtime) → length rt.active < limits.connections → IsDrained limits rt → rt.pending ≡ []
  room-pending rt room (inl e) = e
  room-pending rt room (inr all) = absurd (omega arith)

  enqueue-IsSound :
      (request : ℕ) (expires : ℤ) (grant : Grant) (rt : Runtime)
      → (leb limits.connections (length rt.active) && leb limits.queue (length rt.pending)) ≡ false
      → IsSound limits rt
      → IsSound limits (enqueue limits dial clock request expires grant rt)
  unfolding enqueue
  enqueue-IsSound request expires grant rt room s =
      elim (Bool-cases (ltb (length rt.active) limits.connections)) [
        | inl link ↦
            let lt = ltb→lt (length rt.active) limits.connections link in
            rw link (
              connect-IsSound _ _ (record {
                loose = record {
                  active = omega (arith, length-append rt.active);
                  pending = s.loose.pending;
                  active_timed = All-snoc rt.active _ s.loose.active_timed (refl, refl);
                  pending_timed = s.loose.pending_timed;
                  health = s.loose.health;
                  unready = s.loose.unready;
                };
                drained = inl (room-pending rt lt s.drained);
                idle = s.idle;
              }))
        | inr busy ↦
            let ge : limits.connections ≤ length rt.active = ground arith in
            let lt : length rt.pending < limits.queue = ground arith in
            rw busy (record {
              loose = record {
                active = s.loose.active;
                pending = omega (arith, length-append rt.pending);
                active_timed = s.loose.active_timed;
                pending_timed = All-snoc rt.pending _ s.loose.pending_timed (refl, refl);
                health = s.loose.health;
                unready = s.loose.unready;
              };
              drained = inr (omega (arith, s.loose.active));
              idle = s.idle;
            })
      ]

  redeem-IsSound :
      (request : ℕ) (expires : ℤ) (grant : Grant) (no_cleanup : Bool) (rt : Runtime)
      → IsSound limits rt
      → IsSound limits (redeem limits dial clock request expires grant no_cleanup rt)
  unfolding redeem
  redeem-IsSound request expires grant no_cleanup rt s =
      let crowded =
        leb limits.connections (length rt.active) && leb limits.queue (length rt.pending) in
      elim (Bool-cases (not (available clock rt) || crowded || no_cleanup)) [
        | inl refuse ↦ rw refuse (answered-IsSound limits (some request) (some grant) full rt s)
        | inr go ↦ rw go (
            enqueue-IsSound request expires grant rt
              (middle (not (available clock rt)) crowded no_cleanup go) s)
      ]
    where
      middle : (a b c : Bool) → (a || b || c) ≡ false → b ≡ false
      middle a b c h = ground arith

module _ (limits : Limits) where
  pub Step-IsSound :
      {rt rt' : Runtime} → Step limits rt rt' → IsSound limits rt → IsSound limits rt'
  Step-IsSound {rt} (polled dial clock exiting) s = poll-IsSound limits dial clock exiting rt s
  Step-IsSound {rt} (redeemed dial clock request expires grant no_cleanup) s =
      redeem-IsSound limits dial clock request expires grant no_cleanup rt s
  Step-IsSound {rt} (finished dial clock job outcome fenced h) s =
      complete-IsSound limits dial clock job outcome fenced rt s.idle s.loose
  Step-IsSound {rt} (disconnected dial clock job h) s =
      complete-IsSound limits dial clock (record job { request = none }) full false rt s.idle
        s.loose

  activated-IsSound : IsSound limits activated
  activated-IsSound = record {
    loose = record {
      active = omega arith;
      pending = omega arith;
      active_timed = tt;
      pending_timed = tt;
      health = refl;
      unready = λ e. refl;
    };
    drained = inl refl;
    idle = refl;
  }

  -- In every state that a worker reaches, by whatever order of polls, redemptions, replies,
  -- failures, deadlines and disconnects, and whatever the connections do: the connections and the
  -- queue keep to their limits, every job has its deadline set, no job waits in the queue while a
  -- connection is free, the busy mark stands for one health job, and a fenced worker is not ready.
  pub Reach-IsSound : {rt : Runtime} → Reach limits activated rt → IsSound limits rt
  Reach-IsSound stays = activated-IsSound
  Reach-IsSound (after run step) = Step-IsSound step (Reach-IsSound run)

-- ===== src/Cluster/Answers.antt =====
-- A request is answered at most once for each time that it is handed over.
use ngx_http_pow_gate.Common.{
  ℕ, zero, suc, ◌+◌, ◌≤◌, ◌≡◌, refl, arith, Bool, true, false, not, ◌&&◌, ◌||◌, ltb, leb, ◌==◌,
  if◌then◌else◌, Option, none, some, List, [], ◌∷◌, ◌++◌, length, All, Bool-cases, inl, inr, ◌↔◌,
  ltb→lt, subst, ap, length-append,
}
use ngx_http_pow_gate.Common.Int.{ℤ, leb_ℤ, ◌<ℤ◌, leb_ℤ→≤ℤ, leb_ℤ-false}
use ngx_http_pow_gate.Redemption.{Outcome, full, accepted, reused, expired}
use ngx_http_pow_gate.Finish.{Grant}
use ngx_http_pow_gate.Cluster.{
  Limits, Job, Runtime, Clock, Link, Answer, without, is_opened, activated, available, fence,
  release, answered, reply_to, connect_nested, start_first, pump_loop, pump, complete, connect,
  poll, enqueue, redeem, final_outcome, complete_nested,
}
use ngx_http_pow_gate.Cluster.Bounds.{
  Loose, Timed, Checks, All-snoc, start_first-Loose, release-Loose,
}
use ngx_http_pow_gate.Cluster.Steps.{
  Step, polled, redeemed, finished, disconnected, Reach, stays, after, Reach-IsSound, Holds, In,
}

module _ (request : ℕ) where
  abbrev one : ℕ → ℕ
  one r = if r == request then 1 else 0

  abbrev of_request : Option ℕ → ℕ
  of_request none = 0
  of_request (some r) = one r

  -- The jobs that hold the request.
  abbrev pub holding : List Job → ℕ
  holding [] = 0
  holding (job ∷ jobs) = of_request job.request + holding jobs

  -- Its answers.
  abbrev pub told : List Answer → ℕ
  told [] = 0
  told (answer ∷ answers) = one answer.request + told answers

  abbrev pub open_and_told : Runtime → ℕ
  open_and_told rt = told rt.answers + holding rt.active + holding rt.pending

  holding-append : (jobs more : List Job) → holding (jobs ++ more) ≡ holding jobs + holding more
  holding-append [] more = omega arith
  holding-append (job ∷ jobs) more = omega (arith, holding-append jobs more)

  told-append : (answers more : List Answer) → told (answers ++ more) ≡ told answers + told more
  told-append [] more = omega arith
  told-append (answer ∷ answers) more = omega (arith, told-append answers more)

  holding-without-le : (id : ℕ) (jobs : List Job) → holding (without id jobs) ≤ holding jobs
  unfolding without
  holding-without-le id [] = omega arith
  holding-without-le id (job ∷ jobs) = ground (arith, holding-without-le id jobs)

  -- A job that leaves a queue takes its request along.
  holding-without :
      (job : Job) (jobs : List Job)
      → In job jobs
      → of_request job.request + holding (without job.id jobs) ≤ holding jobs
  unfolding without
  holding-without job [] h = elim h [ ]
  holding-without job (first ∷ jobs) (inl e) =
      let same : (first.id == job.id) ≡ true = rw e (ground arith) in
      let asked : of_request first.request ≡ of_request job.request =
        ap (λ (j : Job). of_request j.request) e in
      rw same (omega (arith, holding-without-le job.id jobs))
  holding-without job (first ∷ jobs) (inr m) = elim (Bool-cases (first.id == job.id)) [
    | inl same ↦ rw same (omega (arith, holding-without job jobs m))
    | inr other ↦ rw other (omega (arith, holding-without job jobs m))
  ]

  In-snoc : (job : Job) (jobs : List Job) → In job (jobs ++ job ∷ [])
  In-snoc job [] = inl refl
  In-snoc job (first ∷ jobs) = inr (In-snoc job jobs)

  answered-told :
      (asked : Option ℕ) (grant : Option Grant) (outcome : Outcome) (rt : Runtime)
      → open_and_told (answered asked grant outcome rt) ≤ of_request asked + open_and_told rt
  answered-told none grant outcome rt = omega arith
  answered-told (some r) none outcome rt = omega arith
  answered-told (some r) (some grant) outcome rt = omega (
    arith,
    told-append rt.answers (record { request = r; outcome = outcome; grant = grant } ∷ []),
  )

  fence-told : (fenced : Bool) (rt : Runtime) → open_and_told (fence fenced rt) ≡ open_and_told rt
  fence-told true rt = refl
  fence-told false rt = refl

  -- A job of a queue that is released.
  release-queued :
      (clock : Clock) (job : Job) (outcome : Outcome) (fenced : Bool) (rt : Runtime)
      → job.health ≡ false
      → of_request job.request
          + holding (without job.id rt.active)
          + holding (without job.id rt.pending)
        ≤ holding rt.active + holding rt.pending
      → of_request job.request + open_and_told (release clock job outcome fenced rt)
        ≤ open_and_told rt
  unfolding release
  release-queued clock job outcome true rt e h = rw e (omega arith)
  release-queued clock job outcome false rt e h = rw e (omega arith)

  release-health :
      (clock : Clock) (job : Job) (outcome : Outcome) (fenced : Bool) (rt : Runtime)
      → job.health ≡ true
      → open_and_told (release clock job outcome fenced rt) ≡ open_and_told rt
  unfolding release
  release-health clock job outcome true rt e = rw e
  release-health clock job outcome false rt e = rw e

  module _ (limits : Limits) (dial : ℕ → Link) (clock : Clock) where
    start_first-told :
        (rt : Runtime) (jobs : List Job)
        → rt.pending ≡ jobs
        → All Timed jobs
        → open_and_told (start_first limits dial clock rt jobs) ≤ open_and_told rt
    unfolding start_first connect_nested complete_nested reply_to
    start_first-told rt [] e t = omega arith
    start_first-told rt (job ∷ jobs) e t =
        let moved : Runtime = record rt { pending = jobs; active = rt.active ++ job ∷ [] } in
        let same : open_and_told moved ≡ open_and_told rt =
          omega (arith, holding-append rt.active (job ∷ []), ap holding e) in
        elim (Bool-cases (is_opened (dial job.id))) [
          | inl open_link ↦ rw open_link (omega arith)
          | inr closed ↦ rw closed (
              omega (
                arith,
                answered-told job.request job.grant (final_outcome clock job full)
                    (release clock job full false moved),
                release-queued clock job full false moved t.0.1 (
                    omega (
                      arith,
                      holding-without job moved.active (In-snoc job rt.active),
                      holding-without-le job.id jobs,
                    )),
              ))
        ]

    pump_loop-told :
        (fuel : ℕ) (rt : Runtime)
        → Loose limits rt
        → open_and_told (pump_loop limits dial clock fuel rt) ≤ open_and_told rt
    unfolding pump_loop
    pump_loop-told zero rt l = omega arith
    pump_loop-told (suc fuel) rt l = elim (Bool-cases (ltb (length rt.active) limits.connections)) [
      | inr busy ↦ rw busy (omega arith)
      | inl room ↦ rw room (
          omega (
            arith,
            pump_loop-told fuel (start_first limits dial clock rt rt.pending)
                (start_first-Loose limits dial clock rt rt.pending refl (ltb→lt _ _ room) l),
            start_first-told rt rt.pending refl l.pending_timed,
          ))
    ]

    pump-told :
        (rt : Runtime)
        → Loose limits rt
        → open_and_told (pump limits dial clock rt) ≤ open_and_told rt
    unfolding pump
    pump-told rt l = elim (Bool-cases rt.pumping) [
      | inl pumping ↦ rw pumping (omega arith)
      | inr idle ↦ rw idle (
          pump_loop-told (length rt.pending) (record rt { pumping = true })
            (record {
              active = l.active;
              pending = l.pending;
              active_timed = l.active_timed;
              pending_timed = l.pending_timed;
              health = l.health;
              unready = l.unready;
            }))
    ]

    complete-told :
        (job : Job) (outcome : Outcome) (fenced : Bool) (rt : Runtime)
        → Loose limits rt
        → of_request job.request + open_and_told (release clock job outcome fenced rt)
          ≤ open_and_told rt
        → open_and_told (complete limits dial clock job outcome fenced rt) ≤ open_and_told rt
    unfolding complete reply_to
    complete-told job outcome fenced rt l h =
        let freed = release clock job outcome fenced rt in
        omega (
          arith,
          answered-told job.request job.grant (final_outcome clock job outcome)
              (pump limits dial clock freed),
          pump-told freed (release-Loose limits clock job outcome fenced rt l),
        )

  In-All : (job : Job) (jobs : List Job) → In job jobs → All Timed jobs → Timed job
  In-All job [] h t = elim h [ ]
  In-All job (first ∷ jobs) (inl e) t = subst Timed e t.0
  In-All job (first ∷ jobs) (inr m) t = In-All job jobs m t.1

  release-told :
      (limits : Limits) (clock : Clock) (job : Job) (outcome : Outcome) (fenced : Bool)
      (rt : Runtime)
      → Loose limits rt
      → Holds rt job
      → of_request job.request + open_and_told (release clock job outcome fenced rt)
        ≤ open_and_told rt
  release-told limits clock job outcome fenced rt l (inl m) =
      release-queued clock job outcome fenced rt (In-All job rt.active m l.active_timed).1
        (omega (arith, holding-without job rt.active m, holding-without-le job.id rt.pending))
  release-told limits clock job outcome fenced rt l (inr (inl m)) =
      release-queued clock job outcome fenced rt (In-All job rt.pending m l.pending_timed).1
        (omega (arith, holding-without job rt.pending m, holding-without-le job.id rt.active))
  release-told limits clock job outcome fenced rt l (inr (inr e)) =
      let checks : Checks (some job) rt.health_busy =
        subst (λ c. Checks c rt.health_busy) e l.health in
      let silent : of_request job.request ≡ 0 = rw checks.3 in
      omega (arith, release-health clock job outcome fenced rt checks.2)

  -- The same for a job whose request has gone.
  dropped-told :
      (limits : Limits) (clock : Clock) (job : Job) (rt : Runtime)
      → Loose limits rt
      → Holds rt job
      → open_and_told (release clock (record job { request = none }) full false rt)
        ≤ open_and_told rt
  unfolding release
  dropped-told limits clock job rt l h =
      omega (arith, release-told limits clock job full false rt l h)

  -- The redemptions of the request that a step makes.
  abbrev pub calls_of : {limits : Limits} {rt rt' : Runtime} → Step limits rt rt' → ℕ
  calls_of (polled dial clock exiting) = 0
  calls_of (redeemed dial clock asked expires grant no_cleanup) = one asked
  calls_of (finished dial clock job outcome fenced h) = 0
  calls_of (disconnected dial clock job h) = 0

  abbrev pub calls : {limits : Limits} {start rt : Runtime} → Reach limits start rt → ℕ
  calls stays = 0
  calls (after run step) = calls run + calls_of step

  module _ (limits : Limits) (dial : ℕ → Link) (clock : Clock) where
    connect-told :
        (job : Job) (rt : Runtime)
        → Loose limits rt
        → Holds rt job
        → open_and_told (connect limits dial clock job rt) ≤ open_and_told rt
    unfolding connect
    connect-told job rt l h = elim (Bool-cases (is_opened (dial job.id))) [
      | inl open_link ↦ rw open_link (omega arith)
      | inr closed ↦ rw closed (
          complete-told limits dial clock job full false rt l
            (release-told limits clock job full false rt l h))
    ]

    poll-told :
        (exiting : Bool) (rt : Runtime)
        → Loose limits rt
        → open_and_told (poll limits dial clock exiting rt) ≤ open_and_told rt
    unfolding poll
    poll-told exiting rt l = elim (Bool-cases (exiting || rt.health_busy || rt.fenced)) [
      | inl skip ↦ rw skip (omega arith)
      | inr check ↦ rw check (
          connect-told _ _
            (record {
              active = l.active;
              pending = l.pending;
              active_timed = l.active_timed;
              pending_timed = l.pending_timed;
              health = (refl, refl, refl, refl);
              unready = l.unready;
            })
            (inr (inr refl)))
    ]

    enqueue-told :
        (asked : ℕ) (expires : ℤ) (grant : Grant) (rt : Runtime)
        → Loose limits rt
        → open_and_told (enqueue limits dial clock asked expires grant rt)
          ≤ one asked + open_and_told rt
    unfolding enqueue
    enqueue-told asked expires grant rt l =
        let job : Job = record {
          id = rt.next;
          request = some asked;
          grant = some grant;
          expires = expires;
          health = false;
          timer = true;
        } in
        elim (Bool-cases (ltb (length rt.active) limits.connections)) [
          | inl room ↦
              let lt = ltb→lt (length rt.active) limits.connections room in
              let placed : Runtime = record rt {
                active = rt.active ++ job ∷ [];
                next = suc rt.next;
              } in
              let loose : Loose limits placed = record {
                active = omega (arith, length-append rt.active (job ∷ []));
                pending = l.pending;
                active_timed = All-snoc rt.active job l.active_timed (refl, refl);
                pending_timed = l.pending_timed;
                health = l.health;
                unready = l.unready;
              } in
              rw room (
                omega (
                  arith,
                  connect-told job placed loose (inl (In-snoc job rt.active)),
                  holding-append rt.active (job ∷ []),
                ))
          | inr busy ↦ rw busy (omega (arith, holding-append rt.pending (job ∷ [])))
        ]

    redeem-told :
        (asked : ℕ) (expires : ℤ) (grant : Grant) (no_cleanup : Bool) (rt : Runtime)
        → Loose limits rt
        → open_and_told (redeem limits dial clock asked expires grant no_cleanup rt)
          ≤ one asked + open_and_told rt
    unfolding redeem
    redeem-told asked expires grant no_cleanup rt l =
        let crowded =
          leb limits.connections (length rt.active) && leb limits.queue (length rt.pending) in
        elim (Bool-cases (not (available clock rt) || crowded || no_cleanup)) [
          | inl refuse ↦ rw refuse (answered-told (some asked) (some grant) full rt)
          | inr go ↦ rw go (enqueue-told asked expires grant rt l)
        ]

  module _ (limits : Limits) where
    Step-told :
        {rt rt' : Runtime} (step : Step limits rt rt')
        → Loose limits rt
        → open_and_told rt' ≤ calls_of step + open_and_told rt
    Step-told {rt} (polled dial clock exiting) l =
        omega (arith, poll-told limits dial clock exiting rt l)
    Step-told {rt} (redeemed dial clock asked expires grant no_cleanup) l =
        redeem-told limits dial clock asked expires grant no_cleanup rt l
    Step-told {rt} (finished dial clock job outcome fenced h) l = omega (
      arith,
      complete-told limits dial clock job outcome fenced rt l
          (release-told limits clock job outcome fenced rt l h),
    )
    Step-told {rt} (disconnected dial clock job h) l = omega (
      arith,
      complete-told limits dial clock (record job { request = none }) full false rt l
          (omega (arith, dropped-told limits clock job rt l h)),
    )

    -- In every run of a worker, the answers that a request has been given, and the jobs that
    -- still hold it, are together no more than the redemptions that were asked for it: no request
    -- is answered twice, and none whose answer is out can be answered later.
    pub Reach-told :
        {rt : Runtime} (run : Reach limits activated rt)
        → told rt.answers + holding rt.active + holding rt.pending ≤ calls run
    Reach-told stays = omega arith
    Reach-told (after run step) =
        omega (arith, Reach-told run, Step-told step (Reach-IsSound limits run).loose)

-- When a job of a request ends, its request is answered once, after what the pump answers. The
-- answer is an acceptance exactly if the ledger accepted the token and it has not expired since:
-- a late reply redeems nothing.
pub complete-answer :
    (limits : Limits) (dial : ℕ → Link) (clock : Clock) (job : Job) (outcome : Outcome)
    (fenced : Bool) (rt : Runtime) (r : ℕ) (grant : Grant)
    → job.request ≡ some r
    → job.grant ≡ some grant
    → job.health ≡ false
    → (final : Outcome) × ((complete limits dial clock job outcome fenced rt).answers
        ≡ (pump limits dial clock (release clock job outcome fenced rt)).answers
          ++ record { request = r; outcome = final; grant = grant } ∷ [])
      × ((final ≡ accepted) ↔ ((outcome ≡ accepted) × (clock.now <ℤ job.expires)))
unfolding complete reply_to final_outcome
complete-answer limits dial clock job outcome fenced rt r grant er eg eh =
    (final_outcome clock job outcome, rw (er, eg), last outcome)
  where
    last :
        (outcome : Outcome)
        → (final_outcome clock job outcome ≡ accepted)
          ↔ ((outcome ≡ accepted) × (clock.now <ℤ job.expires))
    last accepted = elim (Bool-cases (leb_ℤ job.expires clock.now)) [
      | inl late ↦
          rw (eh, late)
            (
              λ e. absurd (cc e),
              λ h. absurd (omega (arith, leb_ℤ→≤ℤ job.expires clock.now late, h.1)),
            )
      | inr early ↦ rw (eh, early) (λ e. (refl, leb_ℤ-false job.expires clock.now early), λ h. refl)
    ]
    last reused = rw eh (λ e. absurd (cc e), λ h. absurd (cc h.0))
    last full = rw eh (λ e. absurd (cc e), λ h. absurd (cc h.0))
    last expired = rw eh (λ e. absurd (cc e), λ h. absurd (cc h.0))

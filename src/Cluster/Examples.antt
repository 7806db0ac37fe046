-- ===== src/Cluster/Examples.antt =====
-- Runs of the theorems on small workers.
use ngx_http_pow_gate.Common.{
  ℕ, ◌+◌, ◌≤◌, ◌≡◌, ◌↔◌, refl, arith, true, false, none, some, [], ◌∷◌, ◌++◌, inr, ◌==◌,
  if◌then◌else◌,
}
use ngx_http_pow_gate.Common.Int.{pos, ◌<ℤ◌}
use ngx_http_pow_gate.Common.Bytes.{codes}
use ngx_http_pow_gate.Redemption.{accepted, full, expired}
use ngx_http_pow_gate.Finish.{Grant}
use ngx_http_pow_gate.Cluster.{
  Limits, Job, Runtime, Clock, Link, opened, failed, activated, poll, redeem, complete, connect,
  enqueue, release, pump, pump_loop, reply_to, final_outcome, without, available, issuer, answered,
}
use ngx_http_pow_gate.Cluster.Steps.{
  Reach, stays, after, polled, redeemed, finished, IsSound, Reach-IsSound,
}
use ngx_http_pow_gate.Cluster.Fenced.{Reach-fenced}
use ngx_http_pow_gate.Cluster.Answers.{Reach-told, told, holding, calls, complete-answer}
use ngx_http_pow_gate.Cluster.Wiring.{Received, Ended, read_loop}
use ngx_http_pow_gate.Cluster.Wiring.Loops.{read_loop-ends}

abbrev small : Limits
small = record { connections = 1; queue = 1 }

-- The third job cannot connect.
abbrev dial : ℕ → Link
dial id = if id == 3 then failed else opened

abbrev early : Clock
early = record { msec = 10; now = pos 100 }

abbrev late : Clock
late = record { msec = 900; now = pos 200 }

abbrev grant : Grant
grant = record { cookie = codes "c"; redirect = none; difficulty = 1; kind = codes "pow" }

abbrev health_job : Job
health_job = record {
  id = 0;
  request = none;
  grant = none;
  expires = pos 0;
  health = true;
  timer = true;
}

abbrev job : Job
job = record {
  id = 1;
  request = some 7;
  grant = some grant;
  expires = pos 160;
  health = false;
  timer = true;
}

abbrev polled_once : Runtime
unfolding poll connect
polled_once = poll small dial early false activated

abbrev healthy : Runtime
unfolding poll connect complete release pump pump_loop reply_to final_outcome
healthy = complete small dial early health_job accepted false polled_once

abbrev asked : Runtime
unfolding poll connect complete release pump pump_loop reply_to final_outcome redeem enqueue
    available
asked = redeem small dial early 7 (pos 160) grant false healthy

abbrev run : Reach small activated asked
unfolding poll connect complete release pump pump_loop reply_to final_outcome redeem enqueue
    available
run =
    after
      (after (after stays (polled dial early false))
        (finished dial early health_job accepted false (inr (inr refl))))
      (redeemed dial early 7 (pos 160) grant false)

Reach-IsSound_example : IsSound small asked
Reach-IsSound_example = Reach-IsSound small run

Reach-told_example :
    told 7 asked.answers + holding 7 asked.active + holding 7 asked.pending ≤ calls 7 run
Reach-told_example = Reach-told 7 small run

-- The run holds the request once, and a reply that comes late is no acceptance.
run_holds : holding 7 asked.active ≡ 1
unfolding poll connect complete release pump pump_loop reply_to final_outcome redeem enqueue
    available
run_holds = refl

run_ends_late :
    (complete small dial late job accepted false asked).answers
    ≡ record { request = 7; outcome = expired; grant = grant } ∷ []
unfolding poll connect complete release pump pump_loop reply_to final_outcome redeem enqueue
    available without
run_ends_late = refl

complete-answer_example :
    (final : _) × ((complete small dial late job accepted false asked).answers
      ≡ (pump small dial late (release late job accepted false asked)).answers
        ++ record { request = 7; outcome = final; grant = grant } ∷ [])
    × ((final ≡ accepted) ↔ ((accepted ≡ accepted) × (late.now <ℤ job.expires)))
complete-answer_example =
    complete-answer small dial late job accepted false asked 7 grant refl refl refl

abbrev fenced_start : Runtime
fenced_start = record activated { fenced = true }

Reach-fenced_example :
    (fenced_start.fenced ≡ true)
    × (issuer (7 ∷ []) fenced_start ≡ none)
    × (poll small dial early false fenced_start ≡ fenced_start)
    × (redeem small dial early 7 (pos 160) grant false fenced_start
        ≡ answered (some 7) (some grant) full fenced_start)
Reach-fenced_example =
    Reach-fenced small {rt = fenced_start} {rt' = fenced_start} refl stays (7 ∷ []) dial early 7
      (pos 160) grant false false

abbrev one_line : ℕ → Received
one_line k = if k == 0 then Received.bytes (codes ":1") else Received.again true

read_loop-ends_example : (e : Ended) × (read_loop one_line 2051 0 true [] ≡ some e)
read_loop-ends_example = read_loop-ends one_line 2051 0 true [] (ground arith)

-- ===== src/Scheduler/Backpressure/Rest.antt =====
-- What the threads of Scheduler/Backpressure guarantee under every schedule: no job and no paused
-- receive is forgotten, and there is one receive at a time.
use iocpnetwork_engine.Prelude.{◌+◌, ◌≤◌, ◌≡◌, ◌⊎◌, true, false, List, [], ap, arith}
use iocpnetwork_engine.Prelude.Int.{pos}
use iocpnetwork_engine.Prelude.Schedule.{Pick, total}
use iocpnetwork_engine.Buffer.SessionBufferConfig.{SessionBufferConfig}
use iocpnetwork_engine.Scheduler.Backpressure.{
  Answers, Thread, submitting, working, receiving, resuming, unposting, dropping, System, Step, run,
  submit, pop, complete, give_up, cancel, cancel_not_found, start, Reach, here, next,
}
use iocpnetwork_engine.Scheduler.Backpressure.Inv.{
  Inv, processes, retries, resumes, carries, holds, flag,
}
use iocpnetwork_engine.Scheduler.Backpressure.Moves.{
  After, Pick-Picked, submitting-Inv, working-Inv, receiving-Inv, resuming-Inv, unposting-Inv,
  dropping-Inv,
}

run-Inv :
    (c : SessionBufferConfig) (a : Answers) (s : System) (t : Thread) (rest : List Thread)
    → Pick t s.threads rest
    → Inv s
    → After c a s t rest
run-Inv c a s (submitting pc) rest p v = submitting-Inv c a s pc rest (Pick-Picked p) v
run-Inv c a s (working pc) rest p v = working-Inv c a s pc rest (Pick-Picked p) v
run-Inv c a s (receiving pc) rest p v = receiving-Inv c a s pc rest (Pick-Picked p) v
run-Inv c a s (resuming pc) rest p v = resuming-Inv c a s pc rest (Pick-Picked p) v
run-Inv c a s unposting rest p v = unposting-Inv c a s rest (Pick-Picked p) v
run-Inv c a s dropping rest p v = dropping-Inv c a s rest (Pick-Picked p) v

Step-Inv : {c : SessionBufferConfig} {s t : System} → Step c s t → Inv s → Inv t
Step-Inv {c} {s} (run a t rest p) v = run-Inv c a s t rest p v
Step-Inv submit v = ground (arith, v, v.driven, v.woken, v.cancelled, v.failed)
Step-Inv (pop n e) v = ground (arith, v, v.driven, v.woken, v.cancelled, v.failed)
Step-Inv (complete n e) v = ground (arith, v, v.driven, v.woken, v.cancelled, v.failed)
Step-Inv (give_up n e) v = ground (arith, v, v.driven, v.woken, v.cancelled, v.failed)
Step-Inv cancel v = ground (arith, v, v.driven, v.woken, v.cancelled, v.failed)
Step-Inv cancel_not_found v = ground (arith, v, v.driven, v.woken, v.cancelled, v.failed)

start-Inv : Inv start
start-Inv = ground arith

Reach-Inv : {c : SessionBufferConfig} {s : System} → Reach c s → Inv s
Reach-Inv here = start-Inv
Reach-Inv (next r st) = Step-Inv st (Reach-Inv r)

-- However the threads interleave, once none of them is at work, the session does not stand in the
-- ready queue, and no push to that queue has failed, the job queue is empty and the session is not
-- paused; and one receive is with the system, or a release was requested, or I/O was cancelled.
pub at_rest :
    {c : SessionBufferConfig} {s : System}
    → Reach c s
    → s.threads ≡ []
    → s.shared.scheduled ≡ 0
    → s.shared.push_failures ≡ 0
    → (s.shared.job_depth ≡ 0)
      × (s.shared.recv_paused ≡ false)
      × ((s.shared.posted ≡ 1) ⊎ (s.shared.release_requested ≡ true) ⊎ (s.shared.cancel_io ≡ true))
at_rest r none_left unscheduled no_failure =
    let v = Reach-Inv r in
    ground (
      arith,
      v,
      v.driven,
      v.woken,
      ap (total processes) none_left,
      ap (total retries) none_left,
      ap (total resumes) none_left,
      ap (total carries) none_left,
    )

-- Under every schedule at most one receive is with the system, none while the session is paused,
-- and the session stands in the ready queue at most once.
pub one_at_a_time :
    {c : SessionBufferConfig} {s : System}
    → Reach c s
    → (s.shared.posted + flag s.shared.recv_paused ≤ 1) × (s.shared.scheduled ≤ 1)
one_at_a_time {c} {s} r =
    let v = Reach-Inv r in (omega (arith, v.one_receive), ground (arith, v.token))

-- The I/O counts that pauses took are one for a paused session and one for each thread that still
-- has one to give back; so none is left over once the session is not paused and no thread is at work.
pub pause_holds_lem :
    {c : SessionBufferConfig} {s : System}
    → Reach c s
    → s.shared.pause_holds ≡ pos (flag s.shared.recv_paused + total holds s.threads)
pause_holds_lem r = (Reach-Inv r).held

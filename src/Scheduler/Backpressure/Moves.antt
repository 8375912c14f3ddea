-- ===== src/Scheduler/Backpressure/Moves.antt =====
-- Every step of the threads of Scheduler/Backpressure keeps the invariant.
use iocpnetwork_engine.Prelude.{◌+◌, ◌≡◌, List, arith}
use iocpnetwork_engine.Prelude.Schedule.{Pick, put_back, total, Pick-total}
use iocpnetwork_engine.Buffer.SessionBufferConfig.{SessionBufferConfig}
use iocpnetwork_engine.Scheduler.Backpressure.{
  Answers, SubmitPc, WorkPc, ReceivePc, ResumePc, enqueue, claim, push, unclaim, drain, clear,
  look_empty, claim_again, push_again, unclaim_again, look_paused, look_level, look_depth,
  post_receive, ask_cancel, count, verify, mark, recheck, swap, post_again, Thread, submitting,
  working, receiving, resuming, unposting, dropping, System, step,
}
use iocpnetwork_engine.Scheduler.Backpressure.Inv.{
  Inv, processes, retries, resumes, carries, holds, cancels, undoes,
}

-- What taking a thread out of those at work does to each sum.
pub record Picked (t : Thread) (ts us : List Thread) : Type 0 where
  pub processing : total processes ts ≡ processes t + total processes us
  pub retrying : total retries ts ≡ retries t + total retries us
  pub to_resume : total resumes ts ≡ resumes t + total resumes us
  pub carrying : total carries ts ≡ carries t + total carries us
  pub holding : total holds ts ≡ holds t + total holds us
  pub cancelling : total cancels ts ≡ cancels t + total cancels us
  pub undoing : total undoes ts ≡ undoes t + total undoes us

pub Pick-Picked : {t : Thread} {ts us : List Thread} → Pick t ts us → Picked t ts us
Pick-Picked {t} p = record {
  processing = Pick-total processes t p;
  retrying = Pick-total retries t p;
  to_resume = Pick-total resumes t p;
  carrying = Pick-total carries t p;
  holding = Pick-total holds t p;
  cancelling = Pick-total cancels t p;
  undoing = Pick-total undoes t p;
}

abbrev pub After : SessionBufferConfig → Answers → System → Thread → List Thread → Type 0
After c a s t rest = Inv (record {
  shared = (step c a s.shared t).shared;
  threads = put_back (step c a s.shared t).next rest;
})

pub submitting-Inv :
    (c : SessionBufferConfig) (a : Answers) (s : System) (pc : SubmitPc) (rest : List Thread)
    → Picked (submitting pc) s.threads rest
    → Inv s
    → After c a s (submitting pc) rest
unfolding step
submitting-Inv c a s enqueue rest k v =
    ground (arith, k, v, v.driven, v.woken, v.cancelled, v.failed)
submitting-Inv c a s claim rest k v = ground (arith, k, v, v.driven, v.woken, v.cancelled, v.failed)
submitting-Inv c a s push rest k v = ground (arith, k, v, v.driven, v.woken, v.cancelled, v.failed)
submitting-Inv c a s unclaim rest k v =
    ground (arith, k, v, v.driven, v.woken, v.cancelled, v.failed)

pub working-Inv :
    (c : SessionBufferConfig) (a : Answers) (s : System) (pc : WorkPc) (rest : List Thread)
    → Picked (working pc) s.threads rest
    → Inv s
    → After c a s (working pc) rest
unfolding step
working-Inv c a s drain rest k v = ground (arith, k, v, v.driven, v.woken, v.cancelled, v.failed)
working-Inv c a s clear rest k v = ground (arith, k, v, v.driven, v.woken, v.cancelled, v.failed)
working-Inv c a s look_empty rest k v =
    ground (arith, k, v, v.driven, v.woken, v.cancelled, v.failed)
working-Inv c a s claim_again rest k v =
    ground (arith, k, v, v.driven, v.woken, v.cancelled, v.failed)
working-Inv c a s push_again rest k v =
    ground (arith, k, v, v.driven, v.woken, v.cancelled, v.failed)
working-Inv c a s unclaim_again rest k v =
    ground (arith, k, v, v.driven, v.woken, v.cancelled, v.failed)
working-Inv c a s look_paused rest k v =
    ground (arith, k, v, v.driven, v.woken, v.cancelled, v.failed)
working-Inv c a s look_level rest k v =
    ground (arith, k, v, v.driven, v.woken, v.cancelled, v.failed)

pub receiving-Inv :
    (c : SessionBufferConfig) (a : Answers) (s : System) (pc : ReceivePc) (rest : List Thread)
    → Picked (receiving pc) s.threads rest
    → Inv s
    → After c a s (receiving pc) rest
unfolding step
receiving-Inv c a s look_depth rest k v =
    ground (arith, k, v, v.driven, v.woken, v.cancelled, v.failed)
receiving-Inv c a s post_receive rest k v =
    ground (arith, k, v, v.driven, v.woken, v.cancelled, v.failed)
receiving-Inv c a s ask_cancel rest k v =
    ground (arith, k, v, v.driven, v.woken, v.cancelled, v.failed)
receiving-Inv c a s count rest k v = ground (arith, k, v, v.driven, v.woken, v.cancelled, v.failed)
receiving-Inv c a s verify rest k v = ground (arith, k, v, v.driven, v.woken, v.cancelled, v.failed)
receiving-Inv c a s mark rest k v = ground (arith, k, v, v.driven, v.woken, v.cancelled, v.failed)
receiving-Inv c a s recheck rest k v =
    ground (arith, k, v, v.driven, v.woken, v.cancelled, v.failed)

pub resuming-Inv :
    (c : SessionBufferConfig) (a : Answers) (s : System) (pc : ResumePc) (rest : List Thread)
    → Picked (resuming pc) s.threads rest
    → Inv s
    → After c a s (resuming pc) rest
unfolding step
resuming-Inv c a s swap rest k v = ground (arith, k, v, v.driven, v.woken, v.cancelled, v.failed)
resuming-Inv c a s post_again rest k v =
    ground (arith, k, v, v.driven, v.woken, v.cancelled, v.failed)

pub unposting-Inv :
    (c : SessionBufferConfig) (a : Answers) (s : System) (rest : List Thread)
    → Picked unposting s.threads rest
    → Inv s
    → After c a s unposting rest
unfolding step
unposting-Inv c a s rest k v = ground (arith, k, v, v.driven, v.woken, v.cancelled, v.failed)

pub dropping-Inv :
    (c : SessionBufferConfig) (a : Answers) (s : System) (rest : List Thread)
    → Picked dropping s.threads rest
    → Inv s
    → After c a s dropping rest
unfolding step
dropping-Inv c a s rest k v = ground (arith, k, v, v.driven, v.woken, v.cancelled, v.failed)

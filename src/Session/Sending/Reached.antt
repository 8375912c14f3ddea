-- ===== src/Session/Sending/Reached.antt =====
-- The tokens of Session/Sending under every schedule.
use iocpnetwork_engine.Prelude.{◌+◌, ◌≤◌, ◌≡◌, false, none, List, [], length, ap, arith}
use iocpnetwork_engine.Prelude.Schedule.{total}
use iocpnetwork_engine.Session.Sending.{
  Answers, Thread, enqueueing, trying, posting, completed, clearing, freeing, reporting, System,
  Step, run, enqueue, complete, cancel, start, Reach, here, next,
}
use iocpnetwork_engine.Session.Sending.Inv.{Inv, owns, works, looks}
use iocpnetwork_engine.Session.Sending.Moves.{
  After, Picked, Pick-Picked, posting-Inv, clearing-Inv, freeing-Inv, reporting-Inv, completed-Inv,
  trying-Inv, enqueueing-Inv,
}

run-Inv :
    (a : Answers) (s : System) (t : Thread) (rest : List Thread)
    → Picked t s.threads rest
    → Inv s
    → After a s t rest
run-Inv a s (enqueueing packet) rest p v = enqueueing-Inv a s packet rest p v
run-Inv a s (trying pc) rest p v = trying-Inv a s pc rest p v
run-Inv a s (posting pc) rest p v = posting-Inv a s pc rest p v
run-Inv a s (completed n) rest p v = completed-Inv a s n rest p v
run-Inv a s (clearing w) rest p v = clearing-Inv a s w rest p v
run-Inv a s (freeing w) rest p v = freeing-Inv a s w rest p v
run-Inv a s reporting rest p v = reporting-Inv a s rest p v

Step-Inv : {s t : System} → Step s t → Inv s → Inv t
Step-Inv {s} (run a t rest p) v = run-Inv a s t rest (Pick-Picked p) v
Step-Inv (enqueue packet) v =
    ground (arith, v, v.stall, v.waiting, v.quit, v.fail, v.aimed, v.given_back)
Step-Inv (complete k n e le) v =
    ground (arith, v, v.stall, v.waiting, v.quit, v.fail, v.aimed, v.given_back)
Step-Inv cancel v = ground (arith, v, v.stall, v.waiting, v.quit, v.fail, v.aimed, v.given_back)

start-Inv : Inv start
start-Inv = ground arith

pub Reach-Inv : {s : System} → Reach s → Inv s
Reach-Inv here = start-Inv
Reach-Inv (next r st) = Step-Inv st (Reach-Inv r)

-- Under every schedule at most one send is with the system, and then no thread works on a packet.
pub one_send : {s : System} → Reach s → s.shared.posted + total works s.threads ≤ 1
one_send r = let v = Reach-Inv r in ground (arith, v)

-- However the threads interleave, once none of them is at work and no send is with the system, no I/O
-- was cancelled, and no send was refused, then no packet is left in the send queue, none is current,
-- the token is free, and no packet was given back unsent.
pub nothing_left :
    {s : System}
    → Reach s
    → s.threads ≡ []
    → s.shared.posted ≡ 0
    → s.shared.cancel_io ≡ false
    → s.shared.failures ≡ 0
    → (length s.shared.queue ≡ 0)
      × (s.shared.current_send_packet ≡ none)
      × (s.shared.sending ≡ false)
      × (s.shared.dropped ≡ 0)
nothing_left r none_left idle not_cancelled no_failure =
    let v = Reach-Inv r in
    ground (
      arith,
      v,
      v.stall,
      v.waiting,
      v.given_back,
      ap (total owns) none_left,
      ap (total works) none_left,
      ap (total looks) none_left,
    )

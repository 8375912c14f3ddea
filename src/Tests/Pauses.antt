-- ===== src/Tests/Pauses.antt =====
-- One receive that is paused and resumed, and one that stays paused because the ready queue was full.
use iocpnetwork_engine.Prelude.{
  ℕ, zero, suc, ◌+◌, ◌≤◌, ◌≡◌, ◌⊎◌, refl, true, false, List, [], ◌∷◌, arith, sym, subst,
}
use iocpnetwork_engine.Prelude.Int.{pos}
use iocpnetwork_engine.Prelude.Schedule.{Pick, first, put_back, total}
use iocpnetwork_engine.Buffer.SessionBufferConfig.{SessionBufferConfig, server_preset}
use iocpnetwork_engine.Scheduler.Backpressure.{
  Answers, SubmitPc, WorkPc, ReceivePc, Thread, System, step, run, submit, pop, complete, start,
  Reach, here, next, submit_packet_job, worker_thread_loop, post_receive_or_pause, resume_receive,
}
use iocpnetwork_engine.Scheduler.Backpressure.Inv.{flag, holds}
use iocpnetwork_engine.Scheduler.Backpressure.Rest.{at_rest, one_at_a_time, pause_holds_lem}

-- Receives pause at one job and go on at none.
abbrev config : SessionBufferConfig
config = record (server_preset) { recv_pause_job_depth = 1; recv_resume_job_depth = 0 }

abbrev usual : Answers
usual = record { pushed = true; received = true }

abbrev full : Answers
full = record { pushed = false; received = true }

-- The thread that stands first makes one step.
abbrev turn_of : Answers → System → List Thread → System
turn_of a s [] = s
turn_of a s (t ∷ rest) = record {
  shared = (step config a s.shared t).shared;
  threads = put_back (step config a s.shared t).next rest;
}

abbrev turns : ℕ → Answers → System → System
turns zero a s = s
turns (suc n) a s = turns n a (turn_of a s s.threads)

turn_of-Reach :
    {s : System} (a : Answers) (ts : List Thread)
    → s.threads ≡ ts
    → Reach config s
    → Reach config (turn_of a s ts)
turn_of-Reach a [] e r = r
turn_of-Reach {s} a (t ∷ rest) e r =
    next r (run a t rest (subst (λ ts. Pick t ts rest) (sym e) first))

turns-Reach : (n : ℕ) (a : Answers) {s : System} → Reach config s → Reach config (turns n a s)
turns-Reach zero a r = r
turns-Reach (suc n) a {s} r = turns-Reach n a (turn_of-Reach a s.threads refl r)

-- A packet is submitted; the ready queue takes the session or is full.
abbrev submitted : Answers → System
submitted a = turns 4 a (record (start) { threads = Thread.submitting SubmitPc.enqueue ∷ [] })

-- Then a receive completes, whose handler runs to its end.
abbrev after_receive : Answers → System
after_receive a = turns 5 a (record {
  shared = record ((submitted a).shared) { posted = 0 };
  threads = Thread.receiving ReceivePc.look_depth ∷ (submitted a).threads;
})

after_receive-Reach : (a : Answers) → Reach config (after_receive a)
unfolding step submit_packet_job
after_receive-Reach a =
    turns-Reach 5 a (next (turns-Reach 4 a (next here submit)) (complete 0 (ground arith)))

-- A worker pops the session and drains its queue.
abbrev resumed : System
resumed = turns 9 usual (record {
  shared = record ((after_receive usual).shared) { scheduled = 0 };
  threads = Thread.working WorkPc.drain ∷ (after_receive usual).threads;
})

resumed-Reach : Reach config resumed
unfolding step submit_packet_job post_receive_or_pause
resumed-Reach = turns-Reach 9 usual (next (after_receive-Reach usual) (pop 0 refl))

at_rest_example :
    (resumed.shared.job_depth ≡ 0)
    × (resumed.shared.recv_paused ≡ false)
    × ((resumed.shared.posted ≡ 1)
        ⊎ (resumed.shared.release_requested ≡ true)
        ⊎ (resumed.shared.cancel_io ≡ true))
unfolding step submit_packet_job post_receive_or_pause worker_thread_loop resume_receive
at_rest_example = at_rest resumed-Reach refl refl refl

one_at_a_time_example :
    ((after_receive usual).shared.posted + flag (after_receive usual).shared.recv_paused ≤ 1)
    × ((after_receive usual).shared.scheduled ≤ 1)
one_at_a_time_example = one_at_a_time (after_receive-Reach usual)

pause_holds_example :
    (after_receive usual).shared.pause_holds
    ≡ pos
        (flag (after_receive usual).shared.recv_paused + total holds (after_receive usual).threads)
pause_holds_example = pause_holds_lem (after_receive-Reach usual)

-- The session was paused in between.
paused : (after_receive usual).shared.recv_paused ≡ true
unfolding step submit_packet_job post_receive_or_pause
paused = refl

-- Where the ready queue was full, the session can come to rest paused, with a job left.
stranded :
    ((after_receive full).threads ≡ [])
    × ((after_receive full).shared.scheduled ≡ 0)
    × ((after_receive full).shared.recv_paused ≡ true)
    × ((after_receive full).shared.job_depth ≡ 1)
    × ((after_receive full).shared.posted ≡ 0)
unfolding step submit_packet_job post_receive_or_pause
stranded = (refl, refl, refl, refl, refl)

-- ===== src/Tests/Jobs.antt =====
-- A job queue with two jobs, and a ready ring of two sessions.
use iocpnetwork_engine.Prelude.{refl, true, false, none, some, [], ◌∷◌, arith, ◌==◌, if◌then◌else◌}
use iocpnetwork_engine.Session.SessionJobQueue.{SessionJobQueue, Memory, server, wait_dequeue_job}
use iocpnetwork_engine.Session.SessionJobQueue.Fifo.{IsValid, Waited, wait_dequeue_job_lem}
use iocpnetwork_engine.Scheduler.ReadySessionQueue.{ReadySessionQueue, push, pop}
use iocpnetwork_engine.Scheduler.ReadySessionQueue.Fifo
use iocpnetwork_engine.Scheduler.ReadySessionQueue.Push.{Pushed, push_bounded}
use iocpnetwork_engine.Scheduler.ReadySessionQueue.Pop.{Popped, pop_oldest}

-- Job 1 holds the packet 100 and links to job 2, which holds none.
abbrev memory : Memory
memory = record {
  jobs = λ p.
      if p == 1
      then record { next = some 2; packet = some 100 }
      else record { next = none; packet = none };
  released_packets = [];
  released_jobs = [];
  violations = 0;
  wakes = 0;
}

abbrev jobs : SessionJobQueue
jobs = record {
  session_role = server;
  head = some 1;
  tail = some 2;
  count = 2;
  peak_count = 2;
  stop_flag = false;
}

jobs-IsValid : IsValid jobs memory (1 ∷ (2 ∷ []))
jobs-IsValid = record {
  queue = record {
    chain = (refl, (refl, refl));
    distinct = ((omega arith, tt), (tt, tt));
    ends = refl;
    counted = refl;
  };
  peak = omega arith;
}

wait_dequeue_job_example : Waited jobs (1 ∷ (2 ∷ [])) (wait_dequeue_job jobs memory)
wait_dequeue_job_example = wait_dequeue_job_lem (1 ∷ (2 ∷ [])) jobs-IsValid

-- One session waits in the second slot; the next one goes to the first.
abbrev ring : ReadySessionQueue
ring = record {
  allocated = true;
  slots = none ∷ (some 7 ∷ []);
  capacity = 2;
  head = 1;
  tail = 0;
  count = 1;
  stop_flag = false;
}

ring-IsValid : Fifo.IsValid ring
ring-IsValid = record {
  storage = refl;
  head_in = omega arith;
  count_in = omega arith;
  tail_at = refl;
}

push_example : Pushed ring 8 (push ring 8)
push_example = push_bounded 8 ring-IsValid

pop_example : Popped ring (some 7 ∷ []) (pop ring)
pop_example = pop_oldest ring-IsValid

-- ===== src/Scheduler/Backpressure.antt =====
-- The jobs of one session and its receives, which several threads work on at the same time:
-- `SubmitPacketJob` of Core/IOCPServer.cpp, `WorkerThreadLoop` of Scheduler/ReadySessionScheduler.cpp,
-- and `PostReceiveOrPause`, `ResumeReceiveIfDrained`, `ResumeReceive` and `ReleaseUnpostedIO` of
-- Session/ClientSession.cpp. A step is one atomic operation, or one call that holds a lock.
pub mod Inv
pub mod Moves
pub mod Rest
use iocpnetwork_engine.Prelude.{
  ℕ, suc, ◌+◌, ◌-◌, ◌≡◌, Bool, true, false, not, ◌&&◌, ◌||◌, Option, none, some, List, [], ◌∷◌,
  if◌then◌else◌, ◌==◌, ltb,
}
use iocpnetwork_engine.Prelude.Int.{ℤ, pos, succ_ℤ, pred_ℤ}
use iocpnetwork_engine.Prelude.Schedule.{Pick, put_back}
use iocpnetwork_engine.Buffer.SessionBufferConfig.{SessionBufferConfig}

-- `job_depth` is the length of the job queue, `scheduled` how often the session stands in the ready
-- queue, `posted` how many receives are with the system, `pause_holds` the part of `m_ioCount` that
-- pauses took. `release_requested` and `push_failures` are kept for the statements only.
pub record Shared : Type 0 where
  pub job_depth : ℕ
  pub processing : Bool
  pub scheduled : ℕ
  pub recv_paused : Bool
  pub recv_pause_count : ℕ
  pub cancel_io : Bool
  pub posted : ℕ
  pub pause_holds : ℤ
  pub release_requested : Bool
  pub push_failures : ℕ

-- What a step does not decide: whether the ready queue has room, and whether the system takes a
-- receive that the session could post.
pub record Answers : Type 0 where
  pub pushed : Bool
  pub received : Bool

-- Where a thread stands in `SubmitPacketJob`.
pub data SubmitPc : Type 0 where
  enqueue claim push unclaim : SubmitPc

-- In the body of `WorkerThreadLoop`, after `Pop`.
pub data WorkPc : Type 0 where
  drain clear look_empty claim_again push_again unclaim_again look_paused look_level : WorkPc

-- In `PostReceiveOrPause`. The increment and the look of `BeginIO` are `count` and `verify`.
pub data ReceivePc : Type 0 where
  look_depth post_receive ask_cancel count verify mark recheck : ReceivePc

-- In `ResumeReceive`.
pub data ResumePc : Type 0 where
  swap post_again : ResumePc

-- `unposting` is at the exchange of `ReleaseUnpostedIO`; `dropping` has a `DecrementIO` left to do.
pub data Thread : Type 0 where
  submitting : SubmitPc → Thread
  working : WorkPc → Thread
  receiving : ReceivePc → Thread
  resuming : ResumePc → Thread
  unposting dropping : Thread

pub record Outcome : Type 0 where
  pub shared : Shared
  pub next : Option Thread

abbrev goes_on : Shared → Thread → Outcome
goes_on s t = record { shared = s; next = some t }

abbrev returns : Shared → Outcome
returns s = record { shared = s; next = none }

unfoldable pub submit_packet_job : Answers → Shared → SubmitPc → Outcome
submit_packet_job a s enqueue =
    goes_on (record s { job_depth = s.job_depth + 1 }) (submitting claim)
submit_packet_job a s claim =
    if s.processing then returns s else goes_on (record s { processing = true }) (submitting push)
submit_packet_job a s push =
    if a.pushed
    then returns (record s { scheduled = s.scheduled + 1 })
    else goes_on (record s { push_failures = s.push_failures + 1 }) (submitting unclaim)
submit_packet_job a s unclaim = returns (record s { processing = false })

unfoldable pub worker_thread_loop : SessionBufferConfig → Answers → Shared → WorkPc → Outcome
worker_thread_loop c a s drain =
    if s.job_depth == 0
    then goes_on s (working clear)
    else goes_on (record s { job_depth = s.job_depth - 1 }) (working drain)
worker_thread_loop c a s clear = goes_on (record s { processing = false }) (working look_empty)
worker_thread_loop c a s look_empty =
    if s.job_depth == 0 then goes_on s (working look_paused) else goes_on s (working claim_again)
worker_thread_loop c a s claim_again =
    if s.processing
    then goes_on s (working look_paused)
    else goes_on (record s { processing = true }) (working push_again)
worker_thread_loop c a s push_again =
    if a.pushed
    then goes_on (record s { scheduled = s.scheduled + 1 }) (working look_paused)
    else goes_on (record s { push_failures = s.push_failures + 1 }) (working unclaim_again)
worker_thread_loop c a s unclaim_again =
    goes_on (record s { processing = false }) (working look_paused)
worker_thread_loop c a s look_paused =
    if s.recv_paused then goes_on s (working look_level) else returns s
worker_thread_loop c a s look_level =
    if ltb c.recv_resume_job_depth s.job_depth then returns s else goes_on s (resuming swap)

-- The answer of `PostReceive`: `BeginIO` refuses once I/O is cancelled.
abbrev posts : Answers → Shared → Bool
posts a s = a.received && not s.cancel_io

unfoldable pub post_receive_or_pause : SessionBufferConfig → Answers → Shared → ReceivePc → Outcome
post_receive_or_pause c a s look_depth =
    if (c.recv_pause_job_depth == 0) || ltb s.job_depth c.recv_pause_job_depth
    then goes_on s (receiving post_receive)
    else goes_on s (receiving count)
post_receive_or_pause c a s post_receive =
    if posts a s
    then returns (record s { posted = s.posted + 1 })
    else goes_on s (receiving ask_cancel)
post_receive_or_pause c a s ask_cancel =
    if s.cancel_io then returns s else returns (record s { release_requested = true })
post_receive_or_pause c a s count =
    goes_on (record s { pause_holds = succ_ℤ s.pause_holds }) (receiving verify)
post_receive_or_pause c a s verify =
    if s.cancel_io then goes_on s dropping else goes_on s (receiving mark)
post_receive_or_pause c a s mark =
    goes_on (record s { recv_paused = true; recv_pause_count = s.recv_pause_count + 1 })
      (receiving recheck)
post_receive_or_pause c a s recheck =
    if ltb c.recv_resume_job_depth s.job_depth then returns s else goes_on s (resuming swap)

unfoldable pub resume_receive : Answers → Shared → ResumePc → Outcome
resume_receive a s swap =
    if s.recv_paused
    then goes_on (record s { recv_paused = false }) (resuming post_again)
    else returns s
resume_receive a s post_again =
    if posts a s
    then goes_on (record s { posted = s.posted + 1 }) dropping
    else goes_on (record s { release_requested = true }) dropping

unfoldable pub release_unposted_io : Shared → Outcome
release_unposted_io s =
    if s.recv_paused then goes_on (record s { recv_paused = false }) dropping else returns s

unfoldable pub step : SessionBufferConfig → Answers → Shared → Thread → Outcome
unfolding submit_packet_job worker_thread_loop post_receive_or_pause resume_receive
    release_unposted_io
step c a s (submitting pc) = submit_packet_job a s pc
step c a s (working pc) = worker_thread_loop c a s pc
step c a s (receiving pc) = post_receive_or_pause c a s pc
step c a s (resuming pc) = resume_receive a s pc
step c a s unposting = release_unposted_io s
step c a s dropping = returns (record s { pause_holds = pred_ℤ s.pause_holds })

pub record System : Type 0 where
  pub shared : Shared
  pub threads : List Thread

-- What can happen: a thread makes one step; a packet arrives for `SubmitPacketJob`; a worker pops the
-- session; a receive completes, and its handler ends in `PostReceiveOrPause` or has the session
-- released instead; I/O is cancelled, which ends in `ReleaseUnpostedIO` unless `CancelIoEx` finds none.
pub data Step (c : SessionBufferConfig) (s : System) : System → Type 0 where
  run :
      (a : Answers) (t : Thread) (rest : List Thread)
      → Pick t s.threads rest
      → Step c s (record {
        shared = (step c a s.shared t).shared;
        threads = put_back (step c a s.shared t).next rest;
      })
  submit : Step c s (record s { threads = submitting enqueue ∷ s.threads })
  pop :
      (n : ℕ)
      → s.shared.scheduled ≡ suc n
      → Step c s (record {
        shared = record (s.shared) { scheduled = n };
        threads = working drain ∷ s.threads;
      })
  complete :
      (n : ℕ)
      → s.shared.posted ≡ suc n
      → Step c s (record {
        shared = record (s.shared) { posted = n };
        threads = receiving look_depth ∷ s.threads;
      })
  give_up :
      (n : ℕ)
      → s.shared.posted ≡ suc n
      → Step c s (record s { shared = record (s.shared) { posted = n; release_requested = true } })
  cancel :
      Step c s (record {
        shared = record (s.shared) { cancel_io = true };
        threads = unposting ∷ s.threads;
      })
  cancel_not_found : Step c s (record s { shared = record (s.shared) { cancel_io = true } })

-- A session right after `OnConnect`, which posts the first receive, and what can be reached from it.
abbrev pub start : System
start = record {
  shared = record {
    job_depth = 0;
    processing = false;
    scheduled = 0;
    recv_paused = false;
    recv_pause_count = 0;
    cancel_io = false;
    posted = 1;
    pause_holds = pos 0;
    release_requested = false;
    push_failures = 0;
  };
  threads = [];
}

pub data Reach (c : SessionBufferConfig) : System → Type 0 where
  here : Reach c start
  next : {s t : System} → Reach c s → Step c s t → Reach c t

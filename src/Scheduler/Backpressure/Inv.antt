-- ===== src/Scheduler/Backpressure/Inv.antt =====
-- What holds at every moment of the threads of Scheduler/Backpressure: who holds which token.
use iocpnetwork_engine.Prelude.{ℕ, ◌+◌, ◌≤◌, ◌<◌, ◌≡◌, ◌⊎◌, Bool, true, false}
use iocpnetwork_engine.Prelude.Int.{pos}
use iocpnetwork_engine.Prelude.Schedule.{total}
use iocpnetwork_engine.Scheduler.Backpressure.{
  enqueue, claim, push, unclaim, drain, clear, look_empty, claim_again, push_again, unclaim_again,
  look_paused, look_level, look_depth, post_receive, ask_cancel, count, verify, mark, recheck, swap,
  post_again, Thread, submitting, working, receiving, resuming, unposting, dropping, System,
}

abbrev pub flag : Bool → ℕ
flag true = 1
flag false = 0

-- 1 for a thread that set `m_processing` and has neither scheduled the session nor cleared the flag.
abbrev pub processes : Thread → ℕ
processes (submitting enqueue) = 0
processes (submitting claim) = 0
processes (submitting push) = 1
processes (submitting unclaim) = 1
processes (working drain) = 1
processes (working clear) = 1
processes (working look_empty) = 0
processes (working claim_again) = 0
processes (working push_again) = 1
processes (working unclaim_again) = 1
processes (working look_paused) = 0
processes (working look_level) = 0
processes (receiving pc) = 0
processes (resuming pc) = 0
processes unposting = 0
processes dropping = 0

-- 1 for a thread that will still try to set `m_processing` if there is a job.
abbrev pub retries : Thread → ℕ
retries (submitting enqueue) = 0
retries (submitting claim) = 1
retries (submitting push) = 0
retries (submitting unclaim) = 0
retries (working drain) = 0
retries (working clear) = 0
retries (working look_empty) = 1
retries (working claim_again) = 1
retries (working push_again) = 0
retries (working unclaim_again) = 0
retries (working look_paused) = 0
retries (working look_level) = 0
retries (receiving pc) = 0
retries (resuming pc) = 0
retries unposting = 0
retries dropping = 0

-- 1 for a thread that will still look at `m_recvPaused`, or is about to resume.
abbrev pub resumes : Thread → ℕ
resumes (submitting pc) = 0
resumes (working drain) = 0
resumes (working clear) = 0
resumes (working look_empty) = 0
resumes (working claim_again) = 0
resumes (working push_again) = 1
resumes (working unclaim_again) = 1
resumes (working look_paused) = 1
resumes (working look_level) = 1
resumes (receiving look_depth) = 0
resumes (receiving post_receive) = 0
resumes (receiving ask_cancel) = 0
resumes (receiving count) = 0
resumes (receiving verify) = 0
resumes (receiving mark) = 0
resumes (receiving recheck) = 1
resumes (resuming swap) = 1
resumes (resuming post_again) = 0
resumes unposting = 0
resumes dropping = 0

-- 1 for a thread that has the next receive of the session in its hands.
abbrev pub carries : Thread → ℕ
carries (submitting pc) = 0
carries (working pc) = 0
carries (receiving look_depth) = 1
carries (receiving post_receive) = 1
carries (receiving ask_cancel) = 1
carries (receiving count) = 1
carries (receiving verify) = 1
carries (receiving mark) = 1
carries (receiving recheck) = 0
carries (resuming swap) = 0
carries (resuming post_again) = 1
carries unposting = 0
carries dropping = 0

-- 1 for a thread that holds a count of `m_ioCount` for a pause.
abbrev pub holds : Thread → ℕ
holds (submitting pc) = 0
holds (working pc) = 0
holds (receiving look_depth) = 0
holds (receiving post_receive) = 0
holds (receiving ask_cancel) = 0
holds (receiving count) = 0
holds (receiving verify) = 1
holds (receiving mark) = 1
holds (receiving recheck) = 0
holds (resuming swap) = 0
holds (resuming post_again) = 1
holds unposting = 0
holds dropping = 1

-- 1 for a thread that exists only once I/O was cancelled.
abbrev pub cancels : Thread → ℕ
cancels (submitting pc) = 0
cancels (working pc) = 0
cancels (receiving pc) = 0
cancels (resuming pc) = 0
cancels unposting = 1
cancels dropping = 0

-- 1 for a thread whose push failed, before it clears `m_processing`.
abbrev pub undoes : Thread → ℕ
undoes (submitting enqueue) = 0
undoes (submitting claim) = 0
undoes (submitting push) = 0
undoes (submitting unclaim) = 1
undoes (working drain) = 0
undoes (working clear) = 0
undoes (working look_empty) = 0
undoes (working claim_again) = 0
undoes (working push_again) = 0
undoes (working unclaim_again) = 1
undoes (working look_paused) = 0
undoes (working look_level) = 0
undoes (receiving pc) = 0
undoes (resuming pc) = 0
undoes unposting = 0
undoes dropping = 0

pub record Inv (s : System) : Type 0 where
  pub token : flag s.shared.processing ≡ s.shared.scheduled + total processes s.threads
  pub driven :
      0 < s.shared.job_depth
      → 0
        < s.shared.scheduled
          + total processes s.threads
          + total retries s.threads
          + s.shared.push_failures
  pub woken :
      s.shared.recv_paused ≡ true
      → 0
        < s.shared.scheduled
          + total processes s.threads
          + total retries s.threads
          + total resumes s.threads
          + s.shared.push_failures
  pub one_receive : s.shared.posted + total carries s.threads + flag s.shared.recv_paused ≤ 1
  pub kept :
      (0 < s.shared.posted + total carries s.threads + flag s.shared.recv_paused)
      ⊎ (s.shared.release_requested ≡ true)
      ⊎ (s.shared.cancel_io ≡ true)
  pub held : s.shared.pause_holds ≡ pos (flag s.shared.recv_paused + total holds s.threads)
  pub cancelled : 0 < total cancels s.threads → s.shared.cancel_io ≡ true
  pub failed : 0 < total undoes s.threads → 0 < s.shared.push_failures

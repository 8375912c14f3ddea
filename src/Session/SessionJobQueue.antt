-- ===== src/Session/SessionJobQueue.antt =====
-- Session/SessionJobQueue.h and .cpp: the jobs of one session, linked through memory. The lock makes
-- each function one step; the counts are below 2 ^ 31, since each counts a block in memory.
pub mod Fifo
pub mod Reset
use iocpnetwork_engine.Prelude.{
  ℕ, zero, suc, ◌+◌, ◌-◌, ◌≡◌, Bool, true, false, not, Option, none, some, List, [], ◌∷◌, ◌++◌, ltb,
  ◌==◌, if◌then◌else◌,
}
use iocpnetwork_engine.Prelude.Chain.{Ptr, update, is_none}

-- SESSION_ROLE of Session/SessionDefs.h
pub data SessionRole : Type 0 where
  none_role client server accept : SessionRole

-- The fields of Job/Job.h that the queue reads.
pub record Job : Type 0 where
  pub next : Option Ptr
  pub packet : Option Ptr

-- The jobs in memory; the packets and the jobs given back to their pools; the violations logged; the
-- wake-ups sent to the condition variable.
pub record Memory : Type 0 where
  pub jobs : Ptr → Job
  pub released_packets : List Ptr
  pub released_jobs : List Ptr
  pub violations : ℕ
  pub wakes : ℕ

pub record SessionJobQueue : Type 0 where
  pub session_role : SessionRole
  pub head : Option Ptr
  pub tail : Option Ptr
  pub count : ℕ
  pub peak_count : ℕ
  pub stop_flag : Bool

abbrev pub is_client : SessionRole → Bool
is_client client = true
is_client _ = false

abbrev pub is_server : SessionRole → Bool
is_server server = true
is_server _ = false

abbrev pub link : Memory → Ptr → Option Ptr → Memory
link m p n = record m { jobs = update m.jobs p (record (m.jobs p) { next = n }) }

abbrev wake : SessionJobQueue → Memory → Memory
wake q m = if is_client q.session_role then record m { wakes = m.wakes + 1 } else m

-- The result, `wasEmpty`, and the new state. `wasEmpty` is `none` where the function does not set it.
unfoldable pub enqueue_job :
    SessionJobQueue → Memory → Option Ptr → Bool × Option Bool × SessionJobQueue × Memory
enqueue_job q m none = (false, none, q, m)
enqueue_job q m (some job) =
    let m1 = link m job none in
    let counted = record q {
      tail = some job;
      count = q.count + 1;
      peak_count = if ltb q.peak_count (q.count + 1) then q.count + 1 else q.peak_count;
    } in
    (
      true,
      some (is_none q.head),
      elim q.tail [ some t ↦ counted | none ↦ record counted { head = some job } ],
      wake q (elim q.tail [ some t ↦ link m1 t (some job) | none ↦ m1 ]),
    )

-- The part under the lock that `DequeueJob` and `WaitDequeueJob` share.
abbrev unlink_first : SessionJobQueue → Memory → Ptr → SessionJobQueue
unlink_first q m job = record q {
  head = (m.jobs job).next;
  tail = if is_none (m.jobs job).next then none else q.tail;
  count = q.count - 1;
}

pub dequeue_job : SessionJobQueue → Memory → Option Ptr × SessionJobQueue × Memory
dequeue_job q m =
    let m1 = if is_server q.session_role then m else record m { violations = m.violations + 1 } in
    elim q.head [ none ↦ (none, q, m1) | some job ↦ (some job, unlink_first q m job, m1) ]

-- One look of `WaitDequeueJob` at the queue: a job, the stop, or the sleep on the condition variable,
-- after which it looks again.
pub data WaitResult : Type 0 where
  got : Ptr → WaitResult
  stopped sleeping : WaitResult

pub wait_dequeue_job : SessionJobQueue → Memory → WaitResult × SessionJobQueue × Memory
wait_dequeue_job q m =
    let m1 = if is_client q.session_role then m else record m { violations = m.violations + 1 } in
    elim q.head [
      | none ↦ (if q.stop_flag then stopped else sleeping, q, m1)
      | some job ↦ (got job, unlink_first q m job, m1)
    ]

pub wake_up : SessionJobQueue → Memory → SessionJobQueue × Memory
wake_up q m =
    if not (is_client q.session_role)
    then (q, m)
    else (record q { stop_flag = true }, record m { wakes = m.wakes + 1 })

release_job : Memory → Ptr → Memory
release_job m job =
    record (elim (m.jobs job).packet [
      | none ↦ m
      | some packet ↦ record m { released_packets = m.released_packets ++ packet ∷ [] }
    ]) { released_jobs = m.released_jobs ++ job ∷ [] }

-- `while (job)`: `none` where the fuel runs out.
release_chain : ℕ → Memory → Option Ptr → Option Memory
release_chain fuel m none = some m
release_chain zero m (some job) = none
release_chain (suc fuel) m (some job) = release_chain fuel (release_job m job) (m.jobs job).next

-- One round for each job, and `count` jobs.
unfoldable pub reset : SessionJobQueue → Memory → Option Memory × SessionJobQueue
unfolding release_chain release_job
reset q m = (
  release_chain q.count m q.head,
  record q { head = none; tail = none; count = 0; peak_count = 0; stop_flag = false },
)

abbrev pub is_empty : SessionJobQueue → Bool
is_empty q = q.count == 0

pub reset_peak_count : SessionJobQueue → SessionJobQueue
reset_peak_count q = record q { peak_count = q.count }

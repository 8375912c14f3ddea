-- ===== src/Scheduler/ReadySessionQueue.antt =====
-- Scheduler/ReadySessionQueue.h and .cpp: the ring of sessions that have jobs. The lock makes each
-- function one step. A session is known by its address.
pub mod Fifo
pub mod Push
pub mod Pop
use iocpnetwork_engine.Prelude.{
  ℕ, ◌+◌, ◌-◌, ◌%◌, Bool, true, false, Option, none, some, List, [], leb, ◌==◌, if◌then◌else◌,
  get_or, set, replicate,
}

-- A slot holds null or a session. `allocated` says that `m_queue` is not null.
pub record ReadySessionQueue : Type 0 where
  pub allocated : Bool
  pub slots : List (Option ℕ)
  pub capacity : ℕ
  pub head : ℕ
  pub tail : ℕ
  pub count : ℕ
  pub stop_flag : Bool

-- `granted` says whether `new` gave memory.
pub initialize : ReadySessionQueue → ℕ → Bool → Bool × ReadySessionQueue
initialize q max_session_count granted =
    if max_session_count == 0
    then (false, q)
    else if granted
    then (
      true,
      record q {
        allocated = true;
        slots = replicate max_session_count none;
        capacity = max_session_count;
        head = 0;
        tail = 0;
        count = 0;
        stop_flag = false;
      },
    )
    else (false, record q { allocated = false; slots = [] })

pub finalize : ReadySessionQueue → ReadySessionQueue
finalize q = record q { allocated = false; slots = []; capacity = 0; head = 0; tail = 0; count = 0 }

pub push : ReadySessionQueue → ℕ → Bool × ReadySessionQueue
push q session = if leb q.capacity q.count then (false, q) else (
  true,
  record q {
    slots = set q.slots q.tail (some session);
    tail = (q.tail + 1) % q.capacity;
    count = q.count + 1;
  },
)

-- One look of `Pop` at the queue: what the first slot holds, the stop, or the sleep on the condition
-- variable, which ends with a timeout or with another look.
pub data PopResult : Type 0 where
  popped : Option ℕ → PopResult
  stopped sleeping : PopResult

pub pop : ReadySessionQueue → PopResult × ReadySessionQueue
pop q = if q.count == 0 then (if q.stop_flag then stopped else sleeping, q) else (
  popped (get_or q.slots q.head none),
  record q {
    slots = set q.slots q.head none;
    head = (q.head + 1) % q.capacity;
    count = q.count - 1;
  },
)

pub wake_all : ReadySessionQueue → ReadySessionQueue
wake_all q = record q { stop_flag = true }

abbrev pub is_empty : ReadySessionQueue → Bool
is_empty q = q.count == 0

-- ===== src/Session/ReleaseProtocol.antt =====
-- The deferred release of Session/BaseSession.cpp: threads that run `RequestRelease`, `DecrementIO`
-- and `BeginIO` on one session at the same time. A step is one atomic operation on the session.
pub mod Inv
use iocpnetwork_engine.Prelude.{
  ℕ, zero, suc, ◌+◌, ◌≡◌, Bool, true, false, Option, none, some, List, [], ◌∷◌, if◌then◌else◌, ◌==◌,
}
use iocpnetwork_engine.Prelude.Schedule.{Pick, put_back}
use iocpnetwork_engine.Prelude.Int.{ℤ, pos, negsuc, succ_ℤ, pred_ℤ}

-- The atomic fields that the three functions share. `requested` and `completed` count, for the
-- statements only, how often a release was asked for and how often it was carried out.
pub record Shared : Type 0 where
  pub io_count : ℤ
  pub release_pending : Bool
  pub cancel_io : Bool
  pub cancel_event : Bool
  pub violations : ℕ
  pub requested : ℕ
  pub completed : ℕ

-- Where a thread stands in `RequestRelease`: before the exchange to 1, the read, the exchange to 0.
pub data RequestPc : Type 0 where
  mark check take : RequestPc

-- In `DecrementIO`: before the decrement, the look at `m_cancelIo`, the exchange of the pending flag.
pub data DecrementPc : Type 0 where
  decrement signal settle : DecrementPc

-- In `BeginIO`: before the increment, before the look at `m_cancelIo`.
pub data BeginPc : Type 0 where
  count verify : BeginPc

pub data Thread : Type 0 where
  requesting : RequestPc → Thread
  decrementing : DecrementPc → Thread
  beginning : BeginPc → Thread

-- What one operation leaves: the fields, where the thread goes on (`none`: it returned), and whether
-- its I/O is now posted.
pub record Outcome : Type 0 where
  pub shared : Shared
  pub next : Option Thread
  pub posted : ℕ

abbrev goes_on : Shared → Thread → Outcome
goes_on s t = record { shared = s; next = some t; posted = 0 }

abbrev returns : Shared → Outcome
returns s = record { shared = s; next = none; posted = 0 }

-- `InterlockedExchange(&m_releasePending, 0)`: who finds 1 carries the release out.
unfoldable pub take_pending : Shared → Shared
take_pending s =
    if s.release_pending
    then record s { release_pending = false; completed = s.completed + 1 }
    else s

unfoldable pub request_release : Shared → RequestPc → Outcome
unfolding take_pending
request_release s mark =
    goes_on (record s { release_pending = true; requested = s.requested + 1 }) (requesting check)
request_release s check = elim s.io_count [
  | pos n ↦ if n == 0 then goes_on s (requesting take) else returns s
  | negsuc n ↦ returns s
]
request_release s take = returns (take_pending s)

unfoldable pub decrement_io : Shared → DecrementPc → Outcome
unfolding take_pending
decrement_io s decrement =
    let t = record s { io_count = pred_ℤ s.io_count } in
    elim (pred_ℤ s.io_count) [
      | pos n ↦ if n == 0 then goes_on t (decrementing signal) else returns t
      | negsuc n ↦ returns (record t { violations = s.violations + 1 })
    ]
decrement_io s signal =
    goes_on (if s.cancel_io then record s { cancel_event = true } else s) (decrementing settle)
decrement_io s settle = returns (take_pending s)

unfoldable pub begin_io : Shared → BeginPc → Outcome
begin_io s count = goes_on (record s { io_count = succ_ℤ s.io_count }) (beginning verify)
begin_io s verify =
    if s.cancel_io
    then goes_on s (decrementing decrement)
    else record { shared = s; next = none; posted = 1 }

unfoldable pub step : Shared → Thread → Outcome
unfolding request_release decrement_io begin_io
step s (requesting pc) = request_release s pc
step s (decrementing pc) = decrement_io s pc
step s (beginning pc) = begin_io s pc

-- One session with the threads that work on it; `posted` I/Os are with the system, each counted once.
pub record System : Type 0 where
  pub shared : Shared
  pub posted : ℕ
  pub threads : List Thread

-- What can happen: a thread makes one step; the system completes an I/O, whose handler ends in
-- `DecrementIO`; a release is requested; an I/O is begun; I/O is cancelled.
pub data Step (s : System) : System → Type 0 where
  run :
      (t : Thread) (rest : List Thread)
      → Pick t s.threads rest
      → Step s (record {
        shared = (step s.shared t).shared;
        posted = s.posted + (step s.shared t).posted;
        threads = put_back (step s.shared t).next rest;
      })
  complete :
      (n : ℕ)
      → s.posted ≡ suc n
      → Step s (record s { posted = n; threads = decrementing decrement ∷ s.threads })
  request : Step s (record s { threads = requesting mark ∷ s.threads })
  begin : Step s (record s { threads = beginning count ∷ s.threads })
  cancel : Step s (record s { shared = record (s.shared) { cancel_io = true } })

-- A session as it is handed out, and what can be reached from it.
abbrev pub start : System
start = record {
  shared = record {
    io_count = pos 0;
    release_pending = false;
    cancel_io = false;
    cancel_event = false;
    violations = 0;
    requested = 0;
    completed = 0;
  };
  posted = 0;
  threads = [];
}

pub data Reach : System → Type 0 where
  here : Reach start
  next : {s t : System} → Reach s → Step s t → Reach t

-- ===== src/Session/ReleaseProtocol/Inv.antt =====
-- What holds of the release protocol of BaseSession.cpp under every schedule.
use iocpnetwork_engine.Prelude.{ℕ, ◌+◌, ◌≤◌, ◌<◌, ◌≡◌, ap, ◌⊎◌, Bool, true, false, List, [], arith}
use iocpnetwork_engine.Prelude.Schedule.{Pick, put_back, total, Pick-total}
use iocpnetwork_engine.Prelude.Int.{pos}
use iocpnetwork_engine.Session.ReleaseProtocol.{
  mark, check, take, decrement, signal, settle, count, verify, Thread, requesting, decrementing,
  beginning, step, System, Step, run, complete, request, begin, cancel, start, Reach, here, next,
}

-- 1 for a thread that holds a count of `m_ioCount`.
abbrev pub holds_io : Thread → ℕ
holds_io (requesting pc) = 0
holds_io (decrementing decrement) = 1
holds_io (decrementing signal) = 0
holds_io (decrementing settle) = 0
holds_io (beginning count) = 0
holds_io (beginning verify) = 1

-- 1 for a thread that will still look at `m_releasePending` unless the count is not 0.
abbrev pub watches : Thread → ℕ
watches (requesting mark) = 0
watches (requesting check) = 1
watches (requesting take) = 1
watches (decrementing decrement) = 0
watches (decrementing signal) = 1
watches (decrementing settle) = 1
watches (beginning pc) = 0

abbrev pub flag : Bool → ℕ
flag true = 1
flag false = 0

pub record Inv (s : System) : Type 0 where
  pub counted : s.shared.io_count ≡ pos (s.posted + total holds_io s.threads)
  pub once : s.shared.completed + flag s.shared.release_pending ≤ s.shared.requested
  pub kept : 0 < s.shared.requested → 0 < s.shared.completed + flag s.shared.release_pending
  pub watched :
      s.shared.release_pending ≡ true
      → (0 < s.posted + total holds_io s.threads) ⊎ (0 < total watches s.threads)
  pub quiet : s.shared.violations ≡ 0

run-Inv :
    (s : System) (t : Thread) (rest : List Thread)
    → Pick t s.threads rest
    → Inv s
    → Inv (record {
      shared = (step s.shared t).shared;
      posted = s.posted + (step s.shared t).posted;
      threads = put_back (step s.shared t).next rest;
    })
unfolding step
run-Inv s (requesting mark) rest p v = ground (
  arith,
  Pick-total holds_io (requesting mark) p,
  Pick-total watches (requesting mark) p,
  v.watched,
)
run-Inv s (requesting check) rest p v = ground (
  arith,
  Pick-total holds_io (requesting check) p,
  Pick-total watches (requesting check) p,
  v.watched,
)
run-Inv s (requesting take) rest p v = ground (
  arith,
  Pick-total holds_io (requesting take) p,
  Pick-total watches (requesting take) p,
  v.watched,
)
run-Inv s (decrementing decrement) rest p v = ground (
  arith,
  Pick-total holds_io (decrementing decrement) p,
  Pick-total watches (decrementing decrement) p,
  v.watched,
)
run-Inv s (decrementing signal) rest p v = ground (
  arith,
  Pick-total holds_io (decrementing signal) p,
  Pick-total watches (decrementing signal) p,
  v.watched,
)
run-Inv s (decrementing settle) rest p v = ground (
  arith,
  Pick-total holds_io (decrementing settle) p,
  Pick-total watches (decrementing settle) p,
  v.watched,
)
run-Inv s (beginning count) rest p v = ground (
  arith,
  Pick-total holds_io (beginning count) p,
  Pick-total watches (beginning count) p,
  v.watched,
)
run-Inv s (beginning verify) rest p v = ground (
  arith,
  Pick-total holds_io (beginning verify) p,
  Pick-total watches (beginning verify) p,
  v.watched,
)

Step-Inv : {s t : System} → Step s t → Inv s → Inv t
Step-Inv {s} (run t rest p) v = run-Inv s t rest p v
Step-Inv (complete n e) v = ground (arith, v.watched)
Step-Inv request v = ground (arith, v.watched)
Step-Inv begin v = ground (arith, v.watched)
Step-Inv cancel v = ground (arith, v.watched)

start-Inv : Inv start
unfolding start
start-Inv = ground arith

Reach-Inv : {s : System} → Reach s → Inv s
Reach-Inv here = start-Inv
Reach-Inv (next r st) = Step-Inv st (Reach-Inv r)

-- However the threads interleave, a release that was requested once is carried out at most once, and
-- the I/O count never goes below 0.
pub release_at_most_once :
    {s : System}
    → Reach s
    → s.shared.requested ≡ 1
    → (s.shared.completed ≤ 1) × (s.shared.violations ≡ 0)
release_at_most_once r e = let v = Reach-Inv r in (omega (arith, v.once), v.quiet)

-- A release that was requested once is not lost: once no thread is left and no I/O is posted, it
-- has been carried out, and nothing is pending.
pub release_not_lost :
    {s : System}
    → Reach s
    → s.shared.requested ≡ 1
    → s.posted ≡ 0
    → s.threads ≡ []
    → (s.shared.completed ≡ 1) × (s.shared.release_pending ≡ false)
release_not_lost {s} r e idle none_left =
    let v = Reach-Inv r in
    ground (
      arith,
      v.once,
      v.kept,
      v.watched,
      ap (total holds_io) none_left,
      ap (total watches) none_left,
    )

-- The I/O count is the number of posted I/Os and of the threads that still hold a count of it.
pub io_count_lem :
    {s : System} → Reach s → s.shared.io_count ≡ pos (s.posted + total holds_io s.threads)
io_count_lem r = (Reach-Inv r).counted

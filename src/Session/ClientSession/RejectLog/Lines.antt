-- ===== src/Session/ClientSession/RejectLog/Lines.antt =====
-- The limit on the lines that `ShouldLogSendReject` of Session/ClientSession.cpp lets through, and what
-- becomes of the refusals that are no lines.
use iocpnetwork_engine.Prelude.{
  ℕ, ◌+◌, ◌≤◌, ◌<◌, ◌≡◌, refl, ◌||◌, List, [], ◌∷◌, leb, ◌==◌, if◌then◌else◌, arith, length,
}
use iocpnetwork_engine.Prelude.Schedule.{Pick, total, Pick-total}
use iocpnetwork_engine.Session.ClientSession.RejectLog.{
  window_ms, RejectPc, read_tick, open_window, swallow, take_suppressed, should_log_send_reject,
  after, System, run, refuse, Reach, here, next,
}

-- 0 where there is none.
abbrev pub newest : List ℕ → ℕ
newest [] = 0
newest (t ∷ ts) = t

-- Newest first, each time is a window or more after the one before it.
abbrev pub Spaced : List ℕ → Type 0
Spaced [] = Unit {0}
Spaced (t ∷ ts) = ((0 < newest ts → newest ts + window_ms ≤ t) × Spaced ts)

-- 1 for every thread; for one that has opened a window and not logged; and for one that is about to
-- open a window too early.
abbrev pub one : RejectPc → ℕ
one pc = 1

abbrev pub owes_line : RejectPc → ℕ
owes_line take_suppressed = 1
owes_line _ = 0

abbrev pub early : RejectPc → ℕ
early (open_window now last) = if (last == 0) || leb (last + window_ms) now then 0 else 1
early _ = 0

pub record Inv (s : System) : Type 0 where
  pub spaced : Spaced s.opened
  pub tick : s.window.log_tick ≡ newest s.opened
  pub in_time : total early s.threads ≡ 0
  pub logged : total owes_line s.threads + s.lines ≡ length s.opened
  pub counted : s.lines + s.reported + s.window.suppressed + total one s.threads ≡ s.calls

run-Inv :
    (s : System) (pc : RejectPc) (rest : List RejectPc)
    → Pick pc s.threads rest
    → Inv s
    → Inv (after s (should_log_send_reject s.window pc) rest)
unfolding should_log_send_reject
run-Inv s (read_tick now) rest p v =
    let a = Pick-total early (read_tick now) p in
    let b = Pick-total owes_line (read_tick now) p in
    let c = Pick-total one (read_tick now) p in ground (arith, v.spaced)
run-Inv s (open_window now last) rest p v =
    let a = Pick-total early (open_window now last) p in
    let b = Pick-total owes_line (open_window now last) p in
    let c = Pick-total one (open_window now last) p in ground (arith, v.spaced)
run-Inv s swallow rest p v =
    let a = Pick-total early swallow p in
    let b = Pick-total owes_line swallow p in
    let c = Pick-total one swallow p in ground (arith, v.spaced)
run-Inv s take_suppressed rest p v =
    let a = Pick-total early take_suppressed p in
    let b = Pick-total owes_line take_suppressed p in
    let c = Pick-total one take_suppressed p in ground (arith, v.spaced)

Reach-Inv : {s : System} → Reach s → Inv s
Reach-Inv here = record { spaced = tt; tick = refl; in_time = refl; logged = refl; counted = refl }
Reach-Inv (next {s} r (run pc rest p)) = run-Inv s pc rest p (Reach-Inv r)
Reach-Inv (next {s} r (refuse now)) = let v = Reach-Inv r in ground (arith, v.spaced)

-- However the calls for one reason overlap, from a session that was reset on: the windows that they opened are a second or more apart
-- (times are above 0), each of them is one line or a thread that is about to log it, and every refusal
-- whose call has returned is a line, was reported with one, or is still counted.
pub refusals_lem :
    {s : System}
    → Reach s
    → Spaced s.opened
      × (total owes_line s.threads + s.lines ≡ length s.opened)
      × (s.lines + s.reported + s.window.suppressed + total one s.threads ≡ s.calls)
refusals_lem r = let v = Reach-Inv r in (v.spaced, v.logged, v.counted)

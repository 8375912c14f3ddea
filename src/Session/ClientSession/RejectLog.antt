-- ===== src/Session/ClientSession/RejectLog.antt =====
-- `ShouldLogSendReject` of Session/ClientSession.cpp, called for one reason by several threads at the same
-- time. The arrays have one element for each reason, and a call touches those of its own alone. A step
-- is one atomic operation on them.
pub mod Lines
use iocpnetwork_engine.Prelude.{
  ℕ, zero, suc, ◌+◌, ◌≡◌, Bool, true, false, not, ◌&&◌, Option, none, some, List, [], ◌∷◌, ◌++◌,
  ltb, ◌==◌, if◌then◌else◌,
}
use iocpnetwork_engine.Prelude.Schedule.{Pick, put_back}

abbrev pub window_ms : ℕ
window_ms = 1000

-- The elements of `m_sendRejectLogTick` and `m_sendRejectSuppressed`.
pub record Window : Type 0 where
  pub log_tick : ℕ
  pub suppressed : ℕ

-- Where a thread stands: before the read of the tick, the exchange of the tick, the increment, and the
-- exchange of the count. `now` is what `GetTickCount64` said, `last` the tick that was read.
pub data RejectPc : Type 0 where
  read_tick : (now : ℕ) → RejectPc
  open_window : (now last : ℕ) → RejectPc
  swallow : RejectPc
  take_suppressed : RejectPc

-- What one operation leaves: where the thread goes on, the time for which it opened a window, and what
-- the call returned, the answer with `outSuppressed`.
pub record Outcome : Type 0 where
  pub window : Window
  pub next : Option RejectPc
  pub opened : Option ℕ
  pub answer : Option (Bool × ℕ)

abbrev goes_on : Window → RejectPc → Outcome
goes_on w pc = record { window = w; next = some pc; opened = none; answer = none }

abbrev returns : Window → Bool → ℕ → Outcome
returns w result out_suppressed = record {
  window = w;
  next = none;
  opened = none;
  answer = some (result, out_suppressed);
}

unfoldable pub should_log_send_reject : Window → RejectPc → Outcome
should_log_send_reject w (read_tick now) =
    if not (w.log_tick == 0) && ltb now (w.log_tick + window_ms)
    then goes_on w swallow
    else goes_on w (open_window now w.log_tick)
should_log_send_reject w (open_window now last) =
    if w.log_tick == last
    then record {
      window = record w { log_tick = now };
      next = some take_suppressed;
      opened = some now;
      answer = none;
    }
    else goes_on w swallow
should_log_send_reject w swallow = returns (record w { suppressed = w.suppressed + 1 }) false 0
should_log_send_reject w take_suppressed = returns (record w { suppressed = 0 }) true w.suppressed

abbrev pub with_time : Option ℕ → List ℕ → List ℕ
with_time none ts = ts
with_time (some t) ts = t ∷ ts

abbrev pub lines_of : Option (Bool × ℕ) → ℕ
lines_of none = 0
lines_of (some (result, out_suppressed)) = if result then 1 else 0

abbrev pub reported_of : Option (Bool × ℕ) → ℕ
reported_of none = 0
reported_of (some (result, out_suppressed)) = out_suppressed

-- For the statements alone: the times of the windows opened, the newest first, the calls that said to
-- log, the sum of what they reported, and the calls made.
pub record System : Type 0 where
  pub window : Window
  pub threads : List RejectPc
  pub opened : List ℕ
  pub lines : ℕ
  pub reported : ℕ
  pub calls : ℕ

abbrev pub after : System → Outcome → List RejectPc → System
after s o rest = record s {
  window = o.window;
  threads = put_back o.next rest;
  opened = with_time o.opened s.opened;
  lines = s.lines + lines_of o.answer;
  reported = s.reported + reported_of o.answer;
}

-- A thread makes one step, or a send is refused at the time `now`.
pub data Step (s : System) : System → Type 0 where
  run :
      (pc : RejectPc) (rest : List RejectPc)
      → Pick pc s.threads rest
      → Step s (after s (should_log_send_reject s.window pc) rest)
  refuse :
      (now : ℕ) → Step s (record s { threads = read_tick now ∷ s.threads; calls = s.calls + 1 })

-- A session that was reset.
abbrev pub start : System
start = record {
  window = record { log_tick = 0; suppressed = 0 };
  threads = [];
  opened = [];
  lines = 0;
  reported = 0;
  calls = 0;
}

pub data Reach : System → Type 0 where
  here : Reach start
  next : {s t : System} → Reach s → Step s t → Reach t

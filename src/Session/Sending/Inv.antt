-- ===== src/Session/Sending/Inv.antt =====
-- Who may send, in the threads of Session/Sending.
use iocpnetwork_engine.Prelude.{
  ℕ, ◌+◌, ◌≤◌, ◌<◌, ◌≡◌, ◌⊎◌, Bool, true, false, Option, none, some, List, [], ◌∷◌, length, arith,
}
use iocpnetwork_engine.Prelude.Schedule.{total, total_mono}
use iocpnetwork_engine.Session.Sending.{
  acquire, take_next, give_back, recheck, aim, look_cancel, begin, send, Then, stop, report,
  try_next, Thread, enqueueing, trying, posting, completed, clearing, freeing, reporting, System,
  bytes,
}

abbrev pub flag : Bool → ℕ
flag true = 1
flag false = 0

abbrev pub has : Option (List ℕ) → ℕ
has none = 0
has (some packet) = 1

-- 1 for a packet of no bytes.
abbrev pub is_void : List ℕ → ℕ
is_void [] = 1
is_void (x ∷ xs) = 0

abbrev pub voids : List (List ℕ) → ℕ
voids [] = 0
voids (packet ∷ rest) = is_void packet + voids rest

-- 1 for a thread that set `m_sending` and has not cleared it.
abbrev pub owns : Thread → ℕ
owns (enqueueing packet) = 0
owns (trying acquire) = 0
owns (trying take_next) = 1
owns (trying give_back) = 1
owns (trying recheck) = 0
owns (posting pc) = 1
owns (completed n) = 1
owns (clearing w) = 1
owns (freeing w) = 1
owns reporting = 0

-- 1 for a thread that works on a current packet.
abbrev pub works : Thread → ℕ
works (enqueueing packet) = 0
works (trying pc) = 0
works (posting pc) = 1
works (completed n) = 1
works (clearing w) = 1
works (freeing w) = 0
works reporting = 0

-- 1 for a thread that will still look at the queue.
abbrev pub looks : Thread → ℕ
looks (enqueueing packet) = 0
looks (trying acquire) = 1
looks (trying take_next) = 0
looks (trying give_back) = 0
looks (trying recheck) = 1
looks (posting pc) = 0
looks (completed n) = 0
looks (clearing w) = 0
looks (freeing w) = 0
looks reporting = 0

-- 1 for a thread about to compute what remains of the packet.
abbrev pub aims : Thread → ℕ
aims (enqueueing packet) = 0
aims (trying pc) = 0
aims (posting aim) = 1
aims (posting look_cancel) = 0
aims (posting begin) = 0
aims (posting send) = 0
aims (completed n) = 0
aims (clearing w) = 0
aims (freeing w) = 0
aims reporting = 0

abbrev pub on_stop : Then → ℕ
on_stop stop = 1
on_stop report = 0
on_stop try_next = 0

abbrev pub on_report : Then → ℕ
on_report stop = 0
on_report report = 1
on_report try_next = 0

-- 1 for a thread that gives the packet back because I/O is cancelled.
abbrev pub quits : Thread → ℕ
quits (enqueueing packet) = 0
quits (trying pc) = 0
quits (posting pc) = 0
quits (completed n) = 0
quits (clearing w) = on_stop w
quits (freeing w) = on_stop w
quits reporting = 0

-- 1 for a thread whose send was refused.
abbrev pub fails : Thread → ℕ
fails (enqueueing packet) = 0
fails (trying pc) = 0
fails (posting pc) = 0
fails (completed n) = 0
fails (clearing w) = on_report w
fails (freeing w) = on_report w
fails reporting = 0

pub record Inv (s : System) : Type 0 where
  pub token : flag s.shared.sending ≡ s.shared.posted + total owns s.threads + s.shared.stalled
  pub carried :
      has s.shared.current_send_packet ≡ s.shared.posted + total works s.threads + s.shared.stalled
  pub stall : 0 < s.shared.stalled → s.shared.cancel_io ≡ true
  pub waiting :
      0 < length s.shared.queue
      → (0
          < s.shared.posted
            + total owns s.threads
            + total looks s.threads
            + s.shared.stalled
            + s.shared.failures)
        ⊎ (s.shared.cancel_io ≡ true)
  pub quit : 0 < total quits s.threads → s.shared.cancel_io ≡ true
  pub fail : 0 < total fails s.threads → 0 < s.shared.failures
  pub aimed :
      0 < total aims s.threads → s.shared.send_offset < length (bytes s.shared.current_send_packet)
  pub whole : voids s.shared.queue ≡ 0
  pub given_back : 0 < s.shared.dropped → (0 < s.shared.failures) ⊎ (s.shared.cancel_io ≡ true)

-- Who aims works on a packet, and who works on a packet owns the token.
aims-works : (t : Thread) → aims t ≤ works t
aims-works (enqueueing packet) = omega arith
aims-works (trying pc) = omega arith
aims-works (posting pc) = ground arith
aims-works (completed n) = omega arith
aims-works (clearing w) = omega arith
aims-works (freeing w) = omega arith
aims-works reporting = omega arith

works-owns : (t : Thread) → works t ≤ owns t
works-owns (enqueueing packet) = omega arith
works-owns (trying pc) = omega arith
works-owns (posting pc) = omega arith
works-owns (completed n) = omega arith
works-owns (clearing w) = omega arith
works-owns (freeing w) = omega arith
works-owns reporting = omega arith

pub total-works :
    (ts : List Thread) → (total aims ts ≤ total works ts) × (total works ts ≤ total owns ts)
total-works ts = (total_mono aims works aims-works ts, total_mono works owns works-owns ts)

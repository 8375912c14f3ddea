-- ===== src/Tests/Refusals.antt =====
-- Two threads whose sends are refused at the same time.
use iocpnetwork_engine.Prelude.{◌+◌, ◌≡◌, refl, [], ◌∷◌, length}
use iocpnetwork_engine.Prelude.Schedule.{first, later, total}
use iocpnetwork_engine.Session.ClientSession.RejectLog.{
  read_tick, open_window, swallow, take_suppressed, should_log_send_reject, after, System, run,
  refuse, start, Reach, here, next,
}
use iocpnetwork_engine.Session.ClientSession.RejectLog.Lines.{Spaced, one, owes_line, refusals_lem}

abbrev both : System
both = record (start) { threads = read_tick 5000 ∷ (read_tick 5000 ∷ []); calls = 2 }

abbrev one_read : System
one_read = after both (should_log_send_reject both.window (read_tick 5000)) (read_tick 5000 ∷ [])

-- Both have read the tick 0.
abbrev both_read : System
both_read =
    after one_read (should_log_send_reject one_read.window (read_tick 5000))
      (open_window 5000 0 ∷ [])

abbrev opened : System
opened =
    after both_read (should_log_send_reject both_read.window (open_window 5000 0))
      (open_window 5000 0 ∷ [])

-- The second comes too late.
abbrev lost : System
lost =
    after opened (should_log_send_reject opened.window (open_window 5000 0)) (take_suppressed ∷ [])

abbrev counted : System
counted = after lost (should_log_send_reject lost.window swallow) (take_suppressed ∷ [])

abbrev logged : System
logged = after counted (should_log_send_reject counted.window take_suppressed) []

logged-Reach : Reach logged
unfolding should_log_send_reject
logged-Reach =
    let r0 : Reach both = next (next here (refuse 5000)) (refuse 5000) in
    let r1 : Reach one_read = next r0 (run (read_tick 5000) (read_tick 5000 ∷ []) first) in
    let r2 : Reach both_read =
      next r1 (run (read_tick 5000) (open_window 5000 0 ∷ []) (later first)) in
    let r3 : Reach opened = next r2 (run (open_window 5000 0) (open_window 5000 0 ∷ []) first) in
    let r4 : Reach lost = next r3 (run (open_window 5000 0) (take_suppressed ∷ []) (later first)) in
    let r5 : Reach counted = next r4 (run swallow (take_suppressed ∷ []) first) in
    next r5 (run take_suppressed [] first)

refusals_example :
    Spaced logged.opened
    × (total owes_line logged.threads + logged.lines ≡ length logged.opened)
    × (logged.lines + logged.reported + logged.window.suppressed + total one logged.threads
        ≡ logged.calls)
refusals_example = refusals_lem logged-Reach

-- One line, which reports the other refusal.
one_line : (logged.opened ≡ 5000 ∷ []) × (logged.lines ≡ 1) × (logged.reported ≡ 1)
unfolding should_log_send_reject
one_line = (refl, refl, refl)

-- ===== src/Client/Watchdog/Silence.antt =====
-- When the watchdog of Core/ClientWatchdogThread.cpp gives a connection up.
use iocpnetwork_engine.Prelude.{
  ℕ, ◌+◌, ◌≤◌, ◌≡◌, Bool, true, false, List, [], ◌∷◌, arith, length, Bool-cases, inl, inr, subst,
  ◌==◌,
}
use iocpnetwork_engine.Client.Watchdog.{
  ClientWatchdog, Sight, round, run, Later, Silent, run_disarmed,
}

-- What one round does, by its answer.
record Rounds (w : ClientWatchdog) (v : Sight) (r : Bool × ClientWatchdog) : Type 0 where
  waits :
      r.0 ≡ false
      → (r.1.idle_timeout_ms ≡ w.idle_timeout_ms)
        × (w.resume_baseline_tick ≤ v.now_tick
            → (w.resume_baseline_tick ≤ r.1.resume_baseline_tick)
              × (r.1.resume_baseline_tick ≤ v.now_tick))
  fires :
      r.0 ≡ true
      → (r.1.idle_timeout_ms ≡ 0)
        × (v.last_recv_tick + w.idle_timeout_ms ≤ v.now_tick)
        × (w.resume_baseline_tick + w.idle_timeout_ms ≤ v.now_tick)
        × (v.established ≡ true)
        × (v.receive_paused ≡ false)

round_lem : (w : ClientWatchdog) (v : Sight) → Rounds w v (round w v)
unfolding round
round_lem w v = ground arith

Later-weaken : (a b : ℕ) (vs : List Sight) → a ≤ b → Later b vs → Later a vs
Later-weaken a b [] h later = tt
Later-weaken a b (v ∷ vs) h later = (omega (arith, later.0), later.1)

-- A baseline that lies before the rounds to come is never forgotten.
run-Silent :
    (w : ClientWatchdog) (t : ℕ) (vs : List Sight)
    → t ≤ w.resume_baseline_tick
    → Later w.resume_baseline_tick vs
    → Silent w.idle_timeout_ms t (run w vs) × (length (run w vs) ≤ 1)
unfolding run
run-Silent w t [] from later = (tt, omega arith)
run-Silent w t (v ∷ vs) from later =
    let f = round_lem w v in
    let next = (round w v).1 in
    elim (Bool-cases (round w v).0) [
      | inl e ↦
          let (off, heard, based, up, listening) = f.fires e in
          rw (e, run_disarmed next vs off)
            (((omega (arith, based), heard, up, listening), tt), omega arith)
      | inr e ↦
          let (same, moved) = f.waits e in
          let (on, back) = moved later.0 in
          rw e (
            subst (λ k. Silent k t (run next vs) × (length (run next vs) ≤ 1)) same
              (run-Silent next t vs (omega (arith, on))
                (Later-weaken next.resume_baseline_tick v.now_tick vs back later.1)))
    ]

-- A round in which the session is established and its receive is paused does not fire, and gives the
-- server a whole timeout from then on: whatever the later rounds see, the watchdog fires at most once,
-- on an established session whose receive is not paused, a timeout or more after that round and
-- after the last bytes that came. The clock of the rounds does not go back.
pub watchdog_lem :
    (w : ClientWatchdog) (v : Sight) (vs : List Sight)
    → v.established ≡ true
    → v.receive_paused ≡ true
    → Later v.now_tick vs
    → Silent w.idle_timeout_ms v.now_tick (run w (v ∷ vs)) × (length (run w (v ∷ vs)) ≤ 1)
unfolding run round
watchdog_lem w v vs up paused later = elim (Bool-cases (w.idle_timeout_ms == 0)) [
  | inl e ↦ rw (run_disarmed w (v ∷ vs) (ground (arith, e))) (tt, omega arith)
  | inr e ↦
      let next = record w { resume_baseline_tick = v.now_tick } in
      let h : round w v ≡ (false, next) = ground (arith, e, up, paused) in
      rw h (run-Silent next v.now_tick vs (omega arith) later)
]

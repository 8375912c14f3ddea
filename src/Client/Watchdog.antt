-- ===== src/Client/Watchdog.antt =====
-- The watch on a silent server, Core/ClientWatchdogThread.cpp: one round of `Run` after its wait.
pub mod Silence
use iocpnetwork_engine.Prelude.{
  ℕ, zero, suc, ◌+◌, ◌-◌, ◌*◌, ◌/◌, ◌≤◌, ◌<◌, ◌≡◌, Bool, true, false, not, ◌||◌, List, [], ◌∷◌, ltb,
  ◌==◌, if◌then◌else◌, refl, arith, length, if_split,
}

-- `m_idleTimeout_ms`, `m_resumeBaselineTick` and `m_fired`. A timeout of 0 is a watchdog not armed.
pub record ClientWatchdog : Type 0 where
  pub idle_timeout_ms : ℕ
  pub resume_baseline_tick : ℕ
  pub fired : Bool

-- What a round sees of the session, and the clock.
pub record Sight : Type 0 where
  pub established : Bool
  pub receive_paused : Bool
  pub last_recv_tick : ℕ
  pub now_tick : ℕ

-- How long to wait for the next round.
unfoldable pub wait_ms : ClientWatchdog → ℕ
wait_ms w =
    let derived : ℕ = w.idle_timeout_ms / 4 in
    if w.idle_timeout_ms == 0
    then 250
    else if ltb derived 250
    then 250
    else if ltb 5000 derived
    then 5000
    else derived

abbrev pub last_listening_tick : ClientWatchdog → Sight → ℕ
last_listening_tick w v =
    if ltb w.resume_baseline_tick v.last_recv_tick then v.last_recv_tick else w.resume_baseline_tick

-- Whether the watchdog fires: `NoteDisconnectReason(IdleTimeout)` and `NotifyDisconnect`.
unfoldable pub round : ClientWatchdog → Sight → Bool × ClientWatchdog
round w v =
    if w.idle_timeout_ms == 0
    then (false, w)
    else if not v.established
    then (false, w)
    else if v.receive_paused
    then (false, record w { resume_baseline_tick = v.now_tick })
    else if (last_listening_tick w v == 0) || ltb v.now_tick (last_listening_tick w v)
    then (false, w)
    else if ltb (v.now_tick - last_listening_tick w v) w.idle_timeout_ms
    then (false, w)
    else (true, record w { idle_timeout_ms = 0; fired = true })

-- The rounds one after the other: what was seen where the watchdog fired.
unfoldable pub run : ClientWatchdog → List Sight → List Sight
run w [] = []
run w (v ∷ vs) =
    let (fires, next) = round w v in
    let rest : List Sight = run next vs in if fires then v ∷ rest else rest

-- The clock does not go back, from the tick `t` on.
abbrev pub Later : ℕ → List Sight → Type 0
Later t [] = Unit {0}
Later t (v ∷ vs) = (t ≤ v.now_tick) × Later v.now_tick vs

-- The server was silent for `timeout` before each of these, while the session listened, and all of them
-- come at `t + timeout` or after.
abbrev pub Silent : ℕ → ℕ → List Sight → Type 0
Silent timeout t [] = Unit {0}
Silent timeout t (v ∷ vs) =
    ((t + timeout ≤ v.now_tick)
      × (v.last_recv_tick + timeout ≤ v.now_tick)
      × (v.established ≡ true)
      × (v.receive_paused ≡ false))
    × Silent timeout t vs

run_disarmed : (w : ClientWatchdog) (vs : List Sight) → w.idle_timeout_ms ≡ 0 → run w vs ≡ []
unfolding run round
run_disarmed w [] e = refl
run_disarmed w (v ∷ vs) e =
    let h : round w v ≡ (false, w) = ground (arith, e) in rw h (run_disarmed w vs e)

-- ===== src/Tests/Liveness.antt =====
-- A watchdog over three looks at a session, and a pass over three sessions.
use iocpnetwork_engine.Prelude.{
  ℕ, ◌≤◌, ◌≡◌, refl, true, false, some, [], ◌∷◌, arith, length, ◌==◌, if◌then◌else◌,
}
use iocpnetwork_engine.Protocol.{unknown, heartbeat_timeout, stalled_peer}
use iocpnetwork_engine.Buffer.SessionBufferConfig.{server_preset}
use iocpnetwork_engine.Server.SystemPacket.{ServerSessionState}
use iocpnetwork_engine.Session.SessionJobQueue.{server}
use iocpnetwork_engine.Session.ClientSession.{ClientSessionState, is_heartbeat_timed_out}
use iocpnetwork_engine.Session.ClientSessionPool.{ClientSessionPool, construct}
use iocpnetwork_engine.Session.ClientSessionPool.Zombies.{
  Slot, Pass, State, is_zombie, disconnect, disconnect_zombie_sessions,
}
use iocpnetwork_engine.Session.ClientSessionPool.Zombies.Order.{dead}
use iocpnetwork_engine.Client.Watchdog.{ClientWatchdog, Sight, run, Silent}
use iocpnetwork_engine.Client.Watchdog.Silence.{watchdog_lem}

abbrev armed : ClientWatchdog
armed = record { idle_timeout_ms = 15000; resume_baseline_tick = 0; fired = false }

abbrev paused_at : ℕ → Sight
paused_at t = record {
  established = true;
  receive_paused = true;
  last_recv_tick = 1000;
  now_tick = t;
}

abbrev listening_at : ℕ → Sight
listening_at t = record (paused_at t) { receive_paused = false }

watchdog_example :
    let seen = paused_at 20000 ∷ (listening_at 25000 ∷ (listening_at 35000 ∷ [])) in
    Silent 15000 20000 (run armed seen) × (length (run armed seen) ≤ 1)
watchdog_example =
    watchdog_lem armed (paused_at 20000) (listening_at 25000 ∷ (listening_at 35000 ∷ [])) refl refl
      (omega arith, (omega arith, tt))

-- Session 1 is alive; session 2 does not read what is sent to it.
abbrev slot_of : ℕ → Slot
slot_of i = record {
  session = record {
    session_role = server;
    client_session_state = ClientSessionState.none_yet;
    server_session_state = ServerSessionState.established;
    buffer_config = server_preset;
    last_recv_tick = if i == 1 then 99000 else 20000;
    last_heartbeat_tick = 10000;
    send_reject_log_tick = λ r. 0;
    send_reject_suppressed = λ r. 0;
  };
  socket_invalid = false;
  sending = i == 2;
  send_queue_empty = some true;
  disconnect_reason = unknown;
}

abbrev pass : Pass
pass = record {
  now_tick = 100000;
  heartbeat_timeout_ms = 15000;
  stalled_peer_timeout_ms = 60000;
  release_budget_ms = 1250;
  pass_begin_tick = 100000;
  clock = λ i. 100000;
  requested = λ i. true;
}

abbrev pool : ClientSessionPool
pool = construct (λ i. true) 3

abbrev begun : State
begun = record { pool = pool; slots = slot_of; disconnected_count = 0 }

-- Sessions 0 and 2 are dead, and 2 did not read.
two_dead : dead pass slot_of 3 0 ≡ 0 ∷ (2 ∷ [])
two_dead = refl

two_reasons :
    ((disconnect_zombie_sessions pass pool slot_of).disconnected_count ≡ 2)
    × (((disconnect_zombie_sessions pass pool slot_of).slots 0).disconnect_reason
        ≡ heartbeat_timeout)
    × (((disconnect_zombie_sessions pass pool slot_of).slots 2).disconnect_reason ≡ stalled_peer)
unfolding disconnect_zombie_sessions disconnect construct is_zombie is_heartbeat_timed_out
two_reasons = (refl, refl, refl)

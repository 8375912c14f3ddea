-- ===== src/Tests/Lifecycle.antt =====
-- A session with one packet in its send queue and another on its way, and one job.
use iocpnetwork_engine.Prelude.{
  ◌≡◌, ◌↔◌, refl, true, false, none, some, [], ◌∷◌, arith, ◌==◌, if◌then◌else◌,
}
use iocpnetwork_engine.Prelude.Int.{pos}
use iocpnetwork_engine.Protocol.{peer_closed}
use iocpnetwork_engine.Buffer.SendPacketQueue.{SendPacketQueue, cleared}
use iocpnetwork_engine.Buffer.SendPacketQueue.Fifo.{IsValid as SendIsValid}
use iocpnetwork_engine.Buffer.SessionBufferConfig.{server_preset, is_valid}
use iocpnetwork_engine.Server.SystemPacket.{ServerSessionState}
use iocpnetwork_engine.Session.SessionJobQueue.{SessionJobQueue, server}
use iocpnetwork_engine.Session.SessionJobQueue.Fifo.{IsValid as JobsIsValid}
use iocpnetwork_engine.Session.ClientSession.{ClientSessionState}
use iocpnetwork_engine.Session.Lifecycle.{Session, Store, Pools, initialize_memory_pool}
use iocpnetwork_engine.Session.Lifecycle.Reset.{WasReset, reset_session_lem}
use iocpnetwork_engine.Session.Lifecycle.Setup.{has_storage, initialize_memory_pool_iff}

abbrev store : Store
store = record {
  entries = record {
    entries = λ p.
        if p == 1
        then record cleared { packet_data = some 100; packet_size = 8 }
        else record cleared { packet_data = some 200; packet_size = 9 };
    released = [];
    freed = [];
    violations = 0;
  };
  jobs = record {
    jobs = λ p. record { next = none; packet = some 300 };
    released_packets = [];
    released_jobs = [];
    violations = 0;
    wakes = 0;
  };
}

abbrev sends : SendPacketQueue
sends = record {
  head = some 1;
  tail = some 1;
  count = 1;
  max_count = 4096;
  entry_pool = true;
  packet_pool = true;
  general_pool = true;
}

abbrev jobs : SessionJobQueue
jobs = record {
  session_role = server;
  head = some 5;
  tail = some 5;
  count = 1;
  peak_count = 3;
  stop_flag = false;
}

abbrev used : Session
used = record {
  client_session = record {
    session_role = server;
    client_session_state = ClientSessionState.none_yet;
    server_session_state = ServerSessionState.disconnected;
    buffer_config = server_preset;
    last_recv_tick = 900;
    last_heartbeat_tick = 800;
    send_reject_log_tick = λ r. 700;
    send_reject_suppressed = λ r. 2;
  };
  live_socket = false;
  closing = true;
  io_count = pos 0;
  cancel_io = true;
  release_pending = false;
  disconnect_reason = peer_closed;
  sending = true;
  processing = false;
  recv_paused = false;
  recv_pause_count = 1;
  service_connect_notified = false;
  session_context = some 9;
  send_packet_queue = some sends;
  recv_packet_buffer = none;
  job_queue = some jobs;
  current_send_packet = some 2;
  send_offset = 4;
  violations = 0;
  destroy_flag = false;
}

sends-SendIsValid : SendIsValid sends store.entries (1 ∷ [])
sends-SendIsValid = record {
  queue = record { chain = (refl, refl); distinct = (tt, tt); ends = refl; counted = refl };
  bounded = omega arith;
}

jobs-JobsIsValid : JobsIsValid jobs store.jobs (5 ∷ [])
jobs-JobsIsValid = record {
  queue = record { chain = (refl, refl); distinct = (tt, tt); ends = refl; counted = refl };
  peak = omega arith;
}

reset_session_example : WasReset used store sends jobs (1 ∷ []) (5 ∷ [])
reset_session_example =
    reset_session_lem used store (1 ∷ []) (5 ∷ []) refl refl refl refl sends-SendIsValid
      jobs-JobsIsValid refl (omega arith, tt)

abbrev pools : Pools
pools = record {
  send_queue_pool = true;
  packet_pool = true;
  general_pool = false;
  storage = some [];
}

initialize_memory_pool_example :
    ((initialize_memory_pool used store pools server_preset).0 ≡ true) ↔ (
      (is_valid server_preset ≡ true)
      × (pools.send_queue_pool ≡ true)
      × (pools.packet_pool ≡ true)
      × (pools.general_pool ≡ true)
      × (has_storage pools.storage ≡ true))
initialize_memory_pool_example = initialize_memory_pool_iff used store pools server_preset

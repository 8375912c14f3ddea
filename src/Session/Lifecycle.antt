-- ===== src/Session/Lifecycle.antt =====
-- What a session of Session/ClientSession.cpp owns, from `InitializeMemoryPool` over `ResetSession` to
-- `Finalize`, with the parts of Session/BaseSession.cpp that these call.
pub mod Setup
pub mod Reset
use iocpnetwork_engine.Prelude.{
  ℕ, ◌+◌, Bool, true, false, not, Option, none, some, List, [], if◌then◌else◌, ◌==◌,
}
use iocpnetwork_engine.Prelude.Int.{ℤ, pos, negsuc}
use iocpnetwork_engine.Prelude.Chain.{Ptr}
use iocpnetwork_engine.Protocol.{DisconnectReason, unknown}
use iocpnetwork_engine.Buffer.RecvPacketBuffer
use iocpnetwork_engine.Buffer.RecvPacketBuffer.{RecvPacketBuffer}
use iocpnetwork_engine.Buffer.SendPacketQueue
use iocpnetwork_engine.Buffer.SendPacketQueue.{SendPacketQueue}
use iocpnetwork_engine.Buffer.SessionBufferConfig.{SessionBufferConfig, is_valid}
use iocpnetwork_engine.Server.SystemPacket.{ServerSessionState}
use iocpnetwork_engine.Session.SessionJobQueue
use iocpnetwork_engine.Session.SessionJobQueue.{SessionJobQueue, SessionRole, client, server}
use iocpnetwork_engine.Session.ClientSession.{ClientSession, ClientSessionState, SendRejectReason}

-- The memory of the entries and of the jobs, with what was given back.
pub record Store : Type 0 where
  pub entries : SendPacketQueue.Memory
  pub jobs : SessionJobQueue.Memory

-- A pointer that may be null is an option; `live_socket` says that `m_clientSocket` is one.
pub record Session : Type 0 where
  pub client_session : ClientSession
  pub live_socket : Bool
  pub closing : Bool
  pub io_count : ℤ
  pub cancel_io : Bool
  pub release_pending : Bool
  pub disconnect_reason : DisconnectReason
  pub sending : Bool
  pub processing : Bool
  pub recv_paused : Bool
  pub recv_pause_count : ℕ
  pub service_connect_notified : Bool
  pub session_context : Option Ptr
  pub send_packet_queue : Option SendPacketQueue
  pub recv_packet_buffer : Option RecvPacketBuffer
  pub job_queue : Option SessionJobQueue
  pub current_send_packet : Option Ptr
  pub send_offset : ℕ
  pub violations : ℕ
  pub destroy_flag : Bool

abbrev pub is_zero : ℤ → Bool
is_zero (pos n) = n == 0
is_zero (negsuc n) = false

abbrev pub note_if : Bool → Session → Session
note_if b s = if b then record s { violations = s.violations + 1 } else s

abbrev pub set_states : ClientSessionState → ServerSessionState → ClientSession → ClientSession
set_states c v s = record s { client_session_state = c; server_session_state = v }

-- `SetClientSessionState(CONNECT_READY)` or `SetServerSessionState(CONNECT_READY)`, by the role.
abbrev pub ready_state : ClientSession → ClientSession
ready_state s = elim s.session_role [
  | client ↦ record s { client_session_state = ClientSessionState.connect_ready }
  | server ↦ record s { server_session_state = ServerSessionState.connect_ready }
  | _ ↦ s
]

-- The refusal log and the two ticks go back to 0.
abbrev pub clear_logs : ClientSession → ClientSession
clear_logs s = record s {
  send_reject_log_tick = λ r. 0;
  send_reject_suppressed = λ r. 0;
  last_recv_tick = 0;
  last_heartbeat_tick = 0;
}

-- `BaseSession::ResetSession`: the I/O count is left as it is.
unfoldable pub base_reset : Session → Session
base_reset s = record (note_if (not (is_zero s.io_count)) (note_if s.live_socket s)) {
  client_session =
      set_states ClientSessionState.none_yet ServerSessionState.none_yet s.client_session;
  disconnect_reason = unknown;
  closing = false;
  cancel_io = false;
  release_pending = false;
}

-- `ReleaseEntry(m_currentSendPacket)`, where there are both a packet and a queue.
abbrev pub release_current :
    Option SendPacketQueue → Option Ptr → SendPacketQueue.Memory → SendPacketQueue.Memory
release_current none current m = m
release_current (some q) current m = SendPacketQueue.release_entry q m current

abbrev pub reset_send :
    Option SendPacketQueue
    → SendPacketQueue.Memory
    → Option SendPacketQueue.Memory × Option SendPacketQueue
reset_send none m = (some m, none)
reset_send (some q) m = ((SendPacketQueue.reset q m).0, some (SendPacketQueue.reset q m).1)

abbrev pub reset_jobs :
    Option SessionJobQueue
    → SessionJobQueue.Memory
    → Option SessionJobQueue.Memory × Option SessionJobQueue
reset_jobs none m = (some m, none)
reset_jobs (some q) m = ((SessionJobQueue.reset q m).0, some (SessionJobQueue.reset q m).1)

abbrev pub reset_ring : Option RecvPacketBuffer → Option RecvPacketBuffer
reset_ring none = none
reset_ring (some b) = some (RecvPacketBuffer.reset b)

abbrev pub store_of : Option SendPacketQueue.Memory → Option SessionJobQueue.Memory → Option Store
store_of none j = none
store_of (some e) none = none
store_of (some e) (some j) = some (record { entries = e; jobs = j })

abbrev pub release_after :
    Option SendPacketQueue
    → Option Ptr
    → Option SendPacketQueue.Memory
    → Option SendPacketQueue.Memory
release_after q current none = none
release_after q current (some m) = some (release_current q current m)

-- The store is `none` only where a loop of a `Reset` would not end. The overlapped structures, which
-- hold no state between I/Os, are left out.
unfoldable pub reset_session : Session → Store → Option Store × Session
unfolding base_reset
reset_session s m =
    let sends : Option SendPacketQueue.Memory × Option SendPacketQueue =
      reset_send s.send_packet_queue m.entries in
    let jobs : Option SessionJobQueue.Memory × Option SessionJobQueue =
      reset_jobs s.job_queue m.jobs in
    (
      store_of (release_after sends.1 s.current_send_packet sends.0) jobs.0,
      record (base_reset s) {
        client_session = clear_logs (ready_state (base_reset s).client_session);
        sending = false;
        processing = false;
        recv_paused = false;
        recv_pause_count = 0;
        service_connect_notified = false;
        session_context = none;
        send_packet_queue = sends.1;
        recv_packet_buffer = reset_ring s.recv_packet_buffer;
        current_send_packet = none;
        send_offset = 0;
        job_queue = jobs.1;
      },
    )

-- `ReleaseMemoryResources`. The destructors find nothing left to give back.
abbrev pub finalize_send :
    Option SendPacketQueue → SendPacketQueue.Memory → Option SendPacketQueue.Memory
finalize_send none m = some m
finalize_send (some q) m = (SendPacketQueue.finalize q m).0

unfoldable pub release_memory_resources : Session → Store → Option Store × Session
release_memory_resources s m = (
  store_of (finalize_send s.send_packet_queue m.entries) (reset_jobs s.job_queue m.jobs).0,
  record s { send_packet_queue = none; job_queue = none; recv_packet_buffer = none },
)

-- The objects as `new` makes them.
abbrev pub new_send_queue : SendPacketQueue
new_send_queue = record {
  head = none;
  tail = none;
  count = 0;
  max_count = 0;
  entry_pool = false;
  packet_pool = false;
  general_pool = false;
}

abbrev pub new_job_queue : SessionRole → SessionJobQueue
new_job_queue role = record {
  session_role = role;
  head = none;
  tail = none;
  count = 0;
  peak_count = 0;
  stop_flag = false;
}

-- Which pools were handed over, and what `_aligned_malloc` returns for the ring.
pub record Pools : Type 0 where
  pub send_queue_pool : Bool
  pub packet_pool : Bool
  pub general_pool : Bool
  pub storage : Option (List ℕ)

-- `ReleaseMemoryResources` after `Initialize` of the send queue left the entries like this.
abbrev pub give_up : Session → Option SendPacketQueue.Memory → Store → Option Store × Session
give_up s none m = (none, s)
give_up s (some e) m = release_memory_resources s (record m { entries = e })

unfoldable pub initialize_memory_pool :
    Session → Store → Pools → SessionBufferConfig → Bool × Option Store × Session
unfolding release_memory_resources
initialize_memory_pool s m p config =
    let ring : Bool × RecvPacketBuffer =
      RecvPacketBuffer.initialize RecvPacketBuffer.constructed p.packet_pool config.recv_ring_size
        config.max_recv_packet_size p.storage in
    let sends : Bool × Option SendPacketQueue.Memory × SendPacketQueue =
      SendPacketQueue.initialize new_send_queue m.entries p.send_queue_pool p.packet_pool
        p.general_pool config.send_queue_depth in
    let configured : Session = record s {
      client_session = record (s.client_session) { buffer_config = config };
    } in
    let with_ring : Session = record configured { recv_packet_buffer = some ring.1 } in
    let with_jobs : Session = record with_ring {
      job_queue = some (new_job_queue s.client_session.session_role);
    } in
    let with_sends : Session = record with_jobs { send_packet_queue = some sends.2 } in
    if not (is_valid config)
    then (false, some m, note_if true s)
    else if not p.send_queue_pool
    then (false, some m, note_if true s)
    else if not ring.0
    then (false, (release_memory_resources with_ring m).0, (release_memory_resources with_ring m).1)
    else if not sends.0
    then (false, (give_up with_sends sends.1 m).0, (give_up with_sends sends.1 m).1)
    else (true, store_of sends.1 (some m.jobs), with_sends)

unfoldable pub base_finalize : Session → Session
base_finalize s =
    if s.destroy_flag
    then s
    else record (note_if s.live_socket (note_if (not (is_zero s.io_count)) s)) {
      client_session =
          set_states ClientSessionState.none_yet ServerSessionState.none_yet s.client_session;
      closing = false;
      io_count = pos 0;
      cancel_io = false;
      release_pending = false;
      destroy_flag = true;
    }

-- The entry in `m_currentSendPacket` goes back first: only the queue can take it.
unfoldable pub finalize : Session → Store → Option Store × Session
unfolding base_finalize release_memory_resources
finalize s m =
    let entries : SendPacketQueue.Memory =
      release_current s.send_packet_queue s.current_send_packet m.entries in
    let released : Option Store × Session =
      release_memory_resources (base_finalize s) (record m { entries = entries }) in
    if s.destroy_flag then (some m, s) else (
      released.0,
      record (released.1) {
        client_session = clear_logs (ready_state released.1.client_session);
        sending = false;
        processing = false;
        recv_paused = false;
        recv_pause_count = 0;
        session_context = none;
        current_send_packet = none;
        send_offset = 0;
        destroy_flag = true;
      },
    )

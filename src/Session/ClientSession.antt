-- ===== src/Session/ClientSession.antt =====
-- The state of a session in Session/ClientSession.cpp, and what it lets be sent: `IsReady`,
-- `IsTransportConnected`, `IsEstablished`, `CanSendPacket`, the checks of `EnqueueSendPacket`, and
-- the heartbeat ticks.
pub mod RejectLog
use iocpnetwork_engine.Prelude.{
  ℕ, zero, suc, ◌+◌, ◌-◌, ◌≡◌, Bool, true, false, not, ◌&&◌, ◌||◌, List, [], ◌∷◌, if◌then◌else◌,
  ◌==◌, ltb, leb, length,
}
use iocpnetwork_engine.Buffer.RecvPacketBuffer.{header_size, header_of}
use iocpnetwork_engine.Buffer.SessionBufferConfig.{SessionBufferConfig}
use iocpnetwork_engine.Protocol.{is_system_packet_id, is_service_packet_id}
use iocpnetwork_engine.Session.SessionJobQueue.{SessionRole, none_role, client, server, accept}
use iocpnetwork_engine.Server.SystemPacket.{ServerSessionState}

pub data ClientSessionState : Type 0 where
  none_yet connect_ready connecting connected auth_pending established connect_aborted
        disconnected :
      ClientSessionState

pub data SendRejectReason : Type 0 where
  not_established send_queue_full : SendRejectReason

pub record ClientSession : Type 0 where
  pub session_role : SessionRole
  pub client_session_state : ClientSessionState
  pub server_session_state : ServerSessionState
  pub buffer_config : SessionBufferConfig
  pub last_recv_tick : ℕ
  pub last_heartbeat_tick : ℕ
  pub send_reject_log_tick : SendRejectReason → ℕ
  pub send_reject_suppressed : SendRejectReason → ℕ

abbrev pub client_state_connected : ClientSessionState → Bool
client_state_connected ClientSessionState.connected = true
client_state_connected ClientSessionState.auth_pending = true
client_state_connected ClientSessionState.established = true
client_state_connected _ = false

abbrev pub server_state_connected : ServerSessionState → Bool
server_state_connected ServerSessionState.connected = true
server_state_connected ServerSessionState.auth_pending = true
server_state_connected ServerSessionState.established = true
server_state_connected ServerSessionState.heartbeat_timeout = true
server_state_connected _ = false

abbrev pub client_state_ready : ClientSessionState → Bool
client_state_ready ClientSessionState.connect_ready = true
client_state_ready _ = false

abbrev pub server_state_ready : ServerSessionState → Bool
server_state_ready ServerSessionState.connect_ready = true
server_state_ready _ = false

abbrev pub client_state_established : ClientSessionState → Bool
client_state_established ClientSessionState.established = true
client_state_established _ = false

abbrev pub server_state_established : ServerSessionState → Bool
server_state_established ServerSessionState.established = true
server_state_established _ = false

abbrev pub by_role : SessionRole → Bool → Bool → Bool
by_role client c s = c
by_role server c s = s
by_role _ c s = false

abbrev pub is_ready : ClientSession → Bool
is_ready s =
    by_role s.session_role (client_state_ready s.client_session_state)
      (server_state_ready s.server_session_state)

abbrev pub is_transport_connected : ClientSession → Bool
is_transport_connected s =
    by_role s.session_role (client_state_connected s.client_session_state)
      (server_state_connected s.server_session_state)

abbrev pub is_established : ClientSession → Bool
is_established s =
    by_role s.session_role (client_state_established s.client_session_state)
      (server_state_established s.server_session_state)

abbrev pub can_send_packet : ClientSession → ℕ → Bool
can_send_packet s packet_id =
    if is_system_packet_id packet_id
    then is_transport_connected s
    else if is_service_packet_id packet_id
    then is_established s
    else false

-- The conditions of `EnqueueSendPacket` before the queue is asked; `packet` is what `packetData` points
-- to, `packet_size` bytes of it.
unfoldable pub check_send_packet : ClientSession → List ℕ → ℕ → Bool
check_send_packet s packet packet_size =
    if packet_size == 0
    then false
    else if ltb packet_size header_size
    then false
    else if not ((header_of packet).packet_size == packet_size)
    then false
    else if ltb s.buffer_config.max_send_packet_size packet_size
    then false
    else can_send_packet s (header_of packet).packet_id

abbrev pub get_last_active_tick : ClientSession → ℕ
get_last_active_tick s =
    if ltb s.last_heartbeat_tick s.last_recv_tick then s.last_recv_tick else s.last_heartbeat_tick

unfoldable pub is_heartbeat_timed_out : ClientSession → ℕ → ℕ → Bool
is_heartbeat_timed_out s now_tick timeout_ms =
    let last_active_tick : ℕ = get_last_active_tick s in
    if timeout_ms == 0
    then false
    else if (last_active_tick == 0) || ltb now_tick last_active_tick
    then false
    else leb timeout_ms (now_tick - last_active_tick)

abbrev pub mark_heartbeat_timeout : ClientSession → ClientSession
mark_heartbeat_timeout s = elim s.session_role [
  | server ↦ record s { server_session_state = ServerSessionState.heartbeat_timeout }
  | _ ↦ s
]

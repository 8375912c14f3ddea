-- ===== src/Server/SystemPacket.antt =====
-- `HandleSystemPacket` of Core/IOCPServer.cpp, with the session's fields that it reads and writes.
pub mod Handshake
use iocpnetwork_engine.Prelude.{
  ℕ, ◌+◌, ◌*◌, Bool, true, false, not, ◌&&◌, List, [], ◌∷◌, ltb, ◌==◌, if◌then◌else◌, get_or,
  length,
}
use iocpnetwork_engine.Buffer.RecvPacketBuffer.{header_size}
use iocpnetwork_engine.Protocol.{
  DisconnectReason, unknown, auth_rejected_server_full, auth_rejected_protocol_mismatch,
  auth_rejected_invalid_state, SystemAuthResult, success, invalid_state, protocol_mismatch,
  server_full, cs_system_auth_request, cs_system_heartbeat_response, iocp_engine_protocol_version,
}

pub data ServerSessionState : Type 0 where
  none_yet connect_ready connected auth_pending established heartbeat_timeout disconnected :
      ServerSessionState

-- `answers` are the authentication responses in the send queue, the newest first.
pub record ServerSession : Type 0 where
  pub transport_connected : Bool
  pub state : ServerSessionState
  pub disconnect_reason : DisconnectReason
  pub last_heartbeat_tick : ℕ
  pub answers : List SystemAuthResult

abbrev pub is_unknown : DisconnectReason → Bool
is_unknown unknown = true
is_unknown _ = false

abbrev pub is_established : ServerSessionState → Bool
is_established established = true
is_established _ = false

abbrev pub may_authenticate : ServerSessionState → Bool
may_authenticate connected = true
may_authenticate auth_pending = true
may_authenticate _ = false

-- The first reason wins.
abbrev pub note_disconnect_reason : ServerSession → DisconnectReason → ServerSession
note_disconnect_reason s reason =
    if is_unknown s.disconnect_reason then record s { disconnect_reason = reason } else s

pub data SystemPacketResult : Type 0 where
  handled rejected refused : SystemPacketResult

-- What surrounds one call: the number of sessions in use and the limit of the service, the clock, and
-- whether the packet pool and the send queue take an answer.
pub record Surroundings : Type 0 where
  pub in_use : ℕ
  pub service_capacity : ℕ
  pub now : ℕ
  pub sendable : Bool

unfoldable pub send_system_auth_response :
    Surroundings → ServerSession → SystemAuthResult → Bool × ServerSession
send_system_auth_response w s result =
    if not s.transport_connected
    then (false, s)
    else if w.sendable
    then (true, record s { answers = result ∷ s.answers })
    else (false, s)

abbrev pub reject :
    Surroundings
    → ServerSession
    → DisconnectReason
    → SystemAuthResult
    → SystemPacketResult × ServerSession
reject w s reason result =
    (rejected, (send_system_auth_response w (note_disconnect_reason s reason) result).1)

-- A field of two bytes, the low one first.
abbrev pub u16_at : List ℕ → ℕ → ℕ
u16_at bytes i = get_or bytes i 0 + 256 * get_or bytes (i + 1) 0

abbrev pub authenticate : Surroundings → ServerSession → List ℕ → SystemPacketResult × ServerSession
authenticate w s packet =
    if not (length packet == header_size + 2)
    then (refused, s)
    else if not (may_authenticate s.state)
    then reject w s auth_rejected_invalid_state invalid_state
    else if not (u16_at packet header_size == iocp_engine_protocol_version)
    then reject w s auth_rejected_protocol_mismatch protocol_mismatch
    else if ltb 0 w.service_capacity && ltb w.service_capacity w.in_use
    then reject w s auth_rejected_server_full server_full
    else (let (sent, t) = send_system_auth_response w (record s { state = auth_pending }) success in
        if sent then (handled, record t { state = established }) else (refused, t))

unfoldable pub handle_system_packet :
    Surroundings → ServerSession → ℕ → List ℕ → SystemPacketResult × ServerSession
handle_system_packet w s packet_id packet =
    if packet_id == cs_system_auth_request
    then authenticate w s packet
    else if packet_id == cs_system_heartbeat_response
    then (if not (length packet == header_size + 8)
        then (refused, s)
        else if not (is_established s.state)
        then (refused, s)
        else (handled, record s { last_heartbeat_tick = w.now }))
    else (refused, s)

-- ===== src/Client/SystemPacket.antt =====
-- `SendSystemAuthRequest` and `HandleSystemPacket` of Core/IOCPClient.cpp, with the structures of
-- Protocol/SystemPacket.h as bytes and `Arm` of Core/ClientWatchdogThread.cpp, which is called there.
pub mod Agreement
use iocpnetwork_engine.Prelude.{
  ℕ, ◌+◌, ◌*◌, ◌/◌, ◌%◌, Bool, true, false, not, ◌&&◌, ◌||◌, Option, none, some, List, [], ◌∷◌,
  ◌++◌, ltb, ◌==◌, if◌then◌else◌, get_or, length,
}
use iocpnetwork_engine.Buffer.RecvPacketBuffer.{header_size}
use iocpnetwork_engine.Buffer.RecvPacketBuffer.Wire.{Packet, u16_bytes, wire}
use iocpnetwork_engine.Protocol.{
  DisconnectReason, unknown, auth_rejected_protocol_mismatch, SystemAuthResult, success, failed,
  invalid_state, protocol_mismatch, server_full, to_disconnect_reason, cs_system_auth_request,
  iocp_engine_protocol_version,
}
use iocpnetwork_engine.Server.SystemPacket.{is_unknown, u16_at}
use iocpnetwork_engine.Session.ClientSession.{
  ClientSessionState, client_state_connected, client_state_established,
}

abbrev pub sc_system_auth_response : ℕ
sc_system_auth_response = 2

abbrev pub sc_system_heartbeat_request : ℕ
sc_system_heartbeat_request = 4

abbrev pub u32_bytes : ℕ → List ℕ
u32_bytes n = u16_bytes (n % 65536) ++ u16_bytes (n / 65536)

abbrev pub u32_at : List ℕ → ℕ → ℕ
u32_at bytes i = u16_at bytes i + 65536 * u16_at bytes (i + 2)

abbrev pub u64_at : List ℕ → ℕ → ℕ
u64_at bytes i = u32_at bytes i + 4294967296 * u32_at bytes (i + 4)

abbrev pub code_of : SystemAuthResult → ℕ
code_of success = 0
code_of failed = 1
code_of invalid_state = 2
code_of protocol_mismatch = 3
code_of server_full = 4

-- A code that the enumeration does not have is treated like FAILED everywhere.
abbrev pub result_of : ℕ → SystemAuthResult
result_of code =
    if code == 0
    then success
    else if code == 2
    then invalid_state
    else if code == 3
    then protocol_mismatch
    else if code == 4
    then server_full
    else failed

-- CS_SYSTEM_AUTH_REQUEST_PACKET
abbrev pub auth_request : Packet
auth_request = record { id = cs_system_auth_request; body = u16_bytes iocp_engine_protocol_version }

-- SC_SYSTEM_AUTH_RESPONSE_PACKET
abbrev pub auth_response : SystemAuthResult → ℕ → Packet
auth_response result heartbeat_interval_ms = record {
  id = sc_system_auth_response;
  body =
      u16_bytes (code_of result)
      ++ (u16_bytes iocp_engine_protocol_version ++ u32_bytes heartbeat_interval_ms);
}

-- Core/ClientLivenessConfig.h
pub record ClientLivenessConfig : Type 0 where
  pub missed_heartbeat_limit : ℕ
  pub min_idle_timeout_ms : ℕ
  pub use_keep_alive : Bool
  pub keep_alive_time_ms : ℕ
  pub keep_alive_interval_ms : ℕ

unfoldable pub is_valid : ClientLivenessConfig → Bool
is_valid c =
    if c.missed_heartbeat_limit == 1
    then false
    else if not (c.missed_heartbeat_limit == 0) && (c.min_idle_timeout_ms == 0)
    then false
    else if c.use_keep_alive && ((c.keep_alive_time_ms == 0) || (c.keep_alive_interval_ms == 0))
    then false
    else true

unfoldable pub resolve_idle_timeout : ClientLivenessConfig → ℕ → ℕ
resolve_idle_timeout c server_heartbeat_interval_ms =
    let derived : ℕ = server_heartbeat_interval_ms * c.missed_heartbeat_limit in
    if c.missed_heartbeat_limit == 0
    then 0
    else if ltb c.min_idle_timeout_ms derived
    then derived
    else c.min_idle_timeout_ms

-- `idle_timeout_ms` is the field of the watchdog, where there is one; the ticks of the heartbeat answers
-- in the send queue are the newest first.
pub record ClientPeer : Type 0 where
  pub state : ClientSessionState
  pub disconnect_reason : DisconnectReason
  pub liveness_config : ClientLivenessConfig
  pub idle_timeout_ms : Option ℕ
  pub established_calls : ℕ
  pub heartbeat_answers : List ℕ
  pub auth_requests : ℕ

abbrev pub note_disconnect_reason : ClientPeer → DisconnectReason → ClientPeer
note_disconnect_reason c reason =
    if is_unknown c.disconnect_reason then record c { disconnect_reason = reason } else c

abbrev pub arm : ClientPeer → ℕ → ClientPeer
arm c interval = elim c.idle_timeout_ms [
  | none ↦ c
  | some old ↦ record c { idle_timeout_ms = some (resolve_idle_timeout c.liveness_config interval) }
]

-- `memory` and `queued`: whether the packet pool and the send queue have room.
unfoldable pub send_system_auth_request : Bool → Bool → ClientPeer → Bool × ClientPeer
send_system_auth_request memory queued c =
    if not (client_state_connected c.state)
    then (false, c)
    else if not memory
    then (false, c)
    else if queued
    then (
      true,
      record c { state = ClientSessionState.auth_pending; auth_requests = c.auth_requests + 1 },
    )
    else (false, record c { state = ClientSessionState.connected })

unfoldable pub read_auth_response : ClientPeer → List ℕ → Bool × ClientPeer
read_auth_response c packet =
    if not (length packet == header_size + 8)
    then (false, c)
    else if not (u16_at packet (header_size + 2) == iocp_engine_protocol_version)
    then (false, note_disconnect_reason c auth_rejected_protocol_mismatch)
    else if not (u16_at packet header_size == 0)
    then (
      false,
      note_disconnect_reason c (to_disconnect_reason (result_of (u16_at packet header_size))),
    )
    else (
      true,
      arm
          (record c {
            state = ClientSessionState.established;
            established_calls = c.established_calls + 1;
          })
          (u32_at packet (header_size + 4)),
    )

-- `queued`: whether the answer to a heartbeat finds room. It is no failure if it does not.
unfoldable pub handle_system_packet : Bool → ClientPeer → ℕ → List ℕ → Bool × ClientPeer
unfolding read_auth_response
handle_system_packet queued c packet_id packet =
    if packet_id == sc_system_auth_response
    then read_auth_response c packet
    else if packet_id == sc_system_heartbeat_request
    then (if not (length packet == header_size + 8)
        then (false, c)
        else if not (client_state_established c.state)
        then (false, c)
        else if queued
        then (
          true,
          record c { heartbeat_answers = u64_at packet header_size ∷ c.heartbeat_answers },
        )
        else (true, c))
    else (false, c)

-- ===== src/Protocol.antt =====
-- Protocol/PacketID.h and Protocol/SystemPacket.h: the ranges of packet ids, the answers to an
-- authentication request; and Session/DisconnectReason.h, why a session ended.
use iocpnetwork_engine.Prelude.{ℕ, Bool, ◌&&◌, ltb, leb}

abbrev pub is_valid_packet_id : ℕ → Bool
is_valid_packet_id id = ltb 0 id && ltb id 10000

abbrev pub is_system_packet_id : ℕ → Bool
is_system_packet_id id = leb 1 id && leb id 999

abbrev pub is_service_packet_id : ℕ → Bool
is_service_packet_id id = leb 1000 id && ltb id 10000

abbrev pub cs_system_auth_request : ℕ
cs_system_auth_request = 1

abbrev pub cs_system_heartbeat_response : ℕ
cs_system_heartbeat_response = 3

abbrev pub iocp_engine_protocol_version : ℕ
iocp_engine_protocol_version = 2

pub data SystemAuthResult : Type 0 where
  success failed invalid_state protocol_mismatch server_full : SystemAuthResult

pub data DisconnectReason : Type 0 where
  unknown local_shutdown local_request peer_closed socket_error connect_failed : DisconnectReason
  protocol_error unexpected_packet idle_timeout heartbeat_timeout stalled_peer : DisconnectReason
  auth_rejected_server_full auth_rejected_protocol_mismatch auth_rejected_invalid_state :
      DisconnectReason
  auth_rejected_other resource_exhausted : DisconnectReason

abbrev pub to_disconnect_reason : SystemAuthResult → DisconnectReason
to_disconnect_reason server_full = auth_rejected_server_full
to_disconnect_reason protocol_mismatch = auth_rejected_protocol_mismatch
to_disconnect_reason invalid_state = auth_rejected_invalid_state
to_disconnect_reason success = auth_rejected_other
to_disconnect_reason failed = auth_rejected_other

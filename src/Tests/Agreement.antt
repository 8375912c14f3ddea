-- ===== src/Tests/Agreement.antt =====
-- A server with room and one without, and a client that asks both.
use iocpnetwork_engine.Prelude.{◌≡◌, refl, true, some, [], ◌∷◌, arith}
use iocpnetwork_engine.Protocol.{unknown, SystemAuthResult, cs_system_auth_request}
use iocpnetwork_engine.Buffer.RecvPacketBuffer.Wire.{wire}
use iocpnetwork_engine.Server.SystemPacket as Server
use iocpnetwork_engine.Server.SystemPacket.{ServerSession, ServerSessionState, Surroundings}
use iocpnetwork_engine.Session.ClientSession.{ClientSessionState}
use iocpnetwork_engine.Client.SystemPacket.{
  ClientPeer, auth_request, auth_response, sc_system_auth_response, handle_system_packet,
}
use iocpnetwork_engine.Client.SystemPacket.Agreement.{Agreed, handshake_agrees}

abbrev full : Surroundings
full = record { in_use = 11; service_capacity = 10; now = 5000; sendable = true }

abbrev served : ServerSession
served = record {
  transport_connected = true;
  state = ServerSessionState.connected;
  disconnect_reason = unknown;
  last_heartbeat_tick = 0;
  answers = [];
}

abbrev asking : ClientPeer
asking = record {
  state = ClientSessionState.auth_pending;
  disconnect_reason = unknown;
  liveness_config = record {
    missed_heartbeat_limit = 3;
    min_idle_timeout_ms = 15000;
    use_keep_alive = true;
    keep_alive_time_ms = 10000;
    keep_alive_interval_ms = 1000;
  };
  idle_timeout_ms = some 0;
  established_calls = 0;
  heartbeat_answers = [];
  auth_requests = 1;
}

handshake_example :
    let t =
      (Server.handle_system_packet full served cs_system_auth_request (wire auth_request)).1 in
    (answer : SystemAuthResult) × (t.answers ≡ answer ∷ [])
    × Agreed 5000 asking t (
        handle_system_packet true asking sc_system_auth_response (wire (auth_response answer 5000)))
handshake_example =
    handshake_agrees full served asking 5000 0 true refl refl refl refl refl refl refl refl
      (omega arith)

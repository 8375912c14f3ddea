-- ===== src/Client/SystemPacket/Agreement.antt =====
-- The handshake of Core/IOCPServer.cpp and Core/IOCPClient.cpp as a whole: what both sides make of it.
use iocpnetwork_engine.Prelude.{
  ℕ, ◌^◌, ◌<◌, ◌≡◌, refl, sym, ◌∙◌, Bool, true, false, not, ◌&&◌, some, [], ◌∷◌, ltb, ◌==◌,
  if_split, arith,
}
use iocpnetwork_engine.Buffer.RecvPacketBuffer.Wire.{wire}
use iocpnetwork_engine.Protocol.{
  unknown, SystemAuthResult, success, failed, invalid_state, protocol_mismatch, server_full,
  to_disconnect_reason, cs_system_auth_request,
}
use iocpnetwork_engine.Server.SystemPacket as Server
use iocpnetwork_engine.Server.SystemPacket.{
  ServerSession, Surroundings, SystemPacketResult, is_established, may_authenticate, is_unknown,
}
use iocpnetwork_engine.Session.ClientSession.{client_state_established}
use iocpnetwork_engine.Client.SystemPacket.{
  ClientPeer, auth_request, auth_response, sc_system_auth_response, u32_at, u32_bytes, code_of,
  resolve_idle_timeout, handle_system_packet, read_auth_response,
}

u32_round : (n : ℕ) → n < 2 ^ 32 → u32_at (u32_bytes n) 0 ≡ n
u32_round n h = omega arith

-- What a client that is waiting makes of the answer.
record Reads (c : ClientPeer) (answer : SystemAuthResult) (interval : ℕ) (r : Bool × ClientPeer)
    : Type 0 where
  accepted : r.0 ≡ (code_of answer == 0)
  established : client_state_established r.1.state ≡ (code_of answer == 0)
  reason : r.0 ≡ false → r.1.disconnect_reason ≡ to_disconnect_reason answer
  armed : r.0 ≡ true → r.1.idle_timeout_ms ≡ some (resolve_idle_timeout c.liveness_config interval)

client-Reads :
    (c : ClientPeer) (answer : SystemAuthResult) (interval t : ℕ)
    → client_state_established c.state ≡ false
    → c.disconnect_reason ≡ unknown
    → c.idle_timeout_ms ≡ some t
    → interval < 2 ^ 32
    → Reads c answer interval (read_auth_response c (wire (auth_response answer interval)))
unfolding read_auth_response wire
client-Reads c success interval t before calm watched small =
    ground (arith, u32_round interval small, before, calm, watched)
client-Reads c failed interval t before calm watched small = ground (arith, before, calm, watched)
client-Reads c invalid_state interval t before calm watched small =
    ground (arith, before, calm, watched)
client-Reads c protocol_mismatch interval t before calm watched small =
    ground (arith, before, calm, watched)
client-Reads c server_full interval t before calm watched small =
    ground (arith, before, calm, watched)

-- What a server that can send makes of the request.
record Answers (answer : SystemAuthResult) (t : ServerSession) : Type 0 where
  sent : t.answers ≡ answer ∷ []
  established : is_established t.state ≡ (code_of answer == 0)
  reason : (code_of answer == 0) ≡ false → t.disconnect_reason ≡ to_disconnect_reason answer

server_answers :
    (w : Surroundings) (s : ServerSession)
    → s.transport_connected ≡ true
    → w.sendable ≡ true
    → is_established s.state ≡ false
    → s.disconnect_reason ≡ unknown
    → s.answers ≡ []
    → (answer : SystemAuthResult) × Answers answer
        (Server.handle_system_packet w s cs_system_auth_request (wire auth_request)).1
unfolding Server.handle_system_packet Server.send_system_auth_response wire
server_answers w s up room before calm silent =
    if_split Told (not (may_authenticate s.state))
      (λ late. (invalid_state, denied invalid_state refl))
      (λ timely.
        if_split Told (ltb 0 w.service_capacity && ltb w.service_capacity w.in_use)
          (λ full. (server_full, denied server_full refl))
          (λ fits. (
            success,
            record {
              sent = ground (arith, up, room, silent);
              established = ground (arith, up, room);
              reason = λ off. absurd (ground (arith, off));
            },
          )))
  where
    Told : SystemPacketResult × ServerSession → Type 0
    Told r = (answer : SystemAuthResult) × Answers answer r.1

    denied :
        (result : SystemAuthResult)
        → (code_of result == 0) ≡ false
        → Answers result (Server.reject w s (to_disconnect_reason result) result).1
    denied result off = record {
      sent = ground (arith, up, room, silent);
      established = ground (arith, before, off, up, room);
      reason = λ e. ground (arith, calm, up, room);
    }

-- What both sides hold of the connection after the request and its answer.
pub record Agreed (interval : ℕ) (c : ClientPeer) (t : ServerSession) (r : Bool × ClientPeer)
    : Type 0 where
  pub accepted : r.0 ≡ is_established t.state
  pub established : client_state_established r.1.state ≡ is_established t.state
  pub reason : is_established t.state ≡ false → r.1.disconnect_reason ≡ t.disconnect_reason
  pub armed :
      is_established t.state ≡ true
      → r.1.idle_timeout_ms ≡ some (resolve_idle_timeout c.liveness_config interval)

-- A server that can send, and whose session is not established and has nothing noted and nothing
-- sent, puts one answer to the client's request in its send queue. A client with a watchdog, not
-- established and with nothing noted, that gets the bytes of this answer, with any heartbeat interval
-- of 32 bits, agrees with the server: both sessions are established, and the watchdog is armed for
-- that interval, or neither is, and both note the same reason.
pub handshake_agrees :
    (w : Surroundings) (s : ServerSession) (c : ClientPeer) (interval t : ℕ) (queued : Bool)
    → s.transport_connected ≡ true
    → w.sendable ≡ true
    → is_established s.state ≡ false
    → s.disconnect_reason ≡ unknown
    → s.answers ≡ []
    → client_state_established c.state ≡ false
    → c.disconnect_reason ≡ unknown
    → c.idle_timeout_ms ≡ some t
    → interval < 2 ^ 32
    → let served = (Server.handle_system_packet w s cs_system_auth_request (wire auth_request)).1 in
      (answer : SystemAuthResult) × (served.answers ≡ answer ∷ [])
      × Agreed interval c served (
          handle_system_packet queued c sc_system_auth_response
            (wire (auth_response answer interval)))
unfolding handle_system_packet
handshake_agrees w s c interval t queued up room before calm silent waiting quiet watched small =
    let (answer, a) = server_answers w s up room before calm silent in
    let r = client-Reads c answer interval t waiting quiet watched small in
    (
      answer,
      a.sent,
      record {
        accepted = r.accepted ∙ sym a.established;
        established = r.established ∙ sym a.established;
        reason = λ off.
            r.reason (r.accepted ∙ sym a.established ∙ off)
            ∙ sym (a.reason (sym a.established ∙ off));
        armed = λ yes. r.armed (r.accepted ∙ sym a.established ∙ yes);
      },
    )

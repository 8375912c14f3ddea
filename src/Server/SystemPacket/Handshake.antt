-- ===== src/Server/SystemPacket/Handshake.antt =====
-- Who gets past the handshake of Core/IOCPServer.cpp, and what a rejected peer is told.
use iocpnetwork_engine.Prelude.{
  ℕ, ◌≤◌, ◌<◌, ◌≡◌, true, false, not, ◌&&◌, List, ◌∷◌, ltb, ◌==◌, if◌then◌else◌, if_split, length,
  arith, ◌⊎◌,
}
use iocpnetwork_engine.Protocol.{
  DisconnectReason, SystemAuthResult, success, to_disconnect_reason, server_full, protocol_mismatch,
  invalid_state, cs_system_auth_request, auth_rejected_invalid_state,
  auth_rejected_protocol_mismatch, auth_rejected_server_full,
}
use iocpnetwork_engine.Server.SystemPacket.{
  ServerSession, Surroundings, SystemPacketResult, handled, rejected, refused, handle_system_packet,
  send_system_auth_response, u16_at, is_established, is_unknown, may_authenticate, auth_pending,
  reject,
}

-- A session that was not established and is so after a packet has sent a request of the right size and
-- version, while no more sessions were in use than its limit, if it has one, and has the answer success in its send queue.
pub established_only_by_auth :
    (w : Surroundings) (s : ServerSession) (packet_id : ℕ) (packet : List ℕ)
    → is_established s.state ≡ false
    → is_established (handle_system_packet w s packet_id packet).1.state ≡ true
    → (packet_id ≡ cs_system_auth_request)
      × (length packet ≡ 6)
      × (u16_at packet 4 ≡ 2)
      × ((w.service_capacity ≡ 0) ⊎ (w.in_use ≤ w.service_capacity))
      × ((handle_system_packet w s packet_id packet).1.answers ≡ success ∷ s.answers)
unfolding handle_system_packet send_system_auth_response
established_only_by_auth w s packet_id packet before =
    if_split Admitted (packet_id == 1)
      (λ asked.
        if_split Admitted (not (length packet == 6)) (λ e after. absurd (cc (before, after)))
          (λ sized.
            if_split Admitted (not (may_authenticate s.state))
              (λ e. denied auth_rejected_invalid_state invalid_state)
              (λ timely.
                if_split Admitted (not (u16_at packet 4 == 2))
                  (λ e. denied auth_rejected_protocol_mismatch protocol_mismatch)
                  (λ current.
                    if_split Admitted (ltb 0 w.service_capacity && ltb w.service_capacity w.in_use)
                      (λ e. denied auth_rejected_server_full server_full)
                      (λ room.
                        if_split Admitted
                          (send_system_auth_response w (record s { state = auth_pending })
                            success).0
                          (λ sent after. (
                            ground (arith, asked),
                            ground (arith, sized),
                            ground (arith, current),
                            ground (arith, room),
                            ground (arith, sent),
                          ))
                          (λ unsent after. absurd (ground (arith, unsent, after))))))))
      (λ other.
        if_split Admitted (packet_id == 3)
          (λ beat.
            if_split Admitted (not (length packet == 12)) (λ e after. absurd (cc (before, after)))
              (λ e.
                if_split Admitted (not (is_established s.state))
                  (λ f after. absurd (cc (before, after)))
                  (λ f after. absurd (cc (before, after)))))
          (λ e after. absurd (cc (before, after))))
  where
    Admitted : SystemPacketResult × ServerSession → Type 0
    Admitted r =
        is_established r.1.state ≡ true
        → (packet_id ≡ 1)
          × (length packet ≡ 6)
          × (u16_at packet 4 ≡ 2)
          × ((w.service_capacity ≡ 0) ⊎ (w.in_use ≤ w.service_capacity))
          × (r.1.answers ≡ success ∷ s.answers)

    denied :
        (reason : DisconnectReason) (result : SystemAuthResult)
        → Admitted (reject w s reason result)
    denied reason result after = absurd (ground (arith, before, after))

-- Which answer a request gets, by what is wrong with it: the state of the session first, then the
-- version, then the number of sessions.
pub data Cause (w : Surroundings) (s : ServerSession) (packet : List ℕ)
    : SystemAuthResult → Type 0 where
  untimely : may_authenticate s.state ≡ false → Cause w s packet invalid_state
  other_version :
      may_authenticate s.state ≡ true
      → (u16_at packet 4 == 2) ≡ false
      → Cause w s packet protocol_mismatch
  crowded :
      may_authenticate s.state ≡ true
      → u16_at packet 4 ≡ 2
      → 0 < w.service_capacity
      → w.service_capacity < w.in_use
      → Cause w s packet server_full

-- What a rejection owes.
pub record Rejected (w : Surroundings) (s : ServerSession) (packet_id : ℕ) (packet : List ℕ)
    (t : ServerSession) : Type 0 where
  pub answer : SystemAuthResult
  pub asked : (packet_id ≡ cs_system_auth_request) × (length packet ≡ 6)
  pub cause : Cause w s packet answer
  pub state_same : t.state ≡ s.state
  pub reason : t.disconnect_reason ≡ (
      if is_unknown s.disconnect_reason then to_disconnect_reason answer else s.disconnect_reason)
  pub answered :
      t.answers ≡ (if s.transport_connected && w.sendable then answer ∷ s.answers else s.answers)

-- A packet that is rejected is an authentication request of the right size. The answer says which it
-- was: INVALID_STATE for a session that may not authenticate, else PROTOCOL_MISMATCH for another version,
-- else SERVER_FULL with more sessions in use than the limit of the service. It is in the send queue
-- where the session is connected and the packet pool and the queue have room; the reason noted is the one
-- that the peer reads out of the answer, where no reason was noted before; the state stays.
pub rejected_lem :
    (w : Surroundings) (s : ServerSession) (packet_id : ℕ) (packet : List ℕ)
    → (handle_system_packet w s packet_id packet).0 ≡ rejected
    → Rejected w s packet_id packet (handle_system_packet w s packet_id packet).1
unfolding handle_system_packet send_system_auth_response
rejected_lem w s packet_id packet =
    if_split Told (packet_id == 1)
      (λ asked.
        if_split Told (not (length packet == 6)) (λ e. refused_told s)
          (λ sized.
            if_split Told (not (may_authenticate s.state))
              (λ e. denied invalid_state asked sized (untimely (ground (arith, e))))
              (λ timely.
                if_split Told (not (u16_at packet 4 == 2))
                  (λ e.
                    denied protocol_mismatch asked sized
                      (other_version (ground (arith, timely)) (ground (arith, e))))
                  (λ current.
                    if_split Told (ltb 0 w.service_capacity && ltb w.service_capacity w.in_use)
                      (λ e. denied server_full asked sized (
                        crowded (ground (arith, timely)) (ground (arith, current))
                          (ground (arith, e)) (ground (arith, e))))
                      (λ room.
                        if_split Told
                          (send_system_auth_response w (record s { state = auth_pending })
                            success).0
                          (λ sent. handled_told _) (λ unsent. refused_told _))))))
      (λ other.
        if_split Told (packet_id == 3)
          (λ beat.
            if_split Told (not (length packet == 12)) (λ e. refused_told s)
              (λ e.
                if_split Told (not (is_established s.state)) (λ f. refused_told s)
                  (λ f. handled_told _)))
          (λ e. refused_told s))
  where
    Told : SystemPacketResult × ServerSession → Type 0
    Told r = r.0 ≡ rejected → Rejected w s packet_id packet r.1

    refused_told : (t : ServerSession) → Told (refused, t)
    refused_told t h = absurd (ground (arith, h))

    handled_told : (t : ServerSession) → Told (handled, t)
    handled_told t h = absurd (ground (arith, h))

    denied :
        (result : SystemAuthResult)
        → (packet_id == 1) ≡ true
        → not (length packet == 6) ≡ false
        → Cause w s packet result
        → Told (reject w s (to_disconnect_reason result) result)
    denied result request sized why h = record {
      answer = result;
      asked = (ground (arith, request), ground (arith, sized));
      cause = why;
      state_same = ground arith;
      reason = ground arith;
      answered = ground arith;
    }

-- No packet takes an established session out of that state.
pub established_stays :
    (w : Surroundings) (s : ServerSession) (packet_id : ℕ) (packet : List ℕ)
    → is_established s.state ≡ true
    → is_established (handle_system_packet w s packet_id packet).1.state ≡ true
unfolding handle_system_packet send_system_auth_response
established_stays w s packet_id packet before =
    if_split Kept (packet_id == 1)
      (λ asked.
        if_split Kept (not (length packet == 6)) (λ e. before)
          (λ sized.
            if_split Kept (not (may_authenticate s.state)) (λ e. kept invalid_state)
              (λ timely. absurd (ground (arith, before, timely)))))
      (λ other.
        if_split Kept (packet_id == 3)
          (λ beat.
            if_split Kept (not (length packet == 12)) (λ e. before)
              (λ e. if_split Kept (not (is_established s.state)) (λ f. before) (λ f. before)))
          (λ e. before))
  where
    Kept : SystemPacketResult × ServerSession → Type 0
    Kept r = is_established r.1.state ≡ true

    kept : (result : SystemAuthResult) → Kept (reject w s (to_disconnect_reason result) result)
    kept result = ground (arith, before)

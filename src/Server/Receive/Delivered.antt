-- ===== src/Server/Receive/Delivered.antt =====
-- Which packets the receive loop of Core/IOCPServer.cpp lets through to the service.
use iocpnetwork_engine.Prelude.{
  ℕ, zero, suc, ◌≡◌, Bool, true, not, List, [], ◌∷◌, arith, if_split, if_either, inl, inr, ◌⊎◌,
}
use iocpnetwork_engine.Protocol.{
  is_service_packet_id, is_valid_packet_id, is_system_packet_id, DisconnectReason, protocol_error,
  unexpected_packet, resource_exhausted,
}
use iocpnetwork_engine.Buffer.RecvPacketBuffer.{
  RecvPacketBuffer, PacketReadResult, ok, need_more_data, invalid, out_of_memory, ReadOutcome,
  read_packet, is_empty,
}
use iocpnetwork_engine.Server.SystemPacket.{
  Surroundings, ServerSession, SystemPacketResult, handled, rejected, refused, handle_system_packet,
  is_established,
}
use iocpnetwork_engine.Server.SystemPacket.Handshake.{established_stays}
use iocpnetwork_engine.Server.Receive.{
  RecvState, Delivery, Rounds, act, dispatch, after_system_packet, drop_session, read_loop,
}

abbrev pub AllService : List Delivery → Type 0
AllService [] = Unit {0}
AllService (d ∷ ds) = (is_service_packet_id d.packet_id ≡ true) × AllService ds

-- Only service packets have been delivered, and none while the session was not established.
pub record IsClean (st : RecvState) : Type 0 where
  pub services : AllService st.delivered
  pub gated : (st.delivered ≡ []) ⊎ (is_established st.session.state ≡ true)

after_system_packet-IsClean :
    (st : RecvState) (r : SystemPacketResult × ServerSession)
    → IsClean st
    → (is_established st.session.state ≡ true → is_established r.1.state ≡ true)
    → IsClean (after_system_packet st r).1
after_system_packet-IsClean st (rejected, s) c stays = record {
  services = c.services;
  gated = still c.gated;
}
  where
    still :
        (st.delivered ≡ []) ⊎ (is_established st.session.state ≡ true)
        → (st.delivered ≡ []) ⊎ (is_established s.state ≡ true)
    still (inl e) = inl e
    still (inr e) = inr (stays e)
after_system_packet-IsClean st (refused, s) c stays = record {
  services = c.services;
  gated = still c.gated;
}
  where
    still :
        (st.delivered ≡ []) ⊎ (is_established st.session.state ≡ true)
        → (st.delivered ≡ [])
          ⊎ (is_established (drop_session (record st { session = s }) protocol_error).session.state
              ≡ true)
    still (inl e) = inl e
    still (inr e) = inr (ground (arith, stays e))
after_system_packet-IsClean st (handled, s) c stays = record {
  services = c.services;
  gated = still c.gated;
}
  where
    still :
        (st.delivered ≡ []) ⊎ (is_established st.session.state ≡ true)
        → (st.delivered ≡ []) ⊎ (is_established s.state ≡ true)
    still (inl e) = inl e
    still (inr e) = inr (stays e)

drop_session-IsClean :
    (st : RecvState) (reason : DisconnectReason) → IsClean st → IsClean (drop_session st reason)
drop_session-IsClean st reason c = record { services = c.services; gated = ground (arith, c.gated) }

dispatch-IsClean :
    (w : Surroundings) (st : RecvState) (packet_id : ℕ) (packet : List ℕ)
    → IsClean st
    → IsClean (dispatch w st packet_id packet).1
unfolding dispatch
dispatch-IsClean w st packet_id packet c =
    if_split Clean (not (is_valid_packet_id packet_id))
      (λ e. drop_session-IsClean st protocol_error c)
      (λ valid.
        if_split Clean (is_system_packet_id packet_id)
          (λ system.
            after_system_packet-IsClean st (handle_system_packet w st.session packet_id packet) c
              (established_stays w st.session packet_id packet))
          (λ service.
            if_split Clean (not (is_established st.session.state))
              (λ e. drop_session-IsClean st unexpected_packet c)
              (λ up. record {
                services = (ground (arith, valid, service), c.services);
                gated = inr (ground (arith, up));
              })))
  where
    Clean : Bool × RecvState → Type 0
    Clean r = IsClean r.1

act-IsClean :
    (w : Surroundings) (st : RecvState) (x : PacketReadResult) (packet_id : ℕ) (packet : List ℕ)
    → IsClean st
    → IsClean (act w st x packet_id packet).1
act-IsClean w st ok packet_id packet c = dispatch-IsClean w st packet_id packet c
act-IsClean w st need_more_data packet_id packet c = c
act-IsClean w st invalid packet_id packet c = drop_session-IsClean st protocol_error c
act-IsClean w st out_of_memory packet_id packet c = drop_session-IsClean st resource_exhausted c

-- From a state that is clean, the loop hands the service nothing but packets with a service id,
-- and hands it nothing unless the session is established, whatever bytes the peer has sent.
pub read_loop-IsClean :
    (fuel : ℕ) (rounds : Rounds) (n : ℕ) (b : RecvPacketBuffer) (st : RecvState)
    → IsClean st
    → IsClean (read_loop fuel rounds n b st).1
read_loop-IsClean zero rounds n b st c = c
read_loop-IsClean (suc fuel) rounds n b st c =
    let r : ReadOutcome = read_packet b (rounds.granted n) in
    let next : Bool × RecvState = act (rounds.around n) st r.result r.packet_id r.packet in
    let after : IsClean next.1 = act-IsClean (rounds.around n) st r.result r.packet_id r.packet c in
    if_either Clean (is_empty b) c
      (if_either Clean next.0 (read_loop-IsClean fuel rounds (suc n) r.after next.1 after) after)
  where
    Clean : RecvPacketBuffer × RecvState → Type 0
    Clean r = IsClean r.1

-- ===== src/Server/Receive.antt =====
-- `HandleRecv` of Core/IOCPServer.cpp: the packets cut from the ring of a session after a receive, up to
-- the decision to release the session. What `OnReceive` gets is written to `delivered`.
pub mod Stream
pub mod Delivered
pub mod Handler
use iocpnetwork_engine.Prelude.{
  ℕ, zero, suc, ◌+◌, Bool, true, false, not, ◌||◌, List, [], ◌∷◌, ◌==◌, if◌then◌else◌,
}
use iocpnetwork_engine.Protocol.{
  is_valid_packet_id, is_system_packet_id, DisconnectReason, protocol_error, resource_exhausted,
  unexpected_packet, peer_closed,
}
use iocpnetwork_engine.Server.SystemPacket.{
  ServerSession, Surroundings, SystemPacketResult, handled, rejected, refused, handle_system_packet,
  is_established, note_disconnect_reason,
}
use iocpnetwork_engine.Buffer.RecvPacketBuffer.{
  RecvPacketBuffer, PacketReadResult, ok, need_more_data, invalid, out_of_memory, ReadOutcome,
  read_packet, commit_write, is_empty,
}

pub record Delivery : Type 0 where
  pub packet_id : ℕ
  pub packet : List ℕ

-- `release` is `releaseSessionAfterHandling`; the deliveries are the newest first.
pub record RecvState : Type 0 where
  pub session : ServerSession
  pub release : Bool
  pub delivered : List Delivery

-- For each round of the loop, whether the packet pool has memory, and what the call of
-- `HandleSystemPacket` finds around it.
pub record Rounds : Type 0 where
  pub granted : ℕ → Bool
  pub around : ℕ → Surroundings

abbrev pub drop_session : RecvState → DisconnectReason → RecvState
drop_session st reason = record st {
  session = note_disconnect_reason st.session reason;
  release = true;
}

abbrev pub after_system_packet : RecvState → SystemPacketResult × ServerSession → Bool × RecvState
after_system_packet st (rejected, s) = (false, record st { session = s; release = true })
after_system_packet st (refused, s) =
    (false, drop_session (record st { session = s }) protocol_error)
after_system_packet st (handled, s) = (true, record st { session = s })

-- A packet that was read: whether the loop goes on, and the state after.
pub dispatch : Surroundings → RecvState → ℕ → List ℕ → Bool × RecvState
dispatch w st packet_id packet =
    if not (is_valid_packet_id packet_id)
    then (false, drop_session st protocol_error)
    else if is_system_packet_id packet_id
    then after_system_packet st (handle_system_packet w st.session packet_id packet)
    else if not (is_established st.session.state)
    then (false, drop_session st unexpected_packet)
    else (
      true,
      record st { delivered = record { packet_id = packet_id; packet = packet } ∷ st.delivered },
    )

-- The branches on the result of one `ReadPacket`.
abbrev pub act : Surroundings → RecvState → PacketReadResult → ℕ → List ℕ → Bool × RecvState
act w st need_more_data packet_id packet = (false, st)
act w st invalid packet_id packet = (false, drop_session st protocol_error)
act w st out_of_memory packet_id packet = (false, drop_session st resource_exhausted)
act w st ok packet_id packet = dispatch w st packet_id packet

-- The loop, at most `fuel` rounds of it, from round `n` on.
abbrev pub read_loop : ℕ → Rounds → ℕ → RecvPacketBuffer → RecvState → RecvPacketBuffer × RecvState
read_loop zero rounds n b st = (b, st)
read_loop (suc fuel) rounds n b st =
    let r : ReadOutcome = read_packet b (rounds.granted n) in
    let (go_on, next) = act (rounds.around n) st r.result r.packet_id r.packet in
    let rest : RecvPacketBuffer × RecvState = read_loop fuel rounds (suc n) r.after next in
    if is_empty b then (b, st) else if go_on then rest else (r.after, next)

-- One round for each byte is enough. `posted` is the answer of `PostReceiveOrPause`, `release_pending`
-- that of `IsReleasePending`. A receive of no bytes is the end of the connection
-- (`HandleSessionDisconnected`); one that overflows the ring ends the call at once.
pub handle_recv :
    Rounds → RecvPacketBuffer → ServerSession → ℕ → Bool → Bool → RecvPacketBuffer × RecvState
handle_recv rounds b session bytes_transferred release_pending posted =
    let (committed, filled) = commit_write b bytes_transferred in
    let fresh : RecvState = record { session = session; release = false; delivered = [] } in
    if bytes_transferred == 0
    then (b, drop_session fresh peer_closed)
    else if not committed
    then (b, fresh)
    else (let (after, st) = read_loop filled.stored_size rounds 0 filled fresh in
        if st.release || release_pending
        then (after, st)
        else if posted
        then (after, st)
        else (after, drop_session st resource_exhausted))

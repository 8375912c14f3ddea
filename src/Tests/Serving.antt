-- ===== src/Tests/Serving.antt =====
-- A session of the server that has sent an authentication request of version 2, and five bytes of a
-- service packet.
use iocpnetwork_engine.Prelude.{ℕ, ◌≤◌, ◌≡◌, refl, true, false, List, [], ◌∷◌, length, inl, ◌⊎◌}
use iocpnetwork_engine.Tests.Recv.{ring, ring-IsValid}
use iocpnetwork_engine.Buffer.RecvPacketBuffer.Refine.{contents}
use iocpnetwork_engine.Protocol.{unknown, success, cs_system_auth_request}
use iocpnetwork_engine.Server.SystemPacket.{
  ServerSession, Surroundings, connected, established, is_established, handle_system_packet,
  send_system_auth_response, rejected, u16_at,
}
use iocpnetwork_engine.Server.SystemPacket.Handshake.{
  established_only_by_auth, Rejected, rejected_lem,
}
use iocpnetwork_engine.Server.Receive.{RecvState, Rounds, read_loop, handle_recv}
use iocpnetwork_engine.Server.Receive.Stream.{Same, serve, read_loop_refines}
use iocpnetwork_engine.Server.Receive.Handler.{Finished, handle_recv_ends}
use iocpnetwork_engine.Server.Receive.Delivered.{IsClean, read_loop-IsClean}

abbrev around : Surroundings
around = record { in_use = 3; service_capacity = 10; now = 50; sendable = true }

abbrev peer : ServerSession
peer = record {
  transport_connected = true;
  state = connected;
  disconnect_reason = unknown;
  last_heartbeat_tick = 0;
  answers = [];
}

-- The header, then the version.
abbrev auth_request : ℕ → List ℕ
auth_request version = 1 ∷ (0 ∷ (6 ∷ (0 ∷ (version ∷ (0 ∷ [])))))

let_in : is_established (handle_system_packet around peer 1 (auth_request 2)).1.state ≡ true
unfolding handle_system_packet send_system_auth_response
let_in = refl

established_only_by_auth_example :
    (cs_system_auth_request ≡ cs_system_auth_request)
    × (length (auth_request 2) ≡ 6)
    × (u16_at (auth_request 2) 4 ≡ 2)
    × ((around.service_capacity ≡ 0) ⊎ (around.in_use ≤ around.service_capacity))
    × ((handle_system_packet around peer 1 (auth_request 2)).1.answers ≡ success ∷ [])
established_only_by_auth_example =
    established_only_by_auth around peer 1 (auth_request 2) refl let_in

turned_away : (handle_system_packet around peer 1 (auth_request 9)).0 ≡ rejected
unfolding handle_system_packet send_system_auth_response
turned_away = refl

rejected_example :
    Rejected around peer 1 (auth_request 9) (handle_system_packet around peer 1 (auth_request 9)).1
rejected_example = rejected_lem around peer 1 (auth_request 9) turned_away

abbrev rounds : Rounds
rounds = record { granted = λ n. true; around = λ n. around }

abbrev begun : RecvState
begun = record { session = record peer { state = established }; release = false; delivered = [] }

read_loop_refines_example :
    Same (read_loop 5 rounds 0 ring begun) (serve 5 8 rounds 0 (contents ring) begun)
read_loop_refines_example = read_loop_refines 5 rounds 0 ring begun ring-IsValid

handle_recv_ends_example : Finished ring 3 false true (handle_recv rounds ring peer 3 false true)
handle_recv_ends_example = handle_recv_ends rounds ring peer 3 false true ring-IsValid

read_loop-IsClean_example : IsClean (read_loop 5 rounds 0 ring begun).1
read_loop-IsClean_example =
    read_loop-IsClean 5 rounds 0 ring begun (record { services = tt; gated = inl refl })

-- ===== src/Tests/Recv.antt =====
-- A receive ring of 16 bytes for packets of at most 8, as Buffer/RecvPacketBuffer.cpp sets it up.
use iocpnetwork_engine.Prelude.{
  ℕ, ◌≤◌, ◌≡◌, refl, true, some, List, [], ◌∷◌, ◌++◌, arith, length, replicate,
}
use iocpnetwork_engine.Prelude.Bits.{is_power_of_two}
use iocpnetwork_engine.Buffer.RecvPacketBuffer.{
  RecvPacketBuffer, constructed, initialize, get_writeable_size, prepare_write, read_packet, ok,
}
use iocpnetwork_engine.Buffer.RecvPacketBuffer.Inv.{IsValid, initialize_iff}
use iocpnetwork_engine.Buffer.RecvPacketBuffer.Refine.{contents}
use iocpnetwork_engine.Buffer.RecvPacketBuffer.Prepare.{prepare_write_room}
use iocpnetwork_engine.Buffer.RecvPacketBuffer.Receive.{receive, receive_lem}
use iocpnetwork_engine.Buffer.RecvPacketBuffer.Framing.{reading_of, read_frame, read_packet_refines}
use iocpnetwork_engine.Buffer.RecvPacketBuffer.Wire.{Packet, wire, read_packet-wire}

-- Five bytes are stored and wrap around the end: a packet of id 1000 with the body 7.
abbrev pub ring : RecvPacketBuffer
ring = record {
  packet_memory_pool = true;
  allocated = true;
  buffer =
      0
      ∷ (7
          ∷ (0
              ∷ (0
                  ∷ (0 ∷ (0 ∷ (0 ∷ (0 ∷ (0 ∷ (0 ∷ (0 ∷ (0 ∷ (0 ∷ (232 ∷ (3 ∷ (5 ∷ [])))))))))))))));
  write_pos = 2;
  read_pos = 13;
  stored_size = 5;
  capacity = 16;
  capacity_mask = 15;
  max_packet_size = 8;
}

pub ring-IsValid : IsValid ring
ring-IsValid = record {
  ready = refl;
  pooled = refl;
  power = (4, refl);
  mask = refl;
  small = omega arith;
  header_fits = omega arith;
  limited = omega arith;
  room = omega arith;
  storage = refl;
  read_in = omega arith;
  stored_in = omega arith;
  write_at = refl;
}

abbrev message : Packet
message = record { id = 1000; body = 7 ∷ [] }

two_power : is_power_of_two 16 ≡ true
unfolding is_power_of_two
two_power = refl

made : (initialize constructed true 16 8 (some (replicate 16 0))).0 ≡ true
made = (initialize_iff constructed true 16 8 (replicate 16 0)).1 (record {
  has_pool = refl;
  two_power = two_power;
  at_least = omega arith;
  at_most = omega arith;
  twice = omega arith;
})

abbrev arrived : List ℕ
arrived = 1 ∷ (2 ∷ [])

receive_example :
    let (done, r) = receive ring arrived in
    (done ≡ true) × IsValid r × (contents r ≡ contents ring ++ arrived)
receive_example = receive_lem ring arrived ring-IsValid (omega arith) fits
  where
    fits : length arrived ≤ get_writeable_size (prepare_write ring)
    fits = omega (arith, prepare_write_room ring-IsValid (omega arith))

read_packet_refines_example :
    IsValid (read_packet ring true).after
    × (reading_of (read_packet ring true) ≡ read_frame ring.max_packet_size true (contents ring))
read_packet_refines_example = read_packet_refines true ring-IsValid

stored : contents ring ≡ wire message ++ []
unfolding wire
stored = refl

read_packet-wire_example :
    let r = read_packet ring true in
    (r.result ≡ ok)
    × (r.packet ≡ wire message)
    × (r.packet_id ≡ 1000)
    × (contents r.after ≡ [])
    × IsValid r.after
read_packet-wire_example = read_packet-wire message [] ring-IsValid (omega arith) stored

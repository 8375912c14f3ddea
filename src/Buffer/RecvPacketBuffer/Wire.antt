-- ===== src/Buffer/RecvPacketBuffer/Wire.antt =====
-- Packets as bytes: the header of Protocol/PacketHeader.h before the body, and `ReadPacket` over a
-- stream of them.
use iocpnetwork_engine.Prelude.{
  ℕ, ◌+◌, ◌/◌, ◌%◌, ◌≤◌, ◌≡◌, refl, ap, ◌∙◌, true, List, [], ◌∷◌, ◌++◌, arith, length,
  length-append, take, drop,
}
use iocpnetwork_engine.Buffer.RecvPacketBuffer.{
  RecvPacketBuffer, ok, header_size, header_of, read_packet,
}
use iocpnetwork_engine.Buffer.RecvPacketBuffer.Inv.{IsValid}
use iocpnetwork_engine.Buffer.RecvPacketBuffer.Refine.{contents}
use iocpnetwork_engine.Buffer.RecvPacketBuffer.Framing.{
  complete, frame, read_frame, reading_of, read_packet_refines,
}

pub record Packet : Type 0 where
  pub id : ℕ
  pub body : List ℕ

abbrev pub size_of : Packet → ℕ
size_of p = header_size + length p.body

-- A `uint16_t`, little endian.
abbrev pub u16_bytes : ℕ → List ℕ
u16_bytes n = n % 256 ∷ n / 256 ∷ []

-- `PACKET_HEADER(packetId, packetSize)` and what follows it in memory.
unfoldable pub wire : Packet → List ℕ
wire p = u16_bytes p.id ++ (u16_bytes (size_of p) ++ p.body)

take-append : {A : Type 0} (xs ys : List A) → take (length xs) (xs ++ ys) ≡ xs
take-append [] ys = refl
take-append (x ∷ xs) ys = ap (◌∷◌ x) (take-append xs ys)

drop-append : {A : Type 0} (xs ys : List A) → drop (length xs) (xs ++ ys) ≡ ys
drop-append [] ys = refl
drop-append (x ∷ xs) ys = drop-append xs ys

pub length-wire : (p : Packet) → length (wire p) ≡ size_of p
unfolding wire
length-wire p = omega arith

header_of-wire :
    (p : Packet) (rest : List ℕ)
    → header_of (wire p ++ rest) ≡ record { packet_id = p.id; packet_size = size_of p }
unfolding wire
header_of-wire p rest = ground arith

frame-wire :
    (max_packet : ℕ) (p : Packet) (rest : List ℕ)
    → size_of p ≤ max_packet
    → frame max_packet (wire p ++ rest)
      ≡ complete (record { packet_id = p.id; packet_size = size_of p })
unfolding frame
frame-wire max_packet p rest h =
    ground (arith, header_of-wire p rest, length-append (wire p) rest, length-wire p)

pub read_frame-wire :
    (max_packet : ℕ) (p : Packet) (rest : List ℕ)
    → size_of p ≤ max_packet
    → read_frame max_packet true (wire p ++ rest)
      ≡ record { result = ok; packet = wire p; packet_id = p.id; rest = rest }
unfolding read_frame
read_frame-wire max_packet p rest h = rw (
  frame-wire max_packet p rest h,
  read_frame,
  ← length-wire p,
  take-append (wire p) rest,
  drop-append (wire p) rest,
)

-- A packet within the limit that stands at the front of the stored bytes of a valid ring is read
-- back whole when the pool has memory, under its own id, and what follows it stays.
pub read_packet-wire :
    {b : RecvPacketBuffer} (p : Packet) (rest : List ℕ)
    → IsValid b
    → size_of p ≤ b.max_packet_size
    → contents b ≡ wire p ++ rest
    → let r = read_packet b true in
      (r.result ≡ ok)
      × (r.packet ≡ wire p)
      × (r.packet_id ≡ p.id)
      × (contents r.after ≡ rest)
      × IsValid r.after
read_packet-wire {b} p rest v h e =
    let (w, same) = read_packet_refines true v in
    let exact : reading_of (read_packet b true)
        ≡ record { result = ok; packet = wire p; packet_id = p.id; rest = rest } =
      same
      ∙ ap (read_frame b.max_packet_size true) e
      ∙ read_frame-wire b.max_packet_size p rest h in
    (
      ap (λ r. r.result) exact,
      ap (λ r. r.packet) exact,
      ap (λ r. r.packet_id) exact,
      ap (λ r. r.rest) exact,
      w,
    )

-- ===== src/Buffer/RecvPacketBuffer/Framing.antt =====
-- `ReadPacket` of RecvPacketBuffer.cpp against the framing of the byte stream: a header of four bytes
-- says how long the packet is, the header included.
use Prim.Native.Nat.{bit_and}
use native.Mathlib.Nat.{mod-add-mod}
use iocpnetwork_engine.Prelude.{
  ℕ, ◌+◌, ◌-◌, ◌%◌, ◌≤◌, ◌<◌, ◌≡◌, refl, ap, sym, subst, ◌∙◌, Bool, true, false, ◌||◌, none, some,
  List, [], arith, length, inl, inr, Bool-cases, get_or, take, drop, ltb, if◌then◌else◌,
}
use iocpnetwork_engine.Prelude.Window.{take-stretch, drop-stretch, stretch-congr, get_or-take}
use iocpnetwork_engine.Buffer.RecvPacketBuffer.{
  RecvPacketBuffer, PacketHeader, PacketReadResult, ok, need_more_data, invalid, out_of_memory,
  header_size, header_of, add_u32, copy_out, peek_header, read_packet, ReadOutcome,
}
use iocpnetwork_engine.Buffer.RecvPacketBuffer.Inv.{IsValid, mask_mod}
use iocpnetwork_engine.Buffer.RecvPacketBuffer.Refine.{
  byte_at, contents, copy_out_lem, length-contents,
}

-- What the front of a stream holds.
pub data Frame : Type 0 where
  incomplete malformed : Frame
  complete : PacketHeader → Frame

unfoldable pub frame : ℕ → List ℕ → Frame
frame max_packet bytes =
    if ltb (length bytes) header_size
    then incomplete
    else if ltb size header_size || ltb max_packet size
    then malformed
    else if ltb (length bytes) size
    then incomplete
    else complete (header_of bytes)
  where
    size : ℕ
    size = (header_of bytes).packet_size

-- The specification of one read: the result, the packet taken off the front, and what stays.
pub record Reading : Type 0 where
  pub result : PacketReadResult
  pub packet : List ℕ
  pub packet_id : ℕ
  pub rest : List ℕ

unfoldable pub read_frame : ℕ → Bool → List ℕ → Reading
unfolding frame
read_frame max_packet granted bytes = elim (frame max_packet bytes) [
  | incomplete ↦ record { result = need_more_data; packet = []; packet_id = 0; rest = bytes }
  | malformed ↦ record { result = invalid; packet = []; packet_id = 0; rest = bytes }
  | complete h ↦
      if granted
      then record {
        result = ok;
        packet = take h.packet_size bytes;
        packet_id = h.packet_id;
        rest = drop h.packet_size bytes;
      }
      else record { result = out_of_memory; packet = []; packet_id = 0; rest = bytes }
]

copy_out-take :
    {b : RecvPacketBuffer} (n : ℕ)
    → IsValid b
    → n ≤ b.stored_size
    → copy_out b n ≡ take n (contents b)
copy_out-take {b} n v h =
    copy_out_lem n v (omega arith) ∙ sym (take-stretch (byte_at b) b.read_pos n b.stored_size h)

abbrev after_packet : RecvPacketBuffer → ℕ → RecvPacketBuffer
after_packet b size = record b {
  read_pos = (b.read_pos + size) % b.capacity;
  stored_size = b.stored_size - size;
}

after_packet-IsValid :
    {b : RecvPacketBuffer} (size : ℕ)
    → IsValid b
    → size ≤ b.stored_size
    → IsValid (after_packet b size)
after_packet-IsValid {b} size v h = record {
  ready = v.ready;
  pooled = v.pooled;
  power = v.power;
  mask = v.mask;
  small = v.small;
  header_fits = v.header_fits;
  limited = v.limited;
  room = v.room;
  storage = v.storage;
  read_in = omega arith;
  stored_in = omega arith;
  write_at =
      v.write_at
      ∙ ap (λ x. x % b.capacity)
          (let e : b.read_pos + b.stored_size ≡ b.read_pos + size + (b.stored_size - size) =
              omega arith in
            e)
      ∙ sym (mod-add-mod (b.read_pos + size) b.capacity (b.stored_size - size));
}

contents-after_packet :
    {b : RecvPacketBuffer} (size : ℕ)
    → IsValid b
    → size ≤ b.stored_size
    → contents (after_packet b size) ≡ drop size (contents b)
contents-after_packet {b} size v h =
    stretch-congr (byte_at b) (byte_at b) ((b.read_pos + size) % b.capacity) (b.read_pos + size)
      (b.stored_size - size)
      (λ k lt. ap (λ i. get_or b.buffer i 0) (mod-add-mod (b.read_pos + size) b.capacity k))
    ∙ sym (drop-stretch (byte_at b) b.read_pos size b.stored_size h)

header_of-take : (bytes : List ℕ) → header_of (take 4 bytes) ≡ header_of bytes
header_of-take bytes = ground (
  arith,
  get_or-take 4 bytes 0 0 (omega arith),
  get_or-take 4 bytes 1 0 (omega arith),
  get_or-take 4 bytes 2 0 (omega arith),
  get_or-take 4 bytes 3 0 (omega arith),
)

peek_header_lem :
    {b : RecvPacketBuffer}
    → IsValid b
    → peek_header b
      ≡ (if ltb b.stored_size header_size then none else some (header_of (contents b)))
unfolding peek_header
peek_header_lem {b} v = elim (Bool-cases (ltb b.stored_size header_size)) [
  | inl short ↦ rw short (ground arith)
  | inr enough ↦
      rw (enough, v.ready, copy_out-take 4 v (ground arith), header_of-take (contents b))
        (ground arith)
]

abbrev pub reading_of : ReadOutcome → Reading
reading_of r = record {
  result = r.result;
  packet = r.packet;
  packet_id = r.packet_id;
  rest = contents r.after;
}

read_pos_step :
    {b : RecvPacketBuffer} (size : ℕ)
    → IsValid b
    → size ≤ b.max_packet_size
    → bit_and (add_u32 b.read_pos size) b.capacity_mask ≡ (b.read_pos + size) % b.capacity
read_pos_step {b} size v h =
    ap (λ x. bit_and x b.capacity_mask)
      (let e : add_u32 b.read_pos size ≡ b.read_pos + size = omega (arith, v) in e)
    ∙ mask_mod v (b.read_pos + size)

-- What `ReadPacket` does, by the frame at the front.
abbrev outcome : RecvPacketBuffer → Bool → Frame → ReadOutcome
outcome b granted incomplete = record {
  result = need_more_data;
  packet = [];
  packet_id = 0;
  after = b;
}
outcome b granted malformed = record { result = invalid; packet = []; packet_id = 0; after = b }
outcome b granted (complete h) =
    if granted
    then record {
      result = ok;
      packet = copy_out b h.packet_size;
      packet_id = h.packet_id;
      after = after_packet b h.packet_size;
    }
    else record { result = out_of_memory; packet = []; packet_id = 0; after = b }

read_packet-outcome :
    {b : RecvPacketBuffer} (granted : Bool)
    → IsValid b
    → read_packet b granted ≡ outcome b granted (frame b.max_packet_size (contents b))
unfolding read_packet frame
read_packet-outcome {b} granted v = ground (
  arith,
  peek_header_lem v,
  length-contents b,
  read_pos_step (header_of (contents b)).packet_size v,
)

-- A complete frame lies within the stored bytes.
frame-complete :
    (max_packet : ℕ) (bytes : List ℕ) {h : PacketHeader}
    → frame max_packet bytes ≡ complete h
    → (h.packet_size ≤ length bytes) × (header_size ≤ h.packet_size) × (h.packet_size ≤ max_packet)
unfolding frame
frame-complete max_packet bytes e = ground arith

outcome_refines :
    {b : RecvPacketBuffer} (granted : Bool) (f : Frame)
    → IsValid b
    → frame b.max_packet_size (contents b) ≡ f
    → IsValid (outcome b granted f).after
      × (reading_of (outcome b granted f) ≡ read_frame b.max_packet_size granted (contents b))
unfolding read_frame
outcome_refines granted incomplete v e = (v, rw (e, read_frame))
outcome_refines granted malformed v e = (v, rw (e, read_frame))
outcome_refines {b} true (complete h) v e =
    let fits : h.packet_size ≤ b.stored_size =
      omega (arith, frame-complete b.max_packet_size (contents b) e, length-contents b) in
    (
      after_packet-IsValid h.packet_size v fits,
      rw (
        e,
        read_frame,
        copy_out-take h.packet_size v fits,
        contents-after_packet h.packet_size v fits,
      ),
    )
outcome_refines false (complete h) v e = (v, rw (e, read_frame))

-- One read of a valid ring does to the stored bytes what the framing says, for every content and
-- whether or not the pool has memory; and the ring stays valid.
pub read_packet_refines :
    {b : RecvPacketBuffer} (granted : Bool)
    → IsValid b
    → IsValid (read_packet b granted).after
      × (reading_of (read_packet b granted) ≡ read_frame b.max_packet_size granted (contents b))
read_packet_refines {b} granted v =
    rw (read_packet-outcome granted v)
      (outcome_refines granted (frame b.max_packet_size (contents b)) v refl)

-- What the result of a read says about the ring it leaves.
abbrev pub Told : RecvPacketBuffer → ReadOutcome → PacketReadResult → Type 0
Told b r ok = (r.after.stored_size < b.stored_size) × (r.after.max_packet_size ≡ b.max_packet_size)
Told b r need_more_data = (r.after ≡ b) × (frame b.max_packet_size (contents b) ≡ incomplete)
Told b r invalid = r.after ≡ b
Told b r out_of_memory = r.after ≡ b

outcome-Told :
    {b : RecvPacketBuffer} (granted : Bool) (f : Frame)
    → IsValid b
    → frame b.max_packet_size (contents b) ≡ f
    → Told b (outcome b granted f) (outcome b granted f).result
outcome-Told granted incomplete v e = (refl, e)
outcome-Told granted malformed v e = refl
outcome-Told {b} true (complete h) v e =
    (omega (arith, frame-complete b.max_packet_size (contents b) e, length-contents b), refl)
outcome-Told false (complete h) v e = refl

pub read_packet-Told :
    {b : RecvPacketBuffer} (granted : Bool)
    → IsValid b
    → Told b (read_packet b granted) (read_packet b granted).result
read_packet-Told {b} granted v =
    subst (λ (r : ReadOutcome). Told b r r.result) (sym (read_packet-outcome granted v))
      (outcome-Told granted (frame b.max_packet_size (contents b)) v refl)

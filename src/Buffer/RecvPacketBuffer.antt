-- ===== src/Buffer/RecvPacketBuffer.antt =====
-- Buffer/RecvPacketBuffer.h and .cpp: the ring that WSARecv fills and `ReadPacket` cuts packets from.
-- A byte is a number; `uint32_t` sums are written with their wrap.
pub mod Inv
pub mod Refine
pub mod Prepare
pub mod Receive
pub mod Framing
pub mod Wire
use Prim.Native.Nat.{bit_and}
use iocpnetwork_engine.Prelude.{
  ℕ, ◌+◌, ◌-◌, ◌*◌, ◌%◌, ◌^◌, Bool, true, false, not, ◌&&◌, ◌||◌, Option, none, some, List, [], ◌∷◌,
  ◌++◌, ltb, leb, ◌==◌, if◌then◌else◌, get_or,
}
use iocpnetwork_engine.Prelude.Window.{copy, blit}

-- `allocated` says that `m_buffer` is not null; `buffer` holds the bytes behind it.
pub record RecvPacketBuffer : Type 0 where
  pub packet_memory_pool : Bool
  pub allocated : Bool
  pub buffer : List ℕ
  pub write_pos : ℕ
  pub read_pos : ℕ
  pub stored_size : ℕ
  pub capacity : ℕ
  pub capacity_mask : ℕ
  pub max_packet_size : ℕ

pub data PacketReadResult : Type 0 where
  ok need_more_data invalid out_of_memory : PacketReadResult

pub record PacketHeader : Type 0 where
  pub packet_id : ℕ
  pub packet_size : ℕ

-- sizeof(PACKET_HEADER): two packed `uint16_t`
abbrev pub header_size : ℕ
header_size = 4

-- PACKET_SIZE_LIMIT
abbrev pub packet_size_limit : ℕ
packet_size_limit = 65535

abbrev pub add_u32 : ℕ → ℕ → ℕ
add_u32 a b = (a + b) % 2 ^ 32

-- the object as its constructor leaves it
pub constructed : RecvPacketBuffer
constructed = record {
  packet_memory_pool = false;
  allocated = false;
  buffer = [];
  write_pos = 0;
  read_pos = 0;
  stored_size = 0;
  capacity = 0;
  capacity_mask = 0;
  max_packet_size = 0;
}

-- Every field goes back to its first value; `_aligned_free` takes the bytes.
unfoldable pub finalize : RecvPacketBuffer → RecvPacketBuffer
unfolding constructed
finalize b = constructed

unfoldable pub reset : RecvPacketBuffer → RecvPacketBuffer
reset b = record b { write_pos = 0; read_pos = 0; stored_size = 0 }

-- `storage` is what `_aligned_malloc` returns.
unfoldable pub initialize :
    RecvPacketBuffer → Bool → ℕ → ℕ → Option (List ℕ) → Bool × RecvPacketBuffer
unfolding finalize reset
initialize b pool ring_size max_packet storage =
    if not pool
    then (false, b)
    else if ring_size == 0 || not (bit_and ring_size (ring_size - 1) == 0)
    then (false, b)
    else if ltb max_packet header_size || ltb packet_size_limit max_packet
    then (false, b)
    else if ltb ring_size (max_packet * 2)
    then (false, b)
    else let cleared = record (finalize b) {
      packet_memory_pool = pool;
      capacity = ring_size;
      capacity_mask = ring_size - 1;
      max_packet_size = max_packet;
    } in
      elim storage [
        | none ↦ (false, finalize cleared)
        | some bytes ↦ (true, reset (record cleared { allocated = true; buffer = bytes }))
      ]

abbrev pub is_full : RecvPacketBuffer → Bool
is_full b = b.stored_size == b.capacity

abbrev pub is_empty : RecvPacketBuffer → Bool
is_empty b = b.stored_size == 0

-- The subtractions run only where they cannot go below 0 (`Inv.IsValid`).
pub get_writeable_size : RecvPacketBuffer → ℕ
get_writeable_size b =
    if not b.allocated
    then 0
    else if is_full b
    then 0
    else if leb b.read_pos b.write_pos
    then (if ltb space_to_end total_space then space_to_end else total_space)
    else b.read_pos - b.write_pos
  where
    space_to_end : ℕ
    space_to_end = b.capacity - b.write_pos

    total_space : ℕ
    total_space = b.capacity - b.stored_size

pub commit_write : RecvPacketBuffer → ℕ → Bool × RecvPacketBuffer
unfolding get_writeable_size
commit_write b bytes_received =
    if not b.allocated || bytes_received == 0
    then (false, b)
    else if ltb (get_writeable_size b) bytes_received
    then (false, b)
    else (
      true,
      record b {
        write_pos = bit_and (add_u32 b.write_pos bytes_received) b.capacity_mask;
        stored_size = add_u32 b.stored_size bytes_received;
      },
    )

-- What WSARecv does with the buffer that `GetWriteablePtr` handed it.
pub os_write : RecvPacketBuffer → List ℕ → RecvPacketBuffer
os_write b bytes = record b { buffer = blit b.buffer b.write_pos bytes }

-- The `n` bytes at the read position, in one `memcpy` or in two.
pub copy_out : RecvPacketBuffer → ℕ → List ℕ
copy_out b n =
    let remain_first = b.capacity - b.read_pos in
    if leb n remain_first
    then copy b.buffer b.read_pos n
    else copy b.buffer b.read_pos remain_first ++ copy b.buffer 0 (n - remain_first)

-- The packed struct over four bytes, little endian.
abbrev pub header_of : List ℕ → PacketHeader
header_of bytes = record {
  packet_id = get_or bytes 0 0 + 256 * get_or bytes 1 0;
  packet_size = get_or bytes 2 0 + 256 * get_or bytes 3 0;
}

pub peek_header : RecvPacketBuffer → Option PacketHeader
unfolding copy_out
peek_header b =
    if not b.allocated || is_empty b
    then none
    else if ltb b.stored_size header_size
    then none
    else some (header_of (copy_out b header_size))

pub compact : RecvPacketBuffer → RecvPacketBuffer
compact b = record b {
  buffer = blit b.buffer 0 (copy b.buffer b.read_pos b.stored_size);
  read_pos = 0;
  write_pos = b.stored_size;
}

pub prepare_write : RecvPacketBuffer → RecvPacketBuffer
unfolding compact
prepare_write b =
    if not b.allocated
    then b
    else if b.stored_size == 0
    then record b { read_pos = 0; write_pos = 0 }
    else if ltb b.capacity (add_u32 b.read_pos b.stored_size)
    then b
    else if leb b.max_packet_size (b.capacity - b.write_pos)
    then b
    else compact b

-- `outBuffer` with `outSize` is the list of bytes; `outPacketId` is the second number.
pub record ReadOutcome : Type 0 where
  pub result : PacketReadResult
  pub packet : List ℕ
  pub packet_id : ℕ
  pub after : RecvPacketBuffer

abbrev no_packet : RecvPacketBuffer → PacketReadResult → ReadOutcome
no_packet b r = record { result = r; packet = []; packet_id = 0; after = b }

-- `granted` says whether the packet pool has memory for this packet.
pub read_packet : RecvPacketBuffer → Bool → ReadOutcome
unfolding copy_out
read_packet b granted = elim (peek_header b) [
  | none ↦ no_packet b need_more_data
  | some header ↦
      let size = header.packet_size in
      if ltb size header_size || ltb b.max_packet_size size
      then no_packet b invalid
      else if ltb b.stored_size size
      then no_packet b need_more_data
      else if not b.packet_memory_pool
      then no_packet b out_of_memory
      else if not granted
      then no_packet b out_of_memory
      else record {
        result = ok;
        packet = copy_out b size;
        packet_id = header.packet_id;
        after = record b {
          read_pos = bit_and (add_u32 b.read_pos size) b.capacity_mask;
          stored_size = b.stored_size - size;
        };
      }
]

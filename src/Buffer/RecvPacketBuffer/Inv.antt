-- ===== src/Buffer/RecvPacketBuffer/Inv.antt =====
-- The invariant of the ring of RecvPacketBuffer.cpp, and what keeps it.
use native.Mathlib.Nat.{mod-add-mod, pow-le-pow_right, mod-eq_of_lt}
use native.Mathlib.Decide.{dec_lt}
use Prim.Native.Nat.{bit_and, min}
use iocpnetwork_engine.Prelude.{
  ℕ, ◌+◌, ◌-◌, ◌*◌, ◌%◌, ◌^◌, ◌≤◌, ◌<◌, ◌≡◌, refl, ap, ◌∙◌, Bool, true, false, some, List, arith,
  length, ◌↔◌, sym, not, ◌&&◌, ◌⊎◌, inl, inr, Bool-cases, leb, ◌==◌, if◌then◌else◌,
}
use iocpnetwork_engine.Prelude.Bits.{
  IsPowerOfTwo, is_power_of_two, is_power_of_two_sound, bit_and-mask,
}
use iocpnetwork_engine.Prelude.Window.{mod_cases}
use iocpnetwork_engine.Buffer.RecvPacketBuffer.{
  RecvPacketBuffer, add_u32, header_size, packet_size_limit, initialize, get_writeable_size,
  commit_write,
}

pub record IsValid (b : RecvPacketBuffer) : Type 0 where
  pub ready : b.allocated ≡ true
  pub pooled : b.packet_memory_pool ≡ true
  pub power : IsPowerOfTwo b.capacity
  pub mask : b.capacity_mask ≡ b.capacity - 1
  pub small : b.capacity ≤ 2 ^ 31
  pub header_fits : header_size ≤ b.max_packet_size
  pub limited : b.max_packet_size ≤ packet_size_limit
  pub room : b.max_packet_size * 2 ≤ b.capacity
  pub storage : length b.buffer ≡ b.capacity
  pub read_in : b.read_pos < b.capacity
  pub stored_in : b.stored_size ≤ b.capacity
  pub write_at : b.write_pos ≡ (b.read_pos + b.stored_size) % b.capacity

power_of_two_small : (n : ℕ) → IsPowerOfTwo n → n < 2 ^ 32 → n ≤ 2 ^ 31
power_of_two_small n (k, e) h = elim (dec_lt k 32) [
  | yes p ↦ omega (arith, e, pow-le-pow_right {n = 2} (omega arith) {i = k} {j = 31} (omega arith))
  | no p ↦
      absurd
        (omega (arith, e, pow-le-pow_right {n = 2} (omega arith) {i = 32} {j = k} (omega arith)))
]

abbrev empty_ring : ℕ → ℕ → List ℕ → RecvPacketBuffer
empty_ring ring_size max_packet bytes = record {
  packet_memory_pool = true;
  allocated = true;
  buffer = bytes;
  write_pos = 0;
  read_pos = 0;
  stored_size = 0;
  capacity = ring_size;
  capacity_mask = ring_size - 1;
  max_packet_size = max_packet;
}

-- The arguments that `Initialize` accepts.
pub record Accepts (pool : Bool) (ring_size max_packet : ℕ) : Type 0 where
  pub has_pool : pool ≡ true
  pub two_power : is_power_of_two ring_size ≡ true
  pub at_least : header_size ≤ max_packet
  pub at_most : max_packet ≤ packet_size_limit
  pub twice : max_packet * 2 ≤ ring_size

initialize-Accepts :
    (b : RecvPacketBuffer) (pool : Bool) (ring_size max_packet : ℕ) (bytes : List ℕ)
    → (initialize b pool ring_size max_packet (some bytes)).0 ≡ true
    → Accepts pool ring_size max_packet
unfolding initialize is_power_of_two
initialize-Accepts b pool ring_size max_packet bytes h = ground arith

pub initialize_accepted :
    (b : RecvPacketBuffer) (pool : Bool) (ring_size max_packet : ℕ) (bytes : List ℕ)
    → Accepts pool ring_size max_packet
    → initialize b pool ring_size max_packet (some bytes)
      ≡ (true, empty_ring ring_size max_packet bytes)
unfolding initialize is_power_of_two
initialize_accepted b pool ring_size max_packet bytes a = ground arith

empty_ring-IsValid :
    (pool : Bool) (ring_size max_packet : ℕ) (bytes : List ℕ)
    → Accepts pool ring_size max_packet
    → ring_size < 2 ^ 32
    → length bytes ≡ ring_size
    → IsValid (empty_ring ring_size max_packet bytes)
empty_ring-IsValid pool ring_size max_packet bytes a w l =
    let power = is_power_of_two_sound ring_size a.two_power in
    record {
      ready = refl;
      pooled = refl;
      power = power;
      mask = refl;
      small = power_of_two_small ring_size power w;
      header_fits = a.at_least;
      limited = a.at_most;
      room = a.twice;
      storage = l;
      read_in = omega (arith, a.twice, a.at_least);
      stored_in = omega arith;
      write_at = sym (mod-eq_of_lt (omega (arith, a.twice, a.at_least)));
    }

-- `Initialize`, given memory, succeeds exactly on the arguments that `Accepts` lists.
pub initialize_iff :
    (b : RecvPacketBuffer) (pool : Bool) (ring_size max_packet : ℕ) (bytes : List ℕ)
    → ((initialize b pool ring_size max_packet (some bytes)).0 ≡ true)
      ↔ Accepts pool ring_size max_packet
initialize_iff b pool ring_size max_packet bytes = (
  initialize-Accepts b pool ring_size max_packet bytes,
  λ a. rw (initialize_accepted b pool ring_size max_packet bytes a),
)

-- A ring that `Initialize` made out of fewer than 2 ^ 32 bytes, as many as it was asked for, is
-- valid and empty.
pub initialize-IsValid :
    (b : RecvPacketBuffer) (pool : Bool) (ring_size max_packet : ℕ) (bytes : List ℕ)
    → ring_size < 2 ^ 32
    → length bytes ≡ ring_size
    → (initialize b pool ring_size max_packet (some bytes)).0 ≡ true
    → let r = (initialize b pool ring_size max_packet (some bytes)).1 in
      IsValid r × (r.stored_size ≡ 0)
initialize-IsValid b pool ring_size max_packet bytes w l h =
    let a = initialize-Accepts b pool ring_size max_packet bytes h in
    rw (initialize_accepted b pool ring_size max_packet bytes a)
      (empty_ring-IsValid pool ring_size max_packet bytes a w l, refl)

-- Under the invariant the mask is a remainder, and no sum wraps.
pub mask_mod :
    {b : RecvPacketBuffer} → IsValid b → (n : ℕ) → bit_and n b.capacity_mask ≡ n % b.capacity
mask_mod {b} v n = let (k, e) = v.power in rw (v.mask, e) (bit_and-mask k n)

-- Where the ring is not full, `m_writePos` is on the side of `m_readPos` that the code expects.
pub write_side :
    {b : RecvPacketBuffer}
    → IsValid b
    → ((b.read_pos + b.stored_size < b.capacity) × (b.write_pos ≡ b.read_pos + b.stored_size))
      ⊎ ((b.capacity ≤ b.read_pos + b.stored_size)
          × (b.write_pos ≡ b.read_pos + b.stored_size - b.capacity))
write_side {b} v = elim (mod_cases b.capacity (b.read_pos + b.stored_size) (omega arith)) [
  | inl (lt, e) ↦ inl (lt, v.write_at ∙ e)
  | inr (le, e) ↦ inr (le, v.write_at ∙ e)
]

-- `GetWriteableSize` is the largest run of free bytes that starts at the write position.
pub get_writeable_size_lem :
    {b : RecvPacketBuffer}
    → IsValid b
    → get_writeable_size b ≡ min (b.capacity - b.write_pos) (b.capacity - b.stored_size)
unfolding get_writeable_size
get_writeable_size_lem v = ground (arith, write_side v)

-- The ring after `n` more bytes.
abbrev pub filled : RecvPacketBuffer → ℕ → RecvPacketBuffer
filled b n = record b {
  write_pos = (b.read_pos + (b.stored_size + n)) % b.capacity;
  stored_size = b.stored_size + n;
}

write_pos_step :
    {b : RecvPacketBuffer} (n : ℕ)
    → IsValid b
    → n ≤ b.capacity - b.write_pos
    → bit_and (add_u32 b.write_pos n) b.capacity_mask
      ≡ (b.read_pos + (b.stored_size + n)) % b.capacity
write_pos_step {b} n v h =
    ap (λ x. bit_and x b.capacity_mask)
      (let e : add_u32 b.write_pos n ≡ b.write_pos + n = omega (arith, write_side v) in e)
    ∙ mask_mod v (b.write_pos + n)
    ∙ ap (λ x. (x + n) % b.capacity) v.write_at
    ∙ mod-add-mod (b.read_pos + b.stored_size) b.capacity n
    ∙ ap (λ x. x % b.capacity)
        (let e : b.read_pos + b.stored_size + n ≡ b.read_pos + (b.stored_size + n) = omega arith in
          e)

-- `CommitWrite` on a valid ring accepts exactly the sizes from 1 to the writeable one, and
-- refuses all others with the ring unchanged.
pub commit_write_lem :
    {b : RecvPacketBuffer} (n : ℕ)
    → IsValid b
    → commit_write b n ≡ (
        if not (n == 0) && leb n (min (b.capacity - b.write_pos) (b.capacity - b.stored_size))
        then (true, filled b n)
        else (false, b))
unfolding commit_write
commit_write_lem {b} n v = ground (arith, get_writeable_size_lem v, write_pos_step n v)

pub filled-IsValid :
    {b : RecvPacketBuffer} (n : ℕ)
    → IsValid b
    → b.stored_size + n ≤ b.capacity
    → IsValid (filled b n)
filled-IsValid n v h = record {
  ready = v.ready;
  pooled = v.pooled;
  power = v.power;
  mask = v.mask;
  small = v.small;
  header_fits = v.header_fits;
  limited = v.limited;
  room = v.room;
  storage = v.storage;
  read_in = v.read_in;
  stored_in = h;
  write_at = refl;
}

pub commit_write-IsValid : {b : RecvPacketBuffer} (n : ℕ) → IsValid b → IsValid (commit_write b n).1
commit_write-IsValid {b} n v =
    rw (commit_write_lem n v)
      (elim (Bool-cases
        (not (n == 0) && leb n (min (b.capacity - b.write_pos) (b.capacity - b.stored_size)))) [
          | inl e ↦ rw e (filled-IsValid n v (ground arith))
          | inr e ↦ rw e v
        ])

-- ===== src/Buffer/RecvPacketBuffer/Prepare.antt =====
-- `PrepareWrite` and `Compact` of RecvPacketBuffer.cpp: the run of free bytes before each receive.
use native.Mathlib.Nat.{mod-eq_of_lt}
use iocpnetwork_engine.Prelude.{
  ℕ, ◌+◌, ◌-◌, ◌%◌, ◌≤◌, ◌<◌, ◌≡◌, refl, ap, sym, ◌∙◌, ◌⊎◌, List, arith, length, get_or, drop,
}
use iocpnetwork_engine.Prelude.Window.{
  stretch, length-stretch, stretch-congr, copy, copy-stretch, length-blit, get_or-blit_inside,
  get_or-take, get_or-drop,
}
use iocpnetwork_engine.Buffer.RecvPacketBuffer.{
  RecvPacketBuffer, get_writeable_size, compact, prepare_write,
}
use iocpnetwork_engine.Buffer.RecvPacketBuffer.Inv.{IsValid, write_side, get_writeable_size_lem}
use iocpnetwork_engine.Buffer.RecvPacketBuffer.Refine.{byte_at, contents}

-- When `PrepareWrite` calls `Compact`, the bytes lie in one piece before the end.
prepare_write_cases :
    (P : RecvPacketBuffer → Type 0) {b : RecvPacketBuffer}
    → IsValid b
    → ((b.capacity ≤ b.read_pos + b.stored_size) ⊎ (b.max_packet_size ≤ b.capacity - b.write_pos)
        → P b)
    → (b.stored_size ≡ 0 → P (record b { read_pos = 0; write_pos = 0 }))
    → (b.read_pos + b.stored_size < b.capacity → P (compact b))
    → P (prepare_write b)
unfolding prepare_write
prepare_write_cases P {b} v same emptied moved = ground (arith, write_side v)

emptied-IsValid :
    {b : RecvPacketBuffer}
    → IsValid b
    → b.stored_size ≡ 0
    → IsValid (record b { read_pos = 0; write_pos = 0 })
emptied-IsValid {b} v e = record {
  ready = v.ready;
  pooled = v.pooled;
  power = v.power;
  mask = v.mask;
  small = v.small;
  header_fits = v.header_fits;
  limited = v.limited;
  room = v.room;
  storage = v.storage;
  read_in = omega arith;
  stored_in = v.stored_in;
  write_at =
      sym (
        mod-eq_of_lt (omega arith)
        ∙ (let at_zero : 0 + b.stored_size ≡ 0 = omega arith in at_zero));
}

module _ {b : RecvPacketBuffer} (v : IsValid b)
    (before_end : b.read_pos + b.stored_size < b.capacity) where
  moved : List ℕ
  moved = copy b.buffer b.read_pos b.stored_size

  moved-stretch : moved ≡ stretch (λ i. get_or b.buffer i 0) b.read_pos b.stored_size
  unfolding moved
  moved-stretch = copy-stretch b.buffer b.read_pos b.stored_size 0 (omega arith)

  length-moved : length moved ≡ b.stored_size
  length-moved =
      ap length moved-stretch ∙ length-stretch (λ i. get_or b.buffer i 0) b.read_pos b.stored_size

  compact-IsValid : IsValid (compact b)
  unfolding compact moved
  compact-IsValid = record {
    ready = v.ready;
    pooled = v.pooled;
    power = v.power;
    mask = v.mask;
    small = v.small;
    header_fits = v.header_fits;
    limited = v.limited;
    room = v.room;
    storage = length-blit b.buffer 0 moved (omega (arith, length-moved)) ∙ v.storage;
    read_in = omega arith;
    stored_in = v.stored_in;
    write_at = sym (mod-eq_of_lt (omega arith)) ∙ ap (λ x. x % b.capacity) (omega arith);
  }

  contents-compact : contents (compact b) ≡ contents b
  unfolding compact moved
  contents-compact =
      stretch-congr (byte_at (compact b)) (byte_at b) 0 b.read_pos b.stored_size λ k lt.
        ap (λ i. get_or (compact b).buffer i 0)
          (let e : (0 + k) % b.capacity ≡ 0 + k = mod-eq_of_lt (omega arith) in e)
        ∙ get_or-blit_inside b.buffer 0 moved k 0 (omega (arith, length-moved))
            (omega (arith, length-moved))
        ∙ get_or-take b.stored_size (drop b.read_pos b.buffer) k 0 lt
        ∙ get_or-drop b.read_pos b.buffer k 0
        ∙ ap (λ i. get_or b.buffer i 0) (sym (mod-eq_of_lt (omega arith)))

  writeable-compact :
      b.stored_size < b.max_packet_size → b.max_packet_size ≤ get_writeable_size (compact b)
  unfolding compact
  writeable-compact h = omega (arith, get_writeable_size_lem compact-IsValid)

prepare_write_parts :
    {b : RecvPacketBuffer}
    → IsValid b
    → IsValid (prepare_write b)
      × (contents (prepare_write b) ≡ contents b)
      × (b.stored_size < b.max_packet_size
          → b.max_packet_size ≤ get_writeable_size (prepare_write b))
prepare_write_parts {b} v =
    prepare_write_cases
      (λ r.
        IsValid r
        × (contents r ≡ contents b)
        × (b.stored_size < b.max_packet_size → b.max_packet_size ≤ get_writeable_size r))
      v (λ room. (v, refl, λ h. omega (arith, get_writeable_size_lem v, write_side v)))
      (λ none_stored. (
        emptied-IsValid v none_stored,
        stretch-congr (byte_at b) (byte_at b) 0 b.read_pos b.stored_size
            (λ k lt. absurd (omega arith)),
        λ h. omega (arith, get_writeable_size_lem (emptied-IsValid v none_stored)),
      ))
      (λ before_end. (
        compact-IsValid v before_end,
        contents-compact v before_end,
        writeable-compact v before_end,
      ))

-- `PrepareWrite` of a valid ring keeps it valid and keeps every stored byte, in order.
pub prepare_write-IsValid :
    {b : RecvPacketBuffer}
    → IsValid b
    → IsValid (prepare_write b) × (contents (prepare_write b) ≡ contents b)
prepare_write-IsValid v = let (w, same, _) = prepare_write_parts v in (w, same)

-- While less than one packet is stored in a valid ring, `PrepareWrite` leaves room for a whole
-- packet in one piece: so the next receive has a buffer, and the ring cannot jam.
pub prepare_write_room :
    {b : RecvPacketBuffer}
    → IsValid b
    → b.stored_size < b.max_packet_size
    → b.max_packet_size ≤ get_writeable_size (prepare_write b)
prepare_write_room v h = (prepare_write_parts v).2 h

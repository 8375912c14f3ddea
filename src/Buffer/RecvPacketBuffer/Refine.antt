-- ===== src/Buffer/RecvPacketBuffer/Refine.antt =====
-- The ring of RecvPacketBuffer.cpp as the sequence of the bytes received and not yet read.
use Prim.Native.Nat.{min}
use native.Mathlib.Nat.{mod-eq_of_lt, mod-add-mod}
use native.Mathlib.Decide.{dec_lt}
use iocpnetwork_engine.Prelude.{
  ℕ, ◌+◌, ◌-◌, ◌%◌, ◌≤◌, ◌<◌, ◌≡◌, ap, ap₂, sym, ◌∙◌, inl, inr, List, ◌++◌, arith, length, get_or,
  leb, Bool-cases,
}
use iocpnetwork_engine.Prelude.Window.{
  stretch, length-stretch, stretch-add, stretch-congr, stretch-list, copy-stretch,
  get_or-blit_inside, get_or-blit_before, get_or-blit_after, mod_cases,
}
use iocpnetwork_engine.Buffer.RecvPacketBuffer.{RecvPacketBuffer, os_write, copy_out}
use iocpnetwork_engine.Buffer.RecvPacketBuffer.Inv.{IsValid, write_side, filled}

-- The byte at position `j`, counted without going round.
abbrev pub byte_at : RecvPacketBuffer → ℕ → ℕ
byte_at b j = get_or b.buffer (j % b.capacity) 0

-- The stored bytes, oldest first.
abbrev pub contents : RecvPacketBuffer → List ℕ
contents b = stretch (byte_at b) b.read_pos b.stored_size

pub length-contents : (b : RecvPacketBuffer) → length (contents b) ≡ b.stored_size
length-contents b = length-stretch (byte_at b) b.read_pos b.stored_size

os_write_kept :
    {b : RecvPacketBuffer} (bytes : List ℕ)
    → IsValid b
    → length bytes ≤ min (b.capacity - b.write_pos) (b.capacity - b.stored_size)
    → (k : ℕ) → k < b.stored_size
    → byte_at (os_write b bytes) (b.read_pos + k) ≡ byte_at b (b.read_pos + k)
unfolding os_write
os_write_kept {b} bytes v fits k lt =
    let index = (b.read_pos + k) % b.capacity in
    elim (dec_lt index b.write_pos) [
      | yes p ↦ get_or-blit_before b.buffer b.write_pos bytes index 0 (omega arith) p
      | no p ↦
          get_or-blit_after b.buffer b.write_pos bytes index 0 (omega arith)
            (omega (arith, write_side v, mod_cases b.capacity (b.read_pos + k) (omega arith)))
    ]

os_write_new :
    {b : RecvPacketBuffer} (bytes : List ℕ)
    → IsValid b
    → length bytes ≤ min (b.capacity - b.write_pos) (b.capacity - b.stored_size)
    → (k : ℕ) → k < length bytes
    → byte_at (os_write b bytes) (b.read_pos + b.stored_size + k) ≡ get_or bytes (0 + k) 0
unfolding os_write
os_write_new {b} bytes v fits k lt =
    ap (λ i. get_or (os_write b bytes).buffer i 0) place
    ∙ get_or-blit_inside b.buffer b.write_pos bytes k 0 (omega arith) lt
    ∙ ap (λ i. get_or bytes i 0) (let e : k ≡ 0 + k = omega arith in e)
  where
    place : (b.read_pos + b.stored_size + k) % b.capacity ≡ b.write_pos + k
    place =
        sym (mod-add-mod (b.read_pos + b.stored_size) b.capacity k)
        ∙ ap (λ x. (x + k) % b.capacity) (sym v.write_at)
        ∙ mod-eq_of_lt (omega arith)

-- WSARecv into the buffer it is given, then CommitWrite of the size: the bytes join the end of
-- the contents.
pub contents-filled :
    {b : RecvPacketBuffer} (bytes : List ℕ)
    → IsValid b
    → length bytes ≤ min (b.capacity - b.write_pos) (b.capacity - b.stored_size)
    → contents (filled (os_write b bytes) (length bytes)) ≡ contents b ++ bytes
unfolding os_write
contents-filled {b} bytes v fits =
    stretch-add (byte_at (os_write b bytes)) b.read_pos b.stored_size (length bytes)
    ∙ ap₂ ◌++◌
        (stretch-congr (byte_at (os_write b bytes)) (byte_at b) b.read_pos b.read_pos b.stored_size
          (os_write_kept bytes v fits))
        (stretch-congr (byte_at (os_write b bytes)) (λ i. get_or bytes i 0)
            (b.read_pos + b.stored_size) 0 (length bytes) (os_write_new bytes v fits)
          ∙ stretch-list bytes 0)

-- The two `memcpy` branches read the oldest `n` bytes.
pub copy_out_lem :
    {b : RecvPacketBuffer} (n : ℕ)
    → IsValid b
    → n ≤ b.capacity
    → copy_out b n ≡ stretch (byte_at b) b.read_pos n
unfolding copy_out
copy_out_lem {b} n v h = elim (Bool-cases (leb n (b.capacity - b.read_pos))) [
  | inl one ↦ rw one (
      copy-stretch b.buffer b.read_pos n 0 (ground arith)
      ∙ stretch-congr (λ i. get_or b.buffer i 0) (byte_at b) b.read_pos b.read_pos n
          (λ k lt. ap (λ i. get_or b.buffer i 0) (sym (mod-eq_of_lt (ground arith)))))
  | inr two ↦ rw two (
      let first = b.capacity - b.read_pos in
      ap₂ ◌++◌
        (copy-stretch b.buffer b.read_pos first 0 (omega arith)
          ∙ stretch-congr (λ i. get_or b.buffer i 0) (byte_at b) b.read_pos b.read_pos first
              (λ k lt. ap (λ i. get_or b.buffer i 0) (sym (mod-eq_of_lt (omega arith)))))
        (copy-stretch b.buffer 0 (n - first) 0 (omega arith)
          ∙ stretch-congr (λ i. get_or b.buffer i 0) (byte_at b) 0 (b.read_pos + first) (n - first)
              (λ k lt.
                ap (λ i. get_or b.buffer i 0)
                  (omega (arith, mod_cases b.capacity (b.read_pos + first + k) (omega arith)))))
      ∙ sym (stretch-add (byte_at b) b.read_pos first (n - first))
      ∙ ap (stretch (byte_at b) b.read_pos) (let e : first + (n - first) ≡ n = ground arith in e))
]

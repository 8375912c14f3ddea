-- ===== src/Buffer/RecvPacketBuffer/Receive.antt =====
-- One receive into the ring, as the session and the completion handler make it: `PrepareWrite`, the
-- write of WSARecv into the buffer it was handed, then `CommitWrite` of the number of bytes.
use Prim.Native.Nat.{min}
use iocpnetwork_engine.Prelude.{
  ℕ, ◌+◌, ◌-◌, ◌≤◌, ◌<◌, ◌≡◌, refl, ◌∙◌, Bool, true, List, ◌++◌, arith, length,
}
use iocpnetwork_engine.Prelude.Window.{length-blit}
use iocpnetwork_engine.Buffer.RecvPacketBuffer.{
  RecvPacketBuffer, get_writeable_size, commit_write, os_write, prepare_write,
}
use iocpnetwork_engine.Buffer.RecvPacketBuffer.Inv.{
  IsValid, filled, filled-IsValid, get_writeable_size_lem, commit_write_lem,
}
use iocpnetwork_engine.Buffer.RecvPacketBuffer.Refine.{contents, contents-filled}
use iocpnetwork_engine.Buffer.RecvPacketBuffer.Prepare.{prepare_write-IsValid}

pub receive : RecvPacketBuffer → List ℕ → Bool × RecvPacketBuffer
receive b bytes = commit_write (os_write (prepare_write b) bytes) (length bytes)

os_write-IsValid :
    {b : RecvPacketBuffer} (bytes : List ℕ)
    → IsValid b
    → length bytes ≤ min (b.capacity - b.write_pos) (b.capacity - b.stored_size)
    → IsValid (os_write b bytes)
unfolding os_write
os_write-IsValid {b} bytes v fits = record {
  ready = v.ready;
  pooled = v.pooled;
  power = v.power;
  mask = v.mask;
  small = v.small;
  header_fits = v.header_fits;
  limited = v.limited;
  room = v.room;
  storage = length-blit b.buffer b.write_pos bytes (omega arith) ∙ v.storage;
  read_in = v.read_in;
  stored_in = v.stored_in;
  write_at = v.write_at;
}

write_and_commit :
    {b : RecvPacketBuffer} (bytes : List ℕ)
    → IsValid b
    → 0 < length bytes
    → length bytes ≤ get_writeable_size b
    → let (done, r) = commit_write (os_write b bytes) (length bytes) in
      (done ≡ true) × IsValid r × (contents r ≡ contents b ++ bytes)
write_and_commit {b} bytes v some_bytes fits =
    let room : length bytes ≤ min (b.capacity - b.write_pos) (b.capacity - b.stored_size) =
      omega (arith, get_writeable_size_lem v) in
    let w = os_write-IsValid bytes v room in
    rw (accepted w room)
      (refl, filled-IsValid (length bytes) w (stays_in room), contents-filled bytes v room)
  where
    stays_in :
        length bytes ≤ min (b.capacity - b.write_pos) (b.capacity - b.stored_size)
        → (os_write b bytes).stored_size + length bytes ≤ (os_write b bytes).capacity
    stays_in room = unfold os_write in omega arith

    accepted :
        IsValid (os_write b bytes)
        → length bytes ≤ min (b.capacity - b.write_pos) (b.capacity - b.stored_size)
        → commit_write (os_write b bytes) (length bytes)
          ≡ (true, filled (os_write b bytes) (length bytes))
    accepted w room = commit_write_lem (length bytes) w ∙ unfold os_write in ground arith

-- A receive of one byte or more into a valid ring, of no more than fit the buffer handed to
-- WSARecv, succeeds: they join the end of the stored bytes, and the ring stays valid.
pub receive_lem :
    (b : RecvPacketBuffer) (bytes : List ℕ)
    → IsValid b
    → 0 < length bytes
    → length bytes ≤ get_writeable_size (prepare_write b)
    → let (done, r) = receive b bytes in
      (done ≡ true) × IsValid r × (contents r ≡ contents b ++ bytes)
unfolding receive
receive_lem b bytes v some_bytes fits =
    let (w, same) = prepare_write-IsValid v in
    rw (← same) (write_and_commit bytes w some_bytes fits)

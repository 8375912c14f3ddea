-- ===== src/Buffer/SendPacketQueue/Refuse.antt =====
-- `Enqueue` of SendPacketQueue.cpp where it refuses the packet.
use native.Mathlib.Decide.{dec_lt}
use iocpnetwork_engine.Prelude.{
  subst, ℕ, ◌≤◌, ◌<◌, ◌≡◌, refl, sym, ap, ◌∙◌, Bool, true, false, ◌&&◌, Option, none, some, List,
  [], ◌∷◌, ◌++◌, arith, ◌⊎◌, inl, inr, ltb, leb, Bool-cases,
}
use iocpnetwork_engine.Prelude.Chain.{Ptr, Absent}
use iocpnetwork_engine.Buffer.SendPacketQueue.{
  SendPacketQueue, Memory, packet_size_limit, pools_ready, write_entry, free_entry, push_back,
  enqueue,
}
use iocpnetwork_engine.Buffer.SendPacketQueue.Fifo.{
  IsValid, items, owned_entry, enqueue-push_back, enqueue_accepts, push_back_full,
  write_entry-IsValid, items-push_back, released-push_back, freed-push_back,
}

-- Where `enqueue` comes to `push_back`, and where it turns back before.
enqueue_cases :
    (q : SendPacketQueue) (m : Memory) (packet_data : Option Ptr) (packet_size : ℕ) (e : Ptr)
    → (enqueue q m packet_data packet_size (some e) ≡ (false, q, m, packet_data))
      ⊎ ((packet : Ptr) × (packet_data ≡ some packet)
          × (pools_ready q ≡ true)
          × (0 < packet_size)
          × (packet_size ≤ packet_size_limit))
unfolding enqueue
enqueue_cases q m none packet_size e = inl (ground arith)
enqueue_cases q m (some packet) packet_size e =
    elim (Bool-cases (pools_ready q && (ltb 0 packet_size && leb packet_size packet_size_limit))) [
      | inl go ↦ inr (packet, refl, ground arith, ground arith, ground arith)
      | inr stop ↦ inl (ground arith)
    ]

-- With an entry from the pool.
enqueue_refuses_entry :
    {q : SendPacketQueue} {m : Memory} (xs : List Ptr) (packet_data : Option Ptr) (packet_size : ℕ)
    (e : Ptr)
    → IsValid q m xs
    → Absent e xs
    → (enqueue q m packet_data packet_size (some e)).0 ≡ false
    → let (done, q', m', left) = enqueue q m packet_data packet_size (some e) in
      IsValid q' m' xs
      × (items m' xs ≡ items m xs)
      × (left ≡ packet_data)
      × (m'.released ≡ m.released)
enqueue_refuses_entry {q} {m} xs packet_data packet_size e v gone h =
    elim (enqueue_cases q m packet_data packet_size e) [
      | inl back ↦ subst Kept (sym back) (v, refl, refl, refl)
      | inr (packet, here, ready, positive, small) ↦
          let m1 = write_entry m e (owned_entry packet packet_size) in
          let (w, same) = write_entry-IsValid e (owned_entry packet packet_size) xs v gone in
          let made =
            ap (λ p. enqueue q m p packet_size (some e)) here
            ∙ enqueue-push_back q m packet e packet_size ready positive small in
          elim (dec_lt q.count q.max_count) [
            | yes room ↦
                let accepted =
                  enqueue_accepts xs packet e packet_size v gone ready positive small room in
                let refused : (enqueue q m (some packet) packet_size (some e)).0 ≡ false =
                  rw here at h in
                cc (accepted.0, refused)
            | no full ↦
                let (failed, stays) = push_back_full {q = q} {m = m1} e xs w gone (omega arith) in
                let full_result : enqueue q m packet_data packet_size (some e) ≡ (
                  false,
                  (push_back q m1 e).1,
                  free_entry (push_back q m1 e).2 e,
                  some packet,
                ) =
                  made ∙ rw failed in
                subst Kept (sym full_result) (
                  record { queue = stays.queue; bounded = stays.bounded },
                  items-push_back q m1 e xs ∙ same,
                  sym here,
                  released-push_back q m1 e,
                )
          ]
    ]
  where
    Kept : Bool × SendPacketQueue × Memory × Option Ptr → Type 0
    Kept r =
        IsValid r.1 r.2 xs
        × (items r.2 xs ≡ items m xs)
        × (r.3 ≡ packet_data)
        × (r.2.released ≡ m.released)

-- The entry that the pool hands out, if it has one, is none of those queued.
abbrev pub FreshEntry : Option Ptr → List Ptr → Type 0
FreshEntry none xs = Unit {0}
FreshEntry (some e) xs = Absent e xs

enqueue-no_entry :
    (q : SendPacketQueue) (m : Memory) (packet_data : Option Ptr) (packet_size : ℕ)
    → enqueue q m packet_data packet_size none ≡ (false, q, m, packet_data)
unfolding enqueue
enqueue-no_entry q m packet_data packet_size = ground arith

-- A packet that `Enqueue` into a valid queue refuses stays the caller's, whether a pool is not there,
-- the packet is none of 1 to PACKET_SIZE_LIMIT bytes, the entry pool has no entry, or the queue is at its
-- limit: the caller's pointer is kept, the queue holds what it held, and no packet was given back. An
-- entry out of the pool is taken to be none of those queued.
pub enqueue_refuses :
    {q : SendPacketQueue} {m : Memory} (xs : List Ptr) (packet_data : Option Ptr) (packet_size : ℕ)
    (entry : Option Ptr)
    → IsValid q m xs
    → FreshEntry entry xs
    → (enqueue q m packet_data packet_size entry).0 ≡ false
    → let (done, q', m', left) = enqueue q m packet_data packet_size entry in
      IsValid q' m' xs
      × (items m' xs ≡ items m xs)
      × (left ≡ packet_data)
      × (m'.released ≡ m.released)
enqueue_refuses {q} {m} xs packet_data packet_size none v fresh h =
    rw (enqueue-no_entry q m packet_data packet_size) (v, refl, refl, refl)
enqueue_refuses xs packet_data packet_size (some e) v fresh h =
    enqueue_refuses_entry xs packet_data packet_size e v fresh h

-- At its limit, with the pools there and a packet of 1 to PACKET_SIZE_LIMIT bytes, `Enqueue`
-- refuses: the packet stays the caller's, the entry goes back to its pool, and no packet is given
-- back.
pub enqueue_full :
    {q : SendPacketQueue} {m : Memory} (xs : List Ptr) (packet e : Ptr) (packet_size : ℕ)
    → IsValid q m xs
    → Absent e xs
    → pools_ready q ≡ true
    → 0 < packet_size
    → packet_size ≤ packet_size_limit
    → q.count ≡ q.max_count
    → let (done, q', m', left) = enqueue q m (some packet) packet_size (some e) in
      (done ≡ false)
      × (left ≡ some packet)
      × (m'.freed ≡ m.freed ++ e ∷ [])
      × (m'.released ≡ m.released)
enqueue_full {q} {m} xs packet e packet_size v gone ready positive small full =
    let m1 = write_entry m e (owned_entry packet packet_size) in
    let (w, _) = write_entry-IsValid e (owned_entry packet packet_size) xs v gone in
    let (failed, _) = push_back_full {q = q} {m = m1} e xs w gone full in
    rw (enqueue-push_back q m packet e packet_size ready positive small, failed)
      (refl, refl, ap (λ fs. fs ++ e ∷ []) (freed-push_back q m1 e), released-push_back q m1 e)

-- ===== src/Buffer/SendPacketQueue/Fifo.antt =====
-- The send queue of SendPacketQueue.cpp as a bounded first-in first-out queue of packets.
use iocpnetwork_engine.Prelude.{
  ℕ, ◌≤◌, ◌<◌, ◌≡◌, ◌≢◌, refl, ap, ap₂, ◌∙◌, true, false, Option, none, some, List, [], ◌∷◌, ◌++◌,
  map, arith, length-append, if◌then◌else◌,
}
use iocpnetwork_engine.Prelude.Chain.{
  Ptr, Absent, last, IsQueue, Chain-snoc, Distinct-snoc, last-snoc, last-cons, IsQueue-update,
  Absent-last,
}
use iocpnetwork_engine.Buffer.SendPacketQueue.{
  SendPacketQueue, SendPacketEntry, Memory, packet_size_limit, cleared, pools_ready, link,
  write_entry, free_entry, append_entry, push_back, enqueue,
}

abbrev pub next_of : Memory → Ptr → Option Ptr
next_of m p = (m.entries p).next

pub record IsValid (q : SendPacketQueue) (m : Memory) (xs : List Ptr) : Type 0 where
  pub queue : IsQueue (next_of m) q.head q.tail q.count xs
  pub bounded : q.count ≤ q.max_count

-- What an entry carries, its link left out.
pub record Payload : Type 0 where
  pub packet_data : Option Ptr
  pub packet_size : ℕ
  pub release_func : Option Ptr
  pub release_context : Ptr

abbrev pub payload : SendPacketEntry → Payload
payload e = record {
  packet_data = e.packet_data;
  packet_size = e.packet_size;
  release_func = e.release_func;
  release_context = e.release_context;
}

abbrev pub items : Memory → List Ptr → List Payload
items m = map (λ p. payload (m.entries p))

pub items-congr :
    (m m' : Memory) (a : Ptr) (xs : List Ptr)
    → ((b : Ptr) → b ≢ a → payload (m'.entries b) ≡ payload (m.entries b))
    → Absent a xs
    → items m' xs ≡ items m xs
items-congr m m' a [] same gone = refl
items-congr m m' a (x ∷ xs) same gone = ap₂ ◌∷◌ (same x gone.0) (items-congr m m' a xs same gone.1)

-- Writing a link changes no payload.
pub payload-link :
    (m : Memory) (p : Ptr) (n : Option Ptr) (b : Ptr)
    → payload ((link m p n).entries b) ≡ payload (m.entries b)
payload-link m p n b = ground arith

payload-push_back :
    (q : SendPacketQueue) (m : Memory) (e b : Ptr)
    → payload ((push_back q m e).2.entries b) ≡ payload (m.entries b)
unfolding push_back append_entry
payload-push_back q m e b = ground arith

pub items-push_back :
    (q : SendPacketQueue) (m : Memory) (e : Ptr) (xs : List Ptr)
    → items (push_back q m e).2 xs ≡ items m xs
items-push_back q m e [] = refl
items-push_back q m e (x ∷ xs) = ap₂ ◌∷◌ (payload-push_back q m e x) (items-push_back q m e xs)

pub released-push_back :
    (q : SendPacketQueue) (m : Memory) (e : Ptr) → (push_back q m e).2.released ≡ m.released
unfolding push_back append_entry
released-push_back q m e = ground arith

pub freed-push_back :
    (q : SendPacketQueue) (m : Memory) (e : Ptr) → (push_back q m e).2.freed ≡ m.freed
unfolding push_back append_entry
freed-push_back q m e = ground arith

-- Room: the entry goes to the end.
push_back_room :
    {q : SendPacketQueue} {m : Memory} (e : Ptr) (xs : List Ptr)
    → IsValid q m xs
    → Absent e xs
    → q.count < q.max_count
    → let (done, q', m') = push_back q m e in (done ≡ true) × IsValid q' m' (xs ++ e ∷ [])
unfolding push_back append_entry
push_back_room {q} {m} e [] v gone room = (
  ground arith,
  record {
    queue = record {
      chain = ground arith;
      distinct = (tt, tt);
      ends = ground arith;
      counted = ground arith;
    };
    bounded = ground arith;
  },
)
push_back_room {q} {m} e (x ∷ xs) v gone room = behind (last-cons x xs)
  where
    behind :
        (t : Ptr) × (last (x ∷ xs) ≡ some t)
        → ((push_back q m e).0 ≡ true)
          × IsValid (push_back q m e).1 (push_back q m e).2 (x ∷ (xs ++ e ∷ []))
    behind (t, at_end) = (
      ground arith,
      record {
        queue = record {
          chain =
              Chain-snoc (next_of m) (next_of (push_back q m e).2) t e (push_back q m e).1.head
                (x ∷ xs) (λ b bt be. ground arith) (ground arith)
                (ground (arith, Absent-last e t (x ∷ xs) gone at_end)) v.queue.distinct gone at_end
                (ground arith);
          distinct = Distinct-snoc (x ∷ xs) e v.queue.distinct gone;
          ends = ground (arith, last-snoc (x ∷ xs) e);
          counted = ground (arith, length-append (x ∷ xs) (e ∷ []));
        };
        bounded = ground arith;
      },
    )

-- No room: the queue stays as it is.
pub push_back_full :
    {q : SendPacketQueue} {m : Memory} (e : Ptr) (xs : List Ptr)
    → IsValid q m xs
    → Absent e xs
    → q.count ≡ q.max_count
    → let (done, q', m') = push_back q m e in (done ≡ false) × IsValid q' m' xs
unfolding push_back append_entry
push_back_full {q} {m} e xs v gone full = (
  ground arith,
  record {
    queue = ground (
      arith,
      IsQueue-update (next_of m) (next_of (link m e none)) e xs (λ b be. ground arith) gone v.queue,
    );
    bounded = ground arith;
  },
)

pub write_entry-IsValid :
    {q : SendPacketQueue} {m : Memory} (e : Ptr) (new : SendPacketEntry) (xs : List Ptr)
    → IsValid q m xs
    → Absent e xs
    → IsValid q (write_entry m e new) xs × (items (write_entry m e new) xs ≡ items m xs)
write_entry-IsValid {q} {m} e new xs v gone = (
  record {
    queue =
        IsQueue-update (next_of m) (next_of (write_entry m e new)) e xs (λ b be. ground arith) gone
          v.queue;
    bounded = v.bounded;
  },
  items-congr m (write_entry m e new) e xs (λ b be. ground arith) gone,
)

items-snoc :
    (m : Memory) (xs : List Ptr) (e : Ptr)
    → items m (xs ++ e ∷ []) ≡ items m xs ++ payload (m.entries e) ∷ []
items-snoc m [] e = refl
items-snoc m (x ∷ xs) e = ap (◌∷◌ (payload (m.entries x))) (items-snoc m xs e)

abbrev pub owned_entry : Ptr → ℕ → SendPacketEntry
owned_entry packet packet_size = record cleared {
  packet_data = some packet;
  packet_size = packet_size;
}

pub enqueue-push_back :
    (q : SendPacketQueue) (m : Memory) (packet e : Ptr) (packet_size : ℕ)
    → pools_ready q ≡ true
    → 0 < packet_size
    → packet_size ≤ packet_size_limit
    → enqueue q m (some packet) packet_size (some e) ≡ (
        let (pushed, q', m') = push_back q (write_entry m e (owned_entry packet packet_size)) e in
        if pushed then (true, q', m', none) else (false, q', free_entry m' e, some packet))
unfolding enqueue
enqueue-push_back q m packet e packet_size ready positive small = ground arith

-- With the pools there, a packet of 1 to PACKET_SIZE_LIMIT bytes, and an entry out of the entry pool that
-- is none of those queued, `Enqueue` into a valid queue below its limit puts the packet last, keeps the others in order, and takes it from the caller.
pub enqueue_accepts :
    {q : SendPacketQueue} {m : Memory} (xs : List Ptr) (packet e : Ptr) (packet_size : ℕ)
    → IsValid q m xs
    → Absent e xs
    → pools_ready q ≡ true
    → 0 < packet_size
    → packet_size ≤ packet_size_limit
    → q.count < q.max_count
    → let (done, q', m', left) = enqueue q m (some packet) packet_size (some e) in
      (done ≡ true)
      × IsValid q' m' (xs ++ e ∷ [])
      × (items m' (xs ++ e ∷ [])
          ≡ items m xs
            ++ record {
              packet_data = some packet;
              packet_size = packet_size;
              release_func = none;
              release_context = 0;
            }
              ∷ [])
      × (left ≡ none)
enqueue_accepts {q} {m} xs packet e packet_size v gone ready positive small room =
    let new = owned_entry packet packet_size in
    let m1 = write_entry m e new in
    let (w, same) = write_entry-IsValid e new xs v gone in
    let (done, pushed) = push_back_room {q = q} {m = m1} e xs w gone room in
    let order =
      items-snoc (push_back q m1 e).2 xs e
      ∙ ap₂ (λ is i. is ++ i ∷ []) (items-push_back q m1 e xs ∙ same)
          (payload-push_back q m1 e e) in
    rw (enqueue-push_back q m packet e packet_size ready positive small, done)
      (
        refl,
        pushed,
        order
            ∙ (let new_item : payload (m1.entries e) ≡ payload new = ground arith in
                ap (λ i. items m xs ++ i ∷ []) new_item),
        refl,
      )

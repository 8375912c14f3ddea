-- ===== src/Tests/Send.antt =====
-- A send queue with a limit of two entries, as Buffer/SendPacketQueue.cpp keeps it.
use iocpnetwork_engine.Prelude.{
  ℕ, ◌≤◌, ◌≡◌, refl, true, false, none, some, [], ◌∷◌, ◌++◌, arith, ◌==◌, if◌then◌else◌,
}
use iocpnetwork_engine.Prelude.Chain.{Absent}
use iocpnetwork_engine.Buffer.SendPacketQueue.{SendPacketQueue, Memory, cleared, enqueue, dequeue}
use iocpnetwork_engine.Buffer.SendPacketQueue.Fifo.{IsValid, items, enqueue_accepts}
use iocpnetwork_engine.Buffer.SendPacketQueue.Refuse.{enqueue_refuses, enqueue_full}
use iocpnetwork_engine.Buffer.SendPacketQueue.Dequeue.{dequeue_oldest}

-- Entries 1 and 2 carry the packets 100 and 200; entry 1 links to entry 2.
abbrev memory : Memory
memory = record {
  entries = λ p.
      if p == 1
      then record cleared { next = some 2; packet_data = some 100; packet_size = 8 }
      else if p == 2
      then record cleared { packet_data = some 200; packet_size = 9 }
      else cleared;
  released = [];
  freed = [];
  violations = 0;
}

abbrev queue_of : ℕ → SendPacketQueue
queue_of max_count = record {
  head = some 1;
  tail = some 2;
  count = 2;
  max_count = max_count;
  entry_pool = true;
  packet_pool = true;
  general_pool = true;
}

queue_of-IsValid : (n : ℕ) → 2 ≤ n → IsValid (queue_of n) memory (1 ∷ (2 ∷ []))
queue_of-IsValid n h = record {
  queue = record {
    chain = (refl, (refl, refl));
    distinct = ((omega arith, tt), (tt, tt));
    ends = refl;
    counted = refl;
  };
  bounded = h;
}

fresh : Absent 3 (1 ∷ (2 ∷ []))
fresh = (omega arith, (omega arith, tt))

enqueue_accepts_example :
    let (done, q, m, left) = enqueue (queue_of 3) memory (some 300) 10 (some 3) in
    (done ≡ true)
    × IsValid q m (1 ∷ (2 ∷ (3 ∷ [])))
    × (items m (1 ∷ (2 ∷ (3 ∷ [])))
        ≡ items memory (1 ∷ (2 ∷ []))
          ++ record {
            packet_data = some 300;
            packet_size = 10;
            release_func = none;
            release_context = 0;
          }
            ∷ [])
    × (left ≡ none)
enqueue_accepts_example =
    enqueue_accepts (1 ∷ (2 ∷ [])) 300 3 10 (queue_of-IsValid 3 (omega arith)) fresh refl
      (omega arith) (omega arith) (omega arith)

enqueue_refuses_example :
    let (done, q, m, left) = enqueue (queue_of 2) memory (some 300) 10 (some 3) in
    IsValid q m (1 ∷ (2 ∷ []))
    × (items m (1 ∷ (2 ∷ [])) ≡ items memory (1 ∷ (2 ∷ [])))
    × (left ≡ some 300)
    × (m.released ≡ [])
enqueue_refuses_example =
    enqueue_refuses (1 ∷ (2 ∷ [])) (some 300) 10 (some 3) (queue_of-IsValid 2 (omega arith)) fresh
      refused
  where
    refused : (enqueue (queue_of 2) memory (some 300) 10 (some 3)).0 ≡ false
    refused =
        (enqueue_full (1 ∷ (2 ∷ [])) 300 3 10 (queue_of-IsValid 2 (omega arith)) fresh refl
          (omega arith) (omega arith) refl).0

dequeue_example :
    let (out, q, m) = dequeue (queue_of 2) memory in
    (out ≡ some 1)
    × IsValid q m (2 ∷ [])
    × (items m (1 ∷ (2 ∷ [])) ≡ items memory (1 ∷ (2 ∷ [])))
    × ((m.entries 1).next ≡ none)
dequeue_example = dequeue_oldest 1 (2 ∷ []) (queue_of-IsValid 2 (omega arith))

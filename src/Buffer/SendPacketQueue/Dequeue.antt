-- ===== src/Buffer/SendPacketQueue/Dequeue.antt =====
-- `Dequeue` of SendPacketQueue.cpp: the oldest entry leaves.
use iocpnetwork_engine.Prelude.{
  subst, ◌-◌, ◌≡◌, refl, sym, ap, ap₂, ◌∙◌, Option, none, some, List, [], ◌∷◌, arith, if◌then◌else◌,
}
use iocpnetwork_engine.Prelude.Chain.{Ptr, is_none, Chain-update, popped_tail}
use iocpnetwork_engine.Buffer.SendPacketQueue.{SendPacketQueue, Memory, link, dequeue}
use iocpnetwork_engine.Buffer.SendPacketQueue.Fifo.{
  IsValid, next_of, items, items-congr, payload-link,
}

-- On the empty queue `Dequeue` gives nothing and changes nothing.
pub dequeue_empty : {q : SendPacketQueue} {m : Memory} → IsValid q m [] → dequeue q m ≡ (none, q, m)
unfolding dequeue
dequeue_empty v = ground arith

dequeue-head :
    (q : SendPacketQueue) (m : Memory) (x : Ptr)
    → q.head ≡ some x
    → dequeue q m ≡ (
      some x,
      record q {
        head = next_of m x;
        tail = if is_none (next_of m x) then none else q.tail;
        count = q.count - 1;
      },
      link m x none,
    )
unfolding dequeue
dequeue-head q m x h = ground arith

-- `Dequeue` of a valid queue that is not empty hands out the oldest entry, unlinked, and leaves
-- the others and every packet in order.
pub dequeue_oldest :
    {q : SendPacketQueue} {m : Memory} (x : Ptr) (xs : List Ptr)
    → IsValid q m (x ∷ xs)
    → let (out, q', m') = dequeue q m in
      (out ≡ some x)
      × IsValid q' m' xs
      × (items m' (x ∷ xs) ≡ items m (x ∷ xs))
      × ((m'.entries x).next ≡ none)
dequeue_oldest {q} {m} x xs v =
    subst
      (λ (r : Option Ptr × SendPacketQueue × Memory).
        (r.0 ≡ some x)
        × IsValid r.1 r.2 xs
        × (items r.2 (x ∷ xs) ≡ items m (x ∷ xs))
        × ((r.2.entries x).next ≡ none))
      (sym (dequeue-head q m x v.queue.chain.0))
      (
        refl,
        record {
          queue = record {
            chain =
                Chain-update (next_of m) (next_of (link m x none)) x (next_of m x) xs
                  (λ b bx. ground arith) v.queue.distinct.0 v.queue.chain.1;
            distinct = v.queue.distinct.1;
            ends =
                ap (λ t. if is_none (next_of m x) then none else t) v.queue.ends
                ∙ popped_tail (next_of m) x xs (next_of m x) v.queue.chain.1;
            counted = omega (arith, v.queue.counted);
          };
          bounded = omega (arith, v.bounded);
        },
        ap₂ ◌∷◌ (payload-link m x none x)
            (items-congr m (link m x none) x xs (λ b bx. ground arith) v.queue.distinct.0),
        ground arith,
      )

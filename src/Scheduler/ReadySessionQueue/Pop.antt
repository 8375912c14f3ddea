-- ===== src/Scheduler/ReadySessionQueue/Pop.antt =====
-- `Pop` of ReadySessionQueue.cpp: the ring gives its oldest session away.
use native.Mathlib.Nat.{mod-eq_of_lt, mod-add-mod, mod-lt}
use iocpnetwork_engine.Prelude.{
  ℕ, zero, suc, ◌+◌, ◌-◌, ◌%◌, ◌<◌, ◌≡◌, refl, sym, subst, ap, ◌∙◌, Option, none, List, [], ◌∷◌,
  arith, length-set, get_or, set, if◌then◌else◌, get_or-set_ne,
}
use iocpnetwork_engine.Prelude.Window.{stretch, stretch-congr, mod_cases}
use iocpnetwork_engine.Scheduler.ReadySessionQueue.{
  ReadySessionQueue, pop, PopResult, popped, stopped, sleeping,
}
use iocpnetwork_engine.Scheduler.ReadySessionQueue.Fifo.{IsValid, slot_at, contents}

-- What one look of `Pop` owes to a queue that holds the sessions of the list.
abbrev pub Popped : ReadySessionQueue → List (Option ℕ) → PopResult × ReadySessionQueue → Type 0
Popped q [] r = (r.0 ≡ (if q.stop_flag then stopped else sleeping)) × (r.1 ≡ q)
Popped q (x ∷ rest) r = (r.0 ≡ popped x) × IsValid r.1 × (contents r.1 ≡ rest)

rest_of : ReadySessionQueue → ReadySessionQueue
rest_of q = record q {
  slots = set q.slots q.head none;
  head = (q.head + 1) % q.capacity;
  count = q.count - 1;
}

rest_of-IsValid : {q : ReadySessionQueue} → IsValid q → 0 < q.count → IsValid (rest_of q)
unfolding rest_of
rest_of-IsValid {q} v some_left = record {
  storage = length-set q.slots q.head none ∙ v.storage;
  head_in = mod-lt (q.head + 1) (omega (arith, v.head_in));
  count_in = omega (arith, v.count_in);
  tail_at =
      v.tail_at
      ∙ ap (λ x. x % q.capacity)
          (let e : q.head + q.count ≡ q.head + 1 + (q.count - 1) = omega arith in e)
      ∙ sym (mod-add-mod (q.head + 1) q.capacity (q.count - 1));
}

contents-rest_of :
    {q : ReadySessionQueue} (n : ℕ)
    → IsValid q
    → q.count ≡ suc n
    → contents (rest_of q) ≡ stretch (slot_at q) (suc q.head) n
unfolding rest_of
contents-rest_of {q} n v e =
    ap (stretch (slot_at r) r.head) (let k : q.count - 1 ≡ n = omega (arith, e) in k)
    ∙ stretch-congr (slot_at r) (slot_at q) r.head (suc q.head) n same
  where
    r : ReadySessionQueue
    r = rest_of q

    index : (k : ℕ) → (r.head + k) % q.capacity ≡ (suc q.head + k) % q.capacity
    index k =
        mod-add-mod (q.head + 1) q.capacity k
        ∙ ap (λ x. x % q.capacity) (let s : q.head + 1 + k ≡ suc q.head + k = omega arith in s)

    same : (k : ℕ) → k < n → slot_at r (r.head + k) ≡ slot_at q (suc q.head + k)
    same k lt =
        ap (λ i. get_or (set q.slots q.head none) i none) (index k)
        ∙ get_or-set_ne q.slots none none (
            omega (
              arith,
              e,
              v.head_in,
              v.count_in,
              mod_cases q.capacity (suc q.head + k) (omega (arith, e, v.head_in, v.count_in)),
            ))

pop_some :
    (q : ReadySessionQueue) → 0 < q.count → pop q ≡ (popped (get_or q.slots q.head none), rest_of q)
unfolding pop rest_of
pop_some q h = ground arith

pop_none :
    (q : ReadySessionQueue) → q.count ≡ 0 → pop q ≡ (if q.stop_flag then stopped else sleeping, q)
unfolding pop
pop_none q h = ground arith

Popped-at :
    (q : ReadySessionQueue) (n : ℕ)
    → IsValid q
    → q.count ≡ n
    → Popped q (stretch (slot_at q) q.head n) (pop q)
Popped-at q zero v e = subst (Popped q []) (sym (pop_none q e)) (refl, refl)
Popped-at q (suc n) v e =
    subst (Popped q (slot_at q q.head ∷ stretch (slot_at q) (suc q.head) n))
      (sym (pop_some q (omega (arith, e))))
      (
        ap (λ i. popped (get_or q.slots i none)) (sym (mod-eq_of_lt v.head_in)),
        rest_of-IsValid v (omega (arith, e)),
        contents-rest_of n v e,
      )

-- A look of `Pop` takes the oldest session out and leaves the others in order, also after `WakeAll`; on
-- the empty ring it changes nothing, and ends if the stop flag is set, and sleeps if not.
pub pop_oldest : {q : ReadySessionQueue} → IsValid q → Popped q (contents q) (pop q)
pop_oldest {q} v = Popped-at q q.count v refl

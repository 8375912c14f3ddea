-- ===== src/Scheduler/ReadySessionQueue/Push.antt =====
-- `Push` of ReadySessionQueue.cpp: the ring takes a session at its end, up to its capacity.
use native.Mathlib.Nat.{mod-add-mod}
use native.Mathlib.Decide.{dec_lt}
use iocpnetwork_engine.Prelude.{
  ℕ, ◌+◌, ◌%◌, ◌≤◌, ◌<◌, ◌≡◌, refl, sym, subst, ap, ap₂, ◌∙◌, Bool, true, false, none, some, [],
  ◌∷◌, ◌++◌, arith, length, length-set, get_or, set, ltb, if◌then◌else◌, get_or-set_self,
  get_or-set_ne,
}
use iocpnetwork_engine.Prelude.Window.{length-stretch, stretch-add, stretch-congr, mod_cases}
use iocpnetwork_engine.Scheduler.ReadySessionQueue.{ReadySessionQueue, push}
use iocpnetwork_engine.Scheduler.ReadySessionQueue.Fifo.{IsValid, slot_at, contents}

pushed : ReadySessionQueue → ℕ → ReadySessionQueue
pushed q session = record q {
  slots = set q.slots q.tail (some session);
  tail = (q.tail + 1) % q.capacity;
  count = q.count + 1;
}

push_room :
    (q : ReadySessionQueue) (session : ℕ)
    → q.count < q.capacity
    → push q session ≡ (true, pushed q session)
unfolding push pushed
push_room q session room = ground arith

push_full :
    (q : ReadySessionQueue) (session : ℕ) → q.capacity ≤ q.count → push q session ≡ (false, q)
unfolding push
push_full q session full = ground arith

pushed-IsValid :
    {q : ReadySessionQueue} (session : ℕ)
    → IsValid q
    → q.count < q.capacity
    → IsValid (pushed q session)
unfolding pushed
pushed-IsValid {q} session v room = record {
  storage = length-set q.slots q.tail (some session) ∙ v.storage;
  head_in = v.head_in;
  count_in = omega arith;
  tail_at =
      ap (λ t. (t + 1) % q.capacity) v.tail_at
      ∙ mod-add-mod (q.head + q.count) q.capacity 1
      ∙ ap (λ x. x % q.capacity)
          (let e : q.head + q.count + 1 ≡ q.head + (q.count + 1) = omega arith in e);
}

contents-pushed :
    {q : ReadySessionQueue} (session : ℕ)
    → IsValid q
    → q.count < q.capacity
    → contents (pushed q session) ≡ contents q ++ some session ∷ []
unfolding pushed
contents-pushed {q} session v room =
    stretch-add (slot_at r) q.head q.count 1
    ∙ ap₂ ◌++◌ (stretch-congr (slot_at r) (slot_at q) q.head q.head q.count kept)
        (ap (λ x. x ∷ []) new)
  where
    r : ReadySessionQueue
    r = pushed q session

    kept : (k : ℕ) → k < q.count → slot_at r (q.head + k) ≡ slot_at q (q.head + k)
    kept k lt = get_or-set_ne q.slots (some session) none (
        omega (
          arith,
          v.tail_at,
          v.head_in,
          mod_cases q.capacity (q.head + k) (omega (arith, v.head_in)),
          mod_cases q.capacity (q.head + q.count) (omega (arith, v.head_in)),
        ))

    new : slot_at r (q.head + q.count) ≡ some session
    new =
        ap (λ i. get_or (set q.slots q.tail (some session)) i none) (sym v.tail_at)
        ∙ get_or-set_self q.slots q.tail (some session) none (
            omega (
              arith,
              v.tail_at,
              v.storage,
              v.head_in,
              mod_cases q.capacity (q.head + q.count) (omega (arith, v.head_in)),
            ))

-- What `Push` owes to a queue of at most `capacity` sessions.
abbrev pub Pushed : ReadySessionQueue → ℕ → Bool × ReadySessionQueue → Type 0
Pushed q session r =
    IsValid r.1
    × (r.1.capacity ≡ q.capacity)
    × (r.0 ≡ ltb (length (contents q)) q.capacity)
    × (contents r.1 ≡ (
        if ltb (length (contents q)) q.capacity
        then contents q ++ some session ∷ []
        else contents q))

-- `Push` puts the session last while fewer than `capacity` sessions are queued, and says so; on a full
-- ring it refuses and changes nothing. The ring stays valid in both cases.
pub push_bounded :
    {q : ReadySessionQueue} (session : ℕ) → IsValid q → Pushed q session (push q session)
unfolding pushed
push_bounded {q} session v = elim (dec_lt q.count q.capacity) [
  | yes room ↦ subst (Pushed q session) (sym (push_room q session room)) (
    pushed-IsValid session v room,
    refl,
    sym (here room),
    contents-pushed session v room
        ∙ ap (λ b. if b then contents q ++ some session ∷ [] else contents q) (sym (here room)),
  )
  | no full ↦ subst (Pushed q session) (sym (push_full q session (omega arith))) (
    v,
    refl,
    sym (there full),
    ap (λ b. if b then contents q ++ some session ∷ [] else contents q) (sym (there full)),
  )
]
  where
    depth : length (contents q) ≡ q.count
    depth = length-stretch (slot_at q) q.head q.count

    here : q.count < q.capacity → ltb (length (contents q)) q.capacity ≡ true
    here room = ground (arith, depth)

    there : ¬ (q.count < q.capacity) → ltb (length (contents q)) q.capacity ≡ false
    there full = ground (arith, depth)

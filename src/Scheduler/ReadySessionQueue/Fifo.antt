-- ===== src/Scheduler/ReadySessionQueue/Fifo.antt =====
-- The ready ring of ReadySessionQueue.cpp as a bounded first-in first-out queue.
use native.Mathlib.Nat.{mod-eq_of_lt}
use iocpnetwork_engine.Prelude.{
  ℕ, zero, suc, ◌+◌, ◌%◌, ◌≤◌, ◌<◌, ◌≡◌, refl, sym, subst, Bool, true, false, Option, none, List,
  [], arith, length, get_or, replicate, length-replicate,
}
use iocpnetwork_engine.Prelude.Window.{stretch}
use iocpnetwork_engine.Scheduler.ReadySessionQueue.{ReadySessionQueue, initialize}

pub record IsValid (q : ReadySessionQueue) : Type 0 where
  pub storage : length q.slots ≡ q.capacity
  pub head_in : q.head < q.capacity
  pub count_in : q.count ≤ q.capacity
  pub tail_at : q.tail ≡ (q.head + q.count) % q.capacity

abbrev pub slot_at : ReadySessionQueue → ℕ → Option ℕ
slot_at q j = get_or q.slots (j % q.capacity) none

-- What is queued, the oldest first.
abbrev pub contents : ReadySessionQueue → List (Option ℕ)
contents q = stretch (slot_at q) q.head q.count

ready : ReadySessionQueue → ℕ → ReadySessionQueue
ready q n = record q {
  allocated = true;
  slots = replicate n none;
  capacity = n;
  head = 0;
  tail = 0;
  count = 0;
  stop_flag = false;
}

initialize_cases :
    (q : ReadySessionQueue) (n : ℕ) (granted : Bool)
    → (initialize q n granted).0 ≡ true
    → (0 < n) × (initialize q n granted ≡ (true, ready q n))
unfolding initialize ready
initialize_cases q zero granted h = absurd (ground arith)
initialize_cases q (suc n) true h = (omega arith, ground arith)
initialize_cases q (suc n) false h = absurd (ground arith)

-- A ring that `Initialize` made is valid and empty, and holds as many sessions as it was asked for.
pub ready-IsValid :
    (q : ReadySessionQueue) (max_session_count : ℕ) (granted : Bool)
    → (initialize q max_session_count granted).0 ≡ true
    → let r = (initialize q max_session_count granted).1 in
      IsValid r × (contents r ≡ []) × (r.capacity ≡ max_session_count)
unfolding ready
ready-IsValid q n granted h =
    subst (λ (r : Bool × ReadySessionQueue). IsValid r.1 × (contents r.1 ≡ []) × (r.1.capacity ≡ n))
      (sym (initialize_cases q n granted h).1)
      (
        record {
          storage = length-replicate n none;
          head_in = (initialize_cases q n granted h).0;
          count_in = omega arith;
          tail_at = sym (mod-eq_of_lt (initialize_cases q n granted h).0);
        },
        refl,
        refl,
      )

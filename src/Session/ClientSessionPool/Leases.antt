-- ===== src/Session/ClientSessionPool/Leases.antt =====
-- The leases of ClientSessionPool.cpp: which sessions the free list holds, and who may have one.
use native.Mathlib.Decide.{dec_lt}
use iocpnetwork_engine.Prelude.{
  ℕ, zero, suc, ◌+◌, ◌≤◌, ◌<◌, ◌≡◌, ◌≢◌, refl, sym, subst, ap, ap₂, ◌∙◌, Option, none, some, List,
  [], ◌∷◌, if◌then◌else◌, arith, length,
}
use iocpnetwork_engine.Prelude.Chain.{update, Chain, Absent, Distinct, Chain-update}
use iocpnetwork_engine.Session.ClientSessionPool.{
  ClientSessionPool, SessionNode, SessionPoolState, free, in_use, releasing, is_state, set_state,
  acquire, get_in_use_count, busy,
}

abbrev pub next_of : ClientSessionPool → ℕ → Option ℕ
next_of p i = (p.nodes i).next_node

abbrev pub AllFree : (ℕ → SessionNode) → ℕ → List ℕ → Type 0
AllFree nodes capacity [] = Unit {0}
AllFree nodes capacity (x ∷ xs) =
    (x < capacity) × ((nodes x).pool_state ≡ free) × AllFree nodes capacity xs

-- The free list goes through `xs`, which are free sessions of the pool, each once, and no session
-- outside `xs` is free: the two counts make up the capacity.
pub record IsValid (p : ClientSessionPool) (xs : List ℕ) : Type 0 where
  pub chain : Chain (next_of p) p.free_list xs
  pub distinct : Distinct xs
  pub all_free : AllFree p.nodes p.capacity xs
  pub counted : get_in_use_count p + length xs ≡ p.capacity

abbrev pub weight : SessionPoolState → ℕ
weight s = if is_state s free then 0 else 1

-- The nodes of a later state, alike but for the session `a`.
abbrev pub ElseSame : (ℕ → SessionNode) → (ℕ → SessionNode) → ℕ → Type 0
ElseSame f g a = (b : ℕ) → b ≢ a → g b ≡ f b

busy-outside : (f g : ℕ → SessionNode) (a n : ℕ) → ElseSame f g a → n ≤ a → busy g n ≡ busy f n
busy-outside f g a zero same h = refl
busy-outside f g a (suc n) same h =
    ap₂ ◌+◌ (ap (λ v. weight v.pool_state) (same n (omega arith)))
      (busy-outside f g a n same (omega arith))

pub busy-change :
    (f g : ℕ → SessionNode) (a n : ℕ)
    → ElseSame f g a
    → a < n
    → busy g n + weight (f a).pool_state ≡ busy f n + weight (g a).pool_state
busy-change f g a zero same h = absurd (omega arith)
busy-change f g a (suc n) same h = elim (dec_lt a n) [
  | yes lt ↦
      ground
        (arith, busy-change f g a n same lt, ap (λ v. weight v.pool_state) (same n (omega arith)))
  | no ge ↦
      (let e : n ≡ a = omega arith in
        omega (
          arith,
          busy-outside f g a n same (omega arith),
          ap (λ i. weight (f i).pool_state) e,
          ap (λ i. weight (g i).pool_state) e,
        ))
]

AllFree-change :
    (f g : ℕ → SessionNode) (a n : ℕ) (xs : List ℕ)
    → ElseSame f g a
    → Absent a xs
    → AllFree f n xs
    → AllFree g n xs
AllFree-change f g a n [] same gone h = tt
AllFree-change f g a n (x ∷ xs) same gone h =
    (h.0, ap (λ v. v.pool_state) (same x gone.0) ∙ h.1, AllFree-change f g a n xs same gone.1 h.2)

-- A session that is not free is not in the free list.
pub Absent-of :
    (nodes : ℕ → SessionNode) (a n : ℕ) (xs : List ℕ)
    → (nodes a).pool_state ≢ free
    → AllFree nodes n xs
    → Absent a xs
Absent-of nodes a n [] taken h = tt
Absent-of nodes a n (x ∷ xs) taken h =
    (λ e. taken (ap (λ i. (nodes i).pool_state) (sym e) ∙ h.1), Absent-of nodes a n xs taken h.2)

-- The pool after one session has changed hands, its free list untouched or shortened by that session.
pub moved-IsValid :
    (p q : ClientSessionPool) (a : ℕ) (xs : List ℕ)
    → ElseSame p.nodes q.nodes a
    → q.capacity ≡ p.capacity
    → a < p.capacity
    → Absent a xs
    → Distinct xs
    → AllFree p.nodes p.capacity xs
    → Chain (next_of p) q.free_list xs
    → get_in_use_count p + length xs + weight (q.nodes a).pool_state
      ≡ p.capacity + weight (p.nodes a).pool_state
    → IsValid q xs
unfolding get_in_use_count
moved-IsValid p q a xs same fits lt gone apart all_free chain count = record {
  chain =
      Chain-update (next_of p) (next_of q) a q.free_list xs
        (λ b ne. ap (λ v. v.next_node) (same b ne)) gone chain;
  distinct = apart;
  all_free =
      subst (λ n. AllFree q.nodes n xs) (sym fits)
        (AllFree-change p.nodes q.nodes a p.capacity xs same gone all_free);
  counted = omega (
    arith,
    ap (busy q.nodes) fits,
    fits,
    busy-change p.nodes q.nodes a p.capacity same lt,
    count,
  );
}

-- The pool after the session `a`, which was not free, went to the front of the free list.
pub returned-IsValid :
    (p q : ClientSessionPool) (a : ℕ) (xs : List ℕ)
    → IsValid p xs
    → a < p.capacity
    → (p.nodes a).pool_state ≢ free
    → ElseSame p.nodes q.nodes a
    → q.capacity ≡ p.capacity
    → q.free_list ≡ some a
    → q.nodes a ≡ record { next_node = p.free_list; pool_state = free }
    → IsValid q (a ∷ xs)
unfolding get_in_use_count
returned-IsValid p q a xs v lt taken same fits front node = record {
  chain = (
    front,
    Chain-update (next_of p) (next_of q) a (next_of q a) xs
        (λ b ne. ap (λ n. n.next_node) (same b ne)) gone
        (subst (λ t. Chain (next_of p) t xs) (sym (ap (λ n. n.next_node) node)) v.chain),
  );
  distinct = (gone, v.distinct);
  all_free = (
    omega (arith, fits),
    ap (λ n. n.pool_state) node,
    subst (λ n. AllFree q.nodes n xs) (sym fits)
        (AllFree-change p.nodes q.nodes a p.capacity xs same gone v.all_free),
  );
  counted = omega (
    arith,
    ap (busy q.nodes) fits,
    fits,
    busy-change p.nodes q.nodes a p.capacity same lt,
    ap (λ n. weight n.pool_state) node,
    taken_weight (p.nodes a).pool_state taken,
    v.counted,
  );
}
  where
    gone : Absent a xs
    gone = Absent-of p.nodes a p.capacity xs taken v.all_free

    taken_weight : (s : SessionPoolState) → s ≢ free → weight s ≡ 1
    taken_weight free ne = absurd (ne refl)
    taken_weight in_use ne = refl
    taken_weight releasing ne = refl

-- What `Acquire` owes to a pool whose free list is the list.
abbrev pub Acquired : ClientSessionPool → List ℕ → Option ℕ × ClientSessionPool → Type 0
Acquired p [] r = (r.0 ≡ none) × (r.1 ≡ p)
Acquired p (x ∷ rest) r =
    (r.0 ≡ some x)
    × IsValid r.1 rest
    × ((p.nodes x).pool_state ≡ free)
    × ((r.1.nodes x).pool_state ≡ in_use)

leased : ClientSessionPool → ℕ → ClientSessionPool
leased p x =
    set_state
      (record p {
        free_list = next_of p x;
        nodes = update p.nodes x (record (p.nodes x) { next_node = none });
      })
      x in_use

-- `Acquire` of a valid pool leases the first session of the free list, which was free and is in
-- use then, and fails on the empty list, changing nothing. The pool stays valid.
pub acquire_lem : {p : ClientSessionPool} (xs : List ℕ) → IsValid p xs → Acquired p xs (acquire p)
unfolding acquire leased
acquire_lem {p} [] v = ground (arith, v.chain)
acquire_lem {p} (x ∷ xs) v = subst (Acquired p (x ∷ xs)) (sym taken) (
  refl,
  moved-IsValid p (leased p x) x xs (λ b ne. ground arith) refl v.all_free.0 v.distinct.0
      v.distinct.1 v.all_free.2 v.chain.1 (ground (arith, v.counted, v.all_free.1)),
  v.all_free.1,
  ground arith,
)
  where
    taken : acquire p ≡ (some x, leased p x)
    taken = ground (arith, v.chain.0, v.all_free.1)

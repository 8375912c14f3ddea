-- ===== src/Session/ClientSessionPool/Construct.antt =====
-- The constructor of ClientSessionPool.cpp, and `IsSessionFull`.
use iocpnetwork_engine.Prelude.{
  ℕ, zero, suc, ◌+◌, ◌≤◌, ◌≡◌, ◌↔◌, refl, sym, subst, ap, Bool, true, some, List, [], ◌∷◌, arith,
  length,
}
use iocpnetwork_engine.Prelude.Chain.{update, Chain, Absent, Distinct, Chain-update}
use iocpnetwork_engine.Session.ClientSessionPool.{
  ClientSessionPool, SessionNode, free, fill, unfilled, construct, get_in_use_count,
  is_session_full, busy,
}
use iocpnetwork_engine.Session.ClientSessionPool.Leases.{next_of, IsValid, AllFree, weight}

-- The ids below `n`, the highest first.
abbrev pub below : ℕ → List ℕ
below zero = []
below (suc n) = n ∷ below n

record Filled (n : ℕ) (p : ClientSessionPool) (i : ℕ) : Type 0 where
  chain : Chain (next_of p) p.free_list (below i)
  fresh : (b : ℕ) → (p.nodes b).pool_state ≡ free
  fits : p.capacity ≡ n

Absent-below : (a i : ℕ) → i ≤ a → Absent a (below i)
Absent-below a zero h = tt
Absent-below a (suc i) h = (λ e. omega (arith, e), Absent-below a i (omega arith))

Distinct-below : (i : ℕ) → Distinct (below i)
Distinct-below zero = tt
Distinct-below (suc i) = (Absent-below i i (omega arith), Distinct-below i)

placed : ClientSessionPool → ℕ → ClientSessionPool
placed q i = record q {
  nodes = update q.nodes i (record (q.nodes i) { next_node = q.free_list });
  free_list = some i;
}

fill-suc :
    (p : ClientSessionPool) (fits : ℕ → Bool) (i : ℕ)
    → (fill p fits (suc i)).0 ≡ true
    → ((fill p fits i).0 ≡ true) × (fill p fits (suc i) ≡ (true, placed (fill p fits i).1 i))
unfolding placed
fill-suc p fits i h = (ground arith, ground arith)

placed-Filled :
    {n : ℕ} (p : ClientSessionPool) (i : ℕ) → Filled n p i → Filled n (placed p i) (suc i)
unfolding placed
placed-Filled p i f = record {
  chain = (
    refl,
    Chain-update (next_of p) (next_of (placed p i)) i (next_of (placed p i) i) (below i)
        (λ b ne. ground arith) (Absent-below i i (omega arith))
        (subst (λ t. Chain (next_of p) t (below i))
          (let e : p.free_list ≡ next_of (placed p i) i = ground arith in e) f.chain),
  );
  fresh = λ b. ground (arith, f.fresh b, f.fresh i);
  fits = f.fits;
}

fill-Filled :
    (n : ℕ) (fits : ℕ → Bool) (i : ℕ)
    → (fill (unfilled n) fits i).0 ≡ true
    → Filled n (fill (unfilled n) fits i).1 i
fill-Filled n fits zero h = record { chain = refl; fresh = λ b. refl; fits = refl }
fill-Filled n fits (suc i) h =
    let (before, e) = fill-suc (unfilled n) fits i h in
    subst (λ (r : Bool × ClientSessionPool). Filled n r.1 (suc i)) (sym e)
      (placed-Filled (fill (unfilled n) fits i).1 i (fill-Filled n fits i before))

AllFree-fresh :
    (f : ℕ → SessionNode) (n i : ℕ)
    → ((b : ℕ) → (f b).pool_state ≡ free)
    → i ≤ n
    → AllFree f n (below i)
AllFree-fresh f n zero fresh h = tt
AllFree-fresh f n (suc i) fresh h = (omega arith, fresh i, AllFree-fresh f n i fresh (omega arith))

count-fresh :
    (f : ℕ → SessionNode) (i : ℕ)
    → ((b : ℕ) → (f b).pool_state ≡ free)
    → busy f i + length (below i) ≡ i
count-fresh f zero fresh = refl
count-fresh f (suc i) fresh = omega (arith, count-fresh f i fresh, ap weight (fresh i))

fill-ready : (p : ClientSessionPool) (fits : ℕ → Bool) (i : ℕ) → (fill p fits i).1.ready ≡ p.ready
fill-ready p fits zero = refl
fill-ready p fits (suc i) = ground (arith, fill-ready p fits i)

construct_cases :
    (fits : ℕ → Bool) (capacity : ℕ)
    → (construct fits capacity).ready ≡ true
    → let (fine, p) = fill (unfilled capacity) fits capacity in
      (fine ≡ true) × (construct fits capacity ≡ record p { ready = true })
unfolding construct
construct_cases fits n h =
    (ground (arith, fill-ready (unfilled n) fits n), ground (arith, fill-ready (unfilled n) fits n))

Filled-IsValid : {n : ℕ} {p : ClientSessionPool} → Filled n p n → IsValid p (below n)
unfolding get_in_use_count
Filled-IsValid {n} {p} f = record {
  chain = f.chain;
  distinct = Distinct-below n;
  all_free = AllFree-fresh p.nodes p.capacity n f.fresh (omega (arith, f.fits));
  counted = omega (arith, ap (busy p.nodes) f.fits, f.fits, count-fresh p.nodes n f.fresh);
}

-- A pool that came up, that is whose `m_ready` the constructor set, has every session free and in its
-- free list.
pub construct-IsValid :
    (fits : ℕ → Bool) (capacity : ℕ)
    → (construct fits capacity).ready ≡ true
    → IsValid (construct fits capacity) (below capacity)
construct-IsValid fits n h =
    let (fine, e) = construct_cases fits n h in
    let f : Filled n (fill (unfilled n) fits n).1 n = fill-Filled n fits n fine in
    subst (λ p. IsValid p (below n)) (sym e)
      (Filled-IsValid (record { chain = f.chain; fresh = f.fresh; fits = f.fits }))

-- `IsSessionFull` says whether all sessions are in use or being released.
pub is_session_full_iff :
    {p : ClientSessionPool} (xs : List ℕ)
    → IsValid p xs
    → (is_session_full p ≡ true) ↔ (get_in_use_count p ≡ p.capacity)
unfolding is_session_full
is_session_full_iff {p} [] v = (λ h. omega (arith, v.counted), λ h. ground (arith, v.chain))
is_session_full_iff {p} (x ∷ xs) v =
    (λ h. absurd (ground (arith, h, v.chain.0)), λ h. absurd (omega (arith, h, v.counted)))

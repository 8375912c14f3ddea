-- ===== src/Session/ClientSessionPool/Releases.antt =====
-- `Release` and `CompleteRelease` of ClientSessionPool.cpp: how a lease ends.
use iocpnetwork_engine.Prelude.{
  ℕ, ◌<◌, ◌≡◌, ◌≢◌, refl, sym, subst, ap, Bool, true, false, List, ◌∷◌, if◌then◌else◌, arith,
}
use iocpnetwork_engine.Prelude.Chain.{Chain}
use iocpnetwork_engine.Session.ClientSessionPool.{
  ClientSessionPool, SessionPoolState, free, in_use, releasing, set_state, release,
  complete_release, notify_service_disconnect, close_socket, cancel_pending_io,
}
use iocpnetwork_engine.Session.ClientSessionPool.Leases.{
  next_of, IsValid, ElseSame, weight, Absent-of, moved-IsValid, returned-IsValid,
}

notify_same :
    (p : ClientSessionPool) (i : ℕ)
    → ((notify_service_disconnect p i).nodes ≡ p.nodes)
      × ((notify_service_disconnect p i).capacity ≡ p.capacity)
      × ((notify_service_disconnect p i).free_list ≡ p.free_list)
unfolding notify_service_disconnect
notify_same p i = (ground arith, ground arith, ground arith)

-- `CompleteRelease` puts a session that is not free at the front of the free list.
pub complete_release-IsValid :
    {p : ClientSessionPool} (i : ℕ) (xs : List ℕ)
    → IsValid p xs
    → i < p.capacity
    → (p.nodes i).pool_state ≢ free
    → IsValid (complete_release p i) (i ∷ xs)
unfolding complete_release
complete_release-IsValid {p} i xs v lt taken =
    returned-IsValid p (complete_release p i) i xs v lt taken
      (λ b ne. ground (arith, notify_same closed i)) (ground (arith, notify_same closed i))
      (ground arith) (ground (arith, notify_same closed i))
  where
    closed : ClientSessionPool
    closed = if p.has_close then record p { calls = close_socket i ∷ p.calls } else p

-- What `Release` of the session `i` owes when `RequestRelease` answers `requested`.
abbrev pub Released : ClientSessionPool → List ℕ → ℕ → Bool → ClientSessionPool → Type 0
Released p xs i true q = IsValid q (i ∷ xs) × ((q.nodes i).pool_state ≡ free)
Released p xs i false q = IsValid q xs × ((q.nodes i).pool_state ≡ releasing)

releasing_of : ClientSessionPool → ℕ → ClientSessionPool
releasing_of p i =
    let a : ClientSessionPool = set_state p i releasing in
    if a.connected i then record a { calls = cancel_pending_io i ∷ a.calls } else a

releasing_of_same :
    (p : ClientSessionPool) (i : ℕ)
    → (ElseSame p.nodes (releasing_of p i).nodes i)
      × ((releasing_of p i).nodes i ≡ record (p.nodes i) { pool_state = releasing })
      × ((releasing_of p i).capacity ≡ p.capacity)
      × ((releasing_of p i).free_list ≡ p.free_list)
unfolding releasing_of
releasing_of_same p i = (λ b ne. ground arith, ground arith, ground arith, ground arith)

releasing_of-IsValid :
    {p : ClientSessionPool} (i : ℕ) (xs : List ℕ)
    → IsValid p xs
    → i < p.capacity
    → (p.nodes i).pool_state ≡ in_use
    → IsValid (releasing_of p i) xs
releasing_of-IsValid {p} i xs v lt used =
    let (same, node, fits, front) = releasing_of_same p i in
    moved-IsValid p (releasing_of p i) i xs same fits lt
      (Absent-of p.nodes i p.capacity xs (λ e. ground (arith, e, used)) v.all_free) v.distinct
      v.all_free (subst (λ t. Chain (next_of p) t xs) (sym front) v.chain)
      (omega (arith, v.counted, ap (λ n. weight n.pool_state) node, ap weight used))

complete_release-free :
    (p : ClientSessionPool) (i : ℕ)
    → i < p.capacity
    → ((complete_release p i).nodes i).pool_state ≡ free
unfolding complete_release
complete_release-free p i lt = ground arith

release_used :
    (p : ClientSessionPool) (i : ℕ) (requested : Bool)
    → i < p.capacity
    → (p.nodes i).pool_state ≡ in_use
    → release p i requested
      ≡ (if requested then complete_release (releasing_of p i) i else releasing_of p i)
unfolding release releasing_of
release_used p i requested lt used = ground (arith, used)

-- `Release` of a session of a valid pool that is in use ends the lease: if no I/O is outstanding
-- the session is free again, at the front of the free list; else it stays in the state releasing,
-- where nobody can lease it. The pool stays valid.
pub release_lem :
    {p : ClientSessionPool} (i : ℕ) (xs : List ℕ) (requested : Bool)
    → IsValid p xs
    → i < p.capacity
    → (p.nodes i).pool_state ≡ in_use
    → Released p xs i requested (release p i requested)
release_lem {p} i xs true v lt used =
    let (same, node, fits, front) = releasing_of_same p i in
    subst (Released p xs i true) (sym (release_used p i true lt used)) (
      complete_release-IsValid i xs (releasing_of-IsValid i xs v lt used) (omega (arith, fits, lt))
          (λ e. ground (arith, e, node)),
      complete_release-free (releasing_of p i) i (omega (arith, fits, lt)),
    )
release_lem {p} i xs false v lt used =
    subst (Released p xs i false) (sym (release_used p i false lt used))
      (releasing_of-IsValid i xs v lt used, ap (λ n. n.pool_state) (releasing_of_same p i).1)

-- A second `Release` of a session that is being released, or is free, changes nothing.
pub release_again :
    (p : ClientSessionPool) (i : ℕ) (requested : Bool)
    → (p.nodes i).pool_state ≢ in_use
    → release p i requested ≡ p
unfolding release
release_again p i requested other = other_state (p.nodes i).pool_state refl
  where
    other_state : (s : SessionPoolState) → (p.nodes i).pool_state ≡ s → release p i requested ≡ p
    other_state free e = ground (arith, e)
    other_state in_use e = absurd (other e)
    other_state releasing e = ground (arith, e)

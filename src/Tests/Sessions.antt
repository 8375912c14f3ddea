-- ===== src/Tests/Sessions.antt =====
-- The release of one session, and a pool of two sessions.
use iocpnetwork_engine.Prelude.{ℕ, ◌≤◌, ◌<◌, ◌≡◌, refl, Bool, true, false, [], ◌∷◌, arith}
use iocpnetwork_engine.Prelude.Schedule.{first}
use iocpnetwork_engine.Session.ReleaseProtocol.{
  System, Reach, here, next, run, request, requesting, mark, check, take, start, step, take_pending,
  request_release,
}
use iocpnetwork_engine.Session.ReleaseProtocol.Inv.{release_at_most_once, release_not_lost}
use iocpnetwork_engine.Session.ClientSessionPool.{ClientSessionPool, construct, acquire, release}
use iocpnetwork_engine.Session.ClientSessionPool.Leases.{IsValid, Acquired, acquire_lem}
use iocpnetwork_engine.Session.ClientSessionPool.Releases.{Released, release_lem}
use iocpnetwork_engine.Session.ClientSessionPool.Construct.{below, construct-IsValid}

-- The release is requested while no I/O is counted, and its thread runs to the end.
abbrev released : System
released = record (start) { shared = record (start.shared) { requested = 1; completed = 1 } }

released-Reach : Reach released
unfolding step request_release take_pending
released-Reach =
    next
      (next (next (next here request) (run (requesting mark) [] first))
        (run (requesting check) [] first))
      (run (requesting take) [] first)

release_at_most_once_example : (released.shared.completed ≤ 1) × (released.shared.violations ≡ 0)
release_at_most_once_example = release_at_most_once released-Reach refl

release_not_lost_example :
    (released.shared.completed ≡ 1) × (released.shared.release_pending ≡ false)
release_not_lost_example = release_not_lost released-Reach refl refl refl

abbrev all_fit : ℕ → Bool
all_fit i = true

up : (construct all_fit 2).ready ≡ true
unfolding construct
up = refl

fresh-IsValid : IsValid (construct all_fit 2) (1 ∷ (0 ∷ []))
fresh-IsValid = record {
  chain = made.chain;
  distinct = made.distinct;
  all_free = made.all_free;
  counted = made.counted;
}
  where
    made : IsValid (construct all_fit 2) (below 2)
    made = construct-IsValid all_fit 2 up

acquire_example : Acquired (construct all_fit 2) (1 ∷ (0 ∷ [])) (acquire (construct all_fit 2))
acquire_example = acquire_lem (1 ∷ (0 ∷ [])) fresh-IsValid

-- The pool after one session was leased.
abbrev leased : ClientSessionPool
leased = (acquire (construct all_fit 2)).1

leased-IsValid : IsValid leased (0 ∷ [])
leased-IsValid = (acquire_lem (1 ∷ (0 ∷ [])) fresh-IsValid).1

leased_fits : 1 < leased.capacity
unfolding construct acquire
leased_fits = omega arith

release_example : Released leased (0 ∷ []) 1 false (release leased 1 false)
release_example =
    release_lem 1 (0 ∷ []) false leased-IsValid leased_fits
      (acquire_lem (1 ∷ (0 ∷ [])) fresh-IsValid).3

-- ===== src/Session/Sending/Moves.antt =====
-- Every step of the threads of Session/Sending keeps the tokens in order.
use iocpnetwork_engine.Prelude.{
  ℕ, ◌+◌, ◌≤◌, ◌≡◌, refl, true, List, [], ◌∷◌, ◌++◌, length, arith, length-append,
}
use iocpnetwork_engine.Prelude.Schedule.{Pick, put_back, total, Pick-total}
use iocpnetwork_engine.Session.ClientSession.{ClientSession, check_send_packet}
use iocpnetwork_engine.Session.Sending.{
  Answers, TryPc, acquire, take_next, give_back, recheck, PostPc, aim, look_cancel, begin, send,
  Then, stop, report, try_next, Thread, enqueueing, trying, posting, completed, clearing, freeing,
  reporting, System, step,
}
use iocpnetwork_engine.Session.Sending.Inv.{
  Inv, is_void, voids, owns, works, looks, aims, quits, fails, total-works,
}

-- What taking a thread out of those at work does to each sum.
pub record Picked (t : Thread) (ts us : List Thread) : Type 0 where
  pub owning : total owns ts ≡ owns t + total owns us
  pub working : total works ts ≡ works t + total works us
  pub looking : total looks ts ≡ looks t + total looks us
  pub aiming : total aims ts ≡ aims t + total aims us
  pub quitting : total quits ts ≡ quits t + total quits us
  pub failing : total fails ts ≡ fails t + total fails us
  pub nested : (total aims us ≤ total works us) × (total works us ≤ total owns us)

pub Pick-Picked : {t : Thread} {ts us : List Thread} → Pick t ts us → Picked t ts us
Pick-Picked {t} {us = us} p = record {
  owning = Pick-total owns t p;
  working = Pick-total works t p;
  looking = Pick-total looks t p;
  aiming = Pick-total aims t p;
  quitting = Pick-total quits t p;
  failing = Pick-total fails t p;
  nested = total-works us;
}

abbrev pub After : Answers → System → Thread → List Thread → Type 0
After a s t rest = Inv (record {
  shared = (step a s.shared t).shared;
  threads = put_back (step a s.shared t).next rest;
})

pub posting-Inv :
    (a : Answers) (s : System) (pc : PostPc) (rest : List Thread)
    → Picked (posting pc) s.threads rest
    → Inv s
    → After a s (posting pc) rest
unfolding step
posting-Inv a s aim rest k v =
    ground (arith, k, v, v.stall, v.waiting, v.quit, v.fail, v.aimed, v.given_back)
posting-Inv a s look_cancel rest k v =
    ground (arith, k, v, v.stall, v.waiting, v.quit, v.fail, v.aimed, v.given_back)
posting-Inv a s begin rest k v =
    ground (arith, k, v, v.stall, v.waiting, v.quit, v.fail, v.aimed, v.given_back)
posting-Inv a s send rest k v =
    ground (arith, k, v, v.stall, v.waiting, v.quit, v.fail, v.aimed, v.given_back)

pub clearing-Inv :
    (a : Answers) (s : System) (w : Then) (rest : List Thread)
    → Picked (clearing w) s.threads rest
    → Inv s
    → After a s (clearing w) rest
unfolding step
clearing-Inv a s stop rest k v =
    ground (arith, k, v, v.stall, v.waiting, v.quit, v.fail, v.aimed, v.given_back)
clearing-Inv a s report rest k v =
    ground (arith, k, v, v.stall, v.waiting, v.quit, v.fail, v.aimed, v.given_back)
clearing-Inv a s try_next rest k v =
    ground (arith, k, v, v.stall, v.waiting, v.quit, v.fail, v.aimed, v.given_back)

pub freeing-Inv :
    (a : Answers) (s : System) (w : Then) (rest : List Thread)
    → Picked (freeing w) s.threads rest
    → Inv s
    → After a s (freeing w) rest
unfolding step
freeing-Inv a s stop rest k v =
    ground (arith, k, v, v.stall, v.waiting, v.quit, v.fail, v.aimed, v.given_back)
freeing-Inv a s report rest k v =
    ground (arith, k, v, v.stall, v.waiting, v.quit, v.fail, v.aimed, v.given_back)
freeing-Inv a s try_next rest k v =
    ground (arith, k, v, v.stall, v.waiting, v.quit, v.fail, v.aimed, v.given_back)

pub reporting-Inv :
    (a : Answers) (s : System) (rest : List Thread)
    → Picked reporting s.threads rest
    → Inv s
    → After a s reporting rest
unfolding step
reporting-Inv a s rest k v =
    ground (arith, k, v, v.stall, v.waiting, v.quit, v.fail, v.aimed, v.given_back)

pub completed-Inv :
    (a : Answers) (s : System) (n : ℕ) (rest : List Thread)
    → Picked (completed n) s.threads rest
    → Inv s
    → After a s (completed n) rest
unfolding step
completed-Inv a s n rest k v =
    ground (arith, k, v, v.stall, v.waiting, v.quit, v.fail, v.aimed, v.given_back)

pub trying-Inv :
    (a : Answers) (s : System) (pc : TryPc) (rest : List Thread)
    → Picked (trying pc) s.threads rest
    → Inv s
    → After a s (trying pc) rest
unfolding step
trying-Inv a s acquire rest k v =
    ground (arith, k, v, v.stall, v.waiting, v.quit, v.fail, v.aimed, v.given_back)
trying-Inv a s take_next rest k v =
    ground (arith, k, v, v.stall, v.waiting, v.quit, v.fail, v.aimed, v.given_back)
trying-Inv a s give_back rest k v =
    ground (arith, k, v, v.stall, v.waiting, v.quit, v.fail, v.aimed, v.given_back)
trying-Inv a s recheck rest k v =
    ground (arith, k, v, v.stall, v.waiting, v.quit, v.fail, v.aimed, v.given_back)

-- What `EnqueueSendPacket` lets through has bytes.
check_send_packet_filled :
    (s : ClientSession) (packet : List ℕ)
    → check_send_packet s packet (length packet) ≡ true
    → is_void packet ≡ 0
unfolding check_send_packet
check_send_packet_filled s [] e = cc
check_send_packet_filled s (x ∷ xs) e = refl

voids-append :
    (q : List (List ℕ)) (packet : List ℕ) → voids (q ++ (packet ∷ [])) ≡ voids q + is_void packet
voids-append [] packet = omega arith
voids-append (p ∷ q) packet = omega (arith, voids-append q packet)

pub enqueueing-Inv :
    (a : Answers) (s : System) (packet : List ℕ) (rest : List Thread)
    → Picked (enqueueing packet) s.threads rest
    → Inv s
    → After a s (enqueueing packet) rest
unfolding step
enqueueing-Inv a s packet rest k v = ground (
  arith,
  k,
  v,
  v.stall,
  v.waiting,
  v.quit,
  v.fail,
  v.aimed,
  v.given_back,
  length-append s.shared.queue (packet ∷ []),
  voids-append s.shared.queue packet,
  check_send_packet_filled a.session packet,
)

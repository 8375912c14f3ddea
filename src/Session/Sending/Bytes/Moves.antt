-- ===== src/Session/Sending/Bytes/Moves.antt =====
-- Every step of the threads of Session/Sending keeps account of its bytes.
use iocpnetwork_engine.Prelude.{ℕ, ◌+◌, List, ◌++◌, arith, append-nil, append_assoc}
use iocpnetwork_engine.Prelude.Pieces.{concat, concat-append, take_zero, take_all, take_none}
use iocpnetwork_engine.Prelude.Schedule.{put_back, total}
use iocpnetwork_engine.Session.Sending.{
  Answers, TryPc, acquire, take_next, give_back, recheck, PostPc, aim, look_cancel, begin, send,
  Then, stop, report, try_next, Thread, enqueueing, trying, posting, completed, clearing, freeing,
  reporting, System, bytes, step,
}
use iocpnetwork_engine.Session.Sending.Inv.{Inv}
use iocpnetwork_engine.Session.Sending.Bytes.{Data, Rest, amount, Quiet_lem}

abbrev pub After : Answers → System → Thread → List Thread → Type 0
After a s t rest = Data (record {
  shared = (step a s.shared t).shared;
  threads = put_back (step a s.shared t).next rest;
})

pub posting-Data :
    (a : Answers) (s : System) (pc : PostPc) (rest : List Thread)
    → Rest (posting pc) s.threads rest
    → Inv s
    → Data s
    → After a s (posting pc) rest
unfolding step
posting-Data a s aim rest k v d =
    ground
      (arith, k, k.picked, v, v.aimed, Quiet_lem rest, d.on_wire, d.in_order, d.loaded, d.ended)
posting-Data a s look_cancel rest k v d =
    ground
      (arith, k, k.picked, v, v.aimed, Quiet_lem rest, d.on_wire, d.in_order, d.loaded, d.ended)
posting-Data a s begin rest k v d =
    ground
      (arith, k, k.picked, v, v.aimed, Quiet_lem rest, d.on_wire, d.in_order, d.loaded, d.ended)
posting-Data a s send rest k v d =
    ground
      (arith, k, k.picked, v, v.aimed, Quiet_lem rest, d.on_wire, d.in_order, d.loaded, d.ended)

pub freeing-Data :
    (a : Answers) (s : System) (pc : Then) (rest : List Thread)
    → Rest (freeing pc) s.threads rest
    → Inv s
    → Data s
    → After a s (freeing pc) rest
unfolding step
freeing-Data a s stop rest k v d =
    ground
      (arith, k, k.picked, v, v.aimed, Quiet_lem rest, d.on_wire, d.in_order, d.loaded, d.ended)
freeing-Data a s report rest k v d =
    ground
      (arith, k, k.picked, v, v.aimed, Quiet_lem rest, d.on_wire, d.in_order, d.loaded, d.ended)
freeing-Data a s try_next rest k v d =
    ground
      (arith, k, k.picked, v, v.aimed, Quiet_lem rest, d.on_wire, d.in_order, d.loaded, d.ended)

pub trying-Data :
    (a : Answers) (s : System) (pc : TryPc) (rest : List Thread)
    → Rest (trying pc) s.threads rest
    → Inv s
    → Data s
    → After a s (trying pc) rest
unfolding step
trying-Data a s acquire rest k v d =
    ground
      (arith, k, k.picked, v, v.aimed, Quiet_lem rest, d.on_wire, d.in_order, d.loaded, d.ended)
trying-Data a s take_next rest k v d = ground (
  arith,
  k,
  k.picked,
  v,
  v.aimed,
  Quiet_lem rest,
  d.on_wire,
  d.in_order,
  d.loaded,
  d.ended,
  append-nil s.shared.sent,
  take_none ℕ (s.shared.send_offset + total amount s.threads),
  take_zero
      ((step a s.shared (trying take_next)).shared.send_offset
        + total amount (put_back (step a s.shared (trying take_next)).next rest))
      (bytes (step a s.shared (trying take_next)).shared.current_send_packet),
)
trying-Data a s give_back rest k v d =
    ground
      (arith, k, k.picked, v, v.aimed, Quiet_lem rest, d.on_wire, d.in_order, d.loaded, d.ended)
trying-Data a s recheck rest k v d =
    ground
      (arith, k, k.picked, v, v.aimed, Quiet_lem rest, d.on_wire, d.in_order, d.loaded, d.ended)

pub clearing-Data :
    (a : Answers) (s : System) (pc : Then) (rest : List Thread)
    → Rest (clearing pc) s.threads rest
    → Inv s
    → Data s
    → After a s (clearing pc) rest
unfolding step
clearing-Data a s stop rest k v d =
    ground
      (arith, k, k.picked, v, v.aimed, Quiet_lem rest, d.on_wire, d.in_order, d.loaded, d.ended)
clearing-Data a s report rest k v d =
    ground
      (arith, k, k.picked, v, v.aimed, Quiet_lem rest, d.on_wire, d.in_order, d.loaded, d.ended)
clearing-Data a s try_next rest k v d = ground (
  arith,
  k,
  k.picked,
  v,
  v.aimed,
  Quiet_lem rest,
  d.on_wire,
  d.in_order,
  d.loaded,
  d.ended,
  take_all s.shared.send_offset (bytes s.shared.current_send_packet),
  take_all (s.shared.send_offset + total amount s.threads) (bytes s.shared.current_send_packet),
  append-nil s.shared.sent,
  append-nil (s.shared.sent ++ bytes s.shared.current_send_packet),
  append_assoc s.shared.sent (bytes s.shared.current_send_packet) (concat s.shared.queue),
)

pub completed-Data :
    (a : Answers) (s : System) (n : ℕ) (rest : List Thread)
    → Rest (completed n) s.threads rest
    → Inv s
    → Data s
    → After a s (completed n) rest
unfolding step
completed-Data a s n rest k v d =
    ground
      (arith, k, k.picked, v, v.aimed, Quiet_lem rest, d.on_wire, d.in_order, d.loaded, d.ended)

pub reporting-Data :
    (a : Answers) (s : System) (rest : List Thread)
    → Rest reporting s.threads rest
    → Inv s
    → Data s
    → After a s reporting rest
unfolding step
reporting-Data a s rest k v d =
    ground
      (arith, k, k.picked, v, v.aimed, Quiet_lem rest, d.on_wire, d.in_order, d.loaded, d.ended)

pub enqueueing-Data :
    (a : Answers) (s : System) (packet : List ℕ) (rest : List Thread)
    → Rest (enqueueing packet) s.threads rest
    → Inv s
    → Data s
    → After a s (enqueueing packet) rest
unfolding step
enqueueing-Data a s packet rest k v d = ground (
  arith,
  k,
  k.picked,
  v,
  v.aimed,
  Quiet_lem rest,
  d.on_wire,
  d.in_order,
  d.loaded,
  d.ended,
  concat-append s.shared.queue packet,
  append_assoc (bytes s.shared.current_send_packet) (concat s.shared.queue) packet,
  append_assoc s.shared.sent (bytes s.shared.current_send_packet ++ concat s.shared.queue) packet,
)

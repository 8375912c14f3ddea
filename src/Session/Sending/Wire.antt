-- ===== src/Session/Sending/Wire.antt =====
-- What Session/ClientSession.cpp puts on the wire: the bytes of the accepted packets, in their order.
use iocpnetwork_engine.Prelude.{
  ℕ, ◌+◌, ◌≡◌, false, List, [], ◌++◌, arith, take, drop, append-nil, append_assoc, take-append-drop,
}
use iocpnetwork_engine.Prelude.Schedule.{Pick, total, Pick-total}
use iocpnetwork_engine.Session.Sending.{
  Answers, Thread, enqueueing, trying, posting, completed, clearing, freeing, reporting, System,
  Step, run, enqueue, complete, cancel, start, Reach, here, next, bytes,
}
use iocpnetwork_engine.Session.Sending.Inv.{Inv}
use iocpnetwork_engine.Session.Sending.Moves.{Pick-Picked}
use iocpnetwork_engine.Session.Sending.Reached.{Reach-Inv, nothing_left}
use iocpnetwork_engine.Prelude.Pieces.{concat, concat_none, take-add, drop_none}
use iocpnetwork_engine.Session.Sending.Bytes.{Data, Rest, amount, loads, ends, Quiet_lem}
use iocpnetwork_engine.Session.Sending.Bytes.Moves.{
  After, posting-Data, freeing-Data, trying-Data, clearing-Data, completed-Data, reporting-Data,
  enqueueing-Data,
}

Pick-Rest : {t : Thread} {ts us : List Thread} → Pick t ts us → Rest t ts us
Pick-Rest {t} p = record {
  picked = Pick-Picked p;
  amounts = Pick-total amount t p;
  loading = Pick-total loads t p;
  ending = Pick-total ends t p;
}

run-Data :
    (a : Answers) (s : System) (t : Thread) (rest : List Thread)
    → Rest t s.threads rest
    → Inv s
    → Data s
    → After a s t rest
run-Data a s (enqueueing packet) rest k v d = enqueueing-Data a s packet rest k v d
run-Data a s (trying pc) rest k v d = trying-Data a s pc rest k v d
run-Data a s (posting pc) rest k v d = posting-Data a s pc rest k v d
run-Data a s (completed n) rest k v d = completed-Data a s n rest k v d
run-Data a s (clearing w) rest k v d = clearing-Data a s w rest k v d
run-Data a s (freeing w) rest k v d = freeing-Data a s w rest k v d
run-Data a s reporting rest k v d = reporting-Data a s rest k v d

Step-Data : {s t : System} → Step s t → Inv s → Data s → Data t
Step-Data {s} (run a t rest p) v d = run-Data a s t rest (Pick-Rest p) v d
Step-Data (enqueue packet) v d = ground (arith, v, d.on_wire, d.in_order, d.loaded, d.ended)
Step-Data {s} (complete k n e le) v d =
    let current = bytes s.shared.current_send_packet in
    let offset = s.shared.send_offset in
    ground (
      arith,
      v,
      d.on_wire,
      d.in_order,
      d.loaded,
      d.ended,
      Quiet_lem s.threads,
      take-add offset n current,
      append_assoc s.shared.sent (take offset current) (take n (drop offset current)),
    )
Step-Data cancel v d = ground (arith, v, d.on_wire, d.in_order, d.loaded, d.ended)

start-Data : Data start
start-Data = ground arith

Reach-Data : {s : System} → Reach s → Data s
Reach-Data here = start-Data
Reach-Data (next r st) = Step-Data st (Reach-Inv r) (Reach-Data r)

-- Under every schedule, as long as no packet was given back unsent, the bytes that the system took,
-- followed by what remains of the current packet and by the packets in the send queue, are the bytes
-- of the accepted packets in their order: none is lost, sent twice or sent out of turn.
pub wire_lem :
    {s : System}
    → Reach s
    → s.shared.dropped ≡ 0
    → s.shared.accepted
      ≡ s.shared.wire
        ++ (drop
              (s.shared.send_offset + total amount s.threads)
              (bytes s.shared.current_send_packet)
            ++ concat s.shared.queue)
wire_lem {s} r kept =
    let d = Reach-Data r in
    let current = bytes s.shared.current_send_packet in
    let done = s.shared.send_offset + total amount s.threads in
    ground (
      arith,
      d.on_wire kept,
      d.in_order kept,
      take-append-drop done current,
      append_assoc s.shared.sent (take done current) (drop done current ++ concat s.shared.queue),
      append_assoc (take done current) (drop done current) (concat s.shared.queue),
    )

-- However the threads interleave, once none of them is at work and no send is with the system, no I/O
-- was cancelled, and no send was refused, the system has taken exactly the bytes of the accepted
-- packets, in their order.
pub all_sent :
    {s : System}
    → Reach s
    → s.threads ≡ []
    → s.shared.posted ≡ 0
    → s.shared.cancel_io ≡ false
    → s.shared.failures ≡ 0
    → s.shared.wire ≡ s.shared.accepted
all_sent {s} r none_left idle not_cancelled no_failure =
    let (queue, current, token, kept) = nothing_left r none_left idle not_cancelled no_failure in
    let done = s.shared.send_offset + total amount s.threads in
    ground (
      arith,
      wire_lem r kept,
      current,
      drop_none ℕ done,
      concat_none s.shared.queue queue,
      append-nil s.shared.wire,
    )

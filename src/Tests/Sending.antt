-- ===== src/Tests/Sending.antt =====
-- One packet that is sent, in full and with no interference.
use iocpnetwork_engine.Prelude.{
  ℕ, zero, suc, ◌+◌, ◌≤◌, ◌≡◌, refl, true, false, List, [], ◌∷◌, ◌++◌, arith, drop, take, sym,
  subst,
}
use iocpnetwork_engine.Prelude.Pieces.{concat}
use iocpnetwork_engine.Prelude.Schedule.{Pick, first, put_back, total}
use iocpnetwork_engine.Buffer.SessionBufferConfig.{server_preset}
use iocpnetwork_engine.Server.SystemPacket.{ServerSessionState}
use iocpnetwork_engine.Session.SessionJobQueue.{server}
use iocpnetwork_engine.Session.ClientSession.{ClientSession, ClientSessionState, check_send_packet}
use iocpnetwork_engine.Session.Sending.{
  Answers, Thread, System, step, run, enqueue, complete, start, Reach, here, next, bytes,
  try_send_next, post_current_send, enqueue_send_packet, on_send_completed, clear_current,
  free_token,
}
use iocpnetwork_engine.Session.Sending.Inv.{works}
use iocpnetwork_engine.Session.Sending.Reached.{one_send}
use iocpnetwork_engine.Session.Sending.Bytes.{amount}
use iocpnetwork_engine.Session.Sending.Wire.{wire_lem, all_sent}

abbrev session : ClientSession
session = record {
  session_role = server;
  client_session_state = ClientSessionState.none_yet;
  server_session_state = ServerSessionState.established;
  buffer_config = server_preset;
  last_recv_tick = 0;
  last_heartbeat_tick = 0;
  send_reject_log_tick = λ r. 0;
  send_reject_suppressed = λ r. 0;
}

abbrev usual : Answers
usual = record { session = session; room = true; taken = true; fatal = false }

-- The thread that stands first makes one step.
abbrev turn_of : System → List Thread → System
turn_of s [] = s
turn_of s (t ∷ rest) = record {
  shared = (step usual s.shared t).shared;
  threads = put_back (step usual s.shared t).next rest;
}

abbrev turns : ℕ → System → System
turns zero s = s
turns (suc n) s = turns n (turn_of s s.threads)

turn_of-Reach : {s : System} (ts : List Thread) → s.threads ≡ ts → Reach s → Reach (turn_of s ts)
turn_of-Reach [] e r = r
turn_of-Reach {s} (t ∷ rest) e r =
    next r (run usual t rest (subst (λ ts. Pick t ts rest) (sym e) first))

turns-Reach : (n : ℕ) {s : System} → Reach s → Reach (turns n s)
turns-Reach zero r = r
turns-Reach (suc n) {s} r = turns-Reach n (turn_of-Reach s.threads refl r)

-- Packet 1000 with two bytes of its own.
abbrev packet : List ℕ
packet = 232 ∷ (3 ∷ (6 ∷ (0 ∷ (7 ∷ (8 ∷ [])))))

abbrev handed : System
handed = record (start) { threads = Thread.enqueueing packet ∷ [] }

abbrev posted : System
posted = turns 7 handed

posted-Reach : Reach posted
posted-Reach = turns-Reach 7 (next here (enqueue packet))

-- The system takes all six bytes, and the handler of the completion runs to its end.
abbrev delivered : System
delivered = turns 7 (record {
  shared = record (posted.shared) {
    posted = 0;
    wire = posted.shared.wire ++ take 6 posted.shared.outgoing;
  };
  threads = Thread.completed 6 ∷ posted.threads;
})

delivered-Reach : Reach delivered
unfolding step enqueue_send_packet try_send_next post_current_send check_send_packet
delivered-Reach = turns-Reach 7 (next posted-Reach (complete 0 6 refl (omega arith)))

wire_example :
    posted.shared.accepted
    ≡ posted.shared.wire
      ++ (drop
            (posted.shared.send_offset + total amount posted.threads)
            (bytes posted.shared.current_send_packet)
          ++ concat posted.shared.queue)
unfolding step enqueue_send_packet try_send_next post_current_send check_send_packet
wire_example = wire_lem posted-Reach refl

all_sent_example : delivered.shared.wire ≡ delivered.shared.accepted
unfolding step enqueue_send_packet try_send_next post_current_send check_send_packet
    on_send_completed clear_current free_token
all_sent_example = all_sent delivered-Reach refl refl refl refl

one_send_example : posted.shared.posted + total works posted.threads ≤ 1
one_send_example = one_send posted-Reach

-- The packet went out whole.
delivered_packet : delivered.shared.wire ≡ packet
unfolding step enqueue_send_packet try_send_next post_current_send check_send_packet
    on_send_completed clear_current free_token
delivered_packet = refl

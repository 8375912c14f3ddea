-- ===== src/Client/Completion/Handlers.antt =====
-- Each handler of Core/IOCPClient.cpp keeps the connection in step and lets its own count go.
use iocpnetwork_engine.Prelude.{
  ℕ, suc, ◌+◌, ◌-◌, ◌≡◌, Bool, true, false, not, Option, none, some, arith, if_split,
}
use iocpnetwork_engine.Protocol.{
  DisconnectReason, resource_exhausted, socket_error, peer_closed, local_shutdown, connect_failed,
}
use iocpnetwork_engine.Session.ClientSession.{connected, auth_pending, connect_aborted}
use iocpnetwork_engine.Client.Disconnect.{
  Connection, decrement_io, begin_io, complete_disconnect, CancelAnswer, post_receive, PostAnswer,
  accepted, short, broken,
}
use iocpnetwork_engine.Client.Completion.{
  ConnectAnswers, tell_connect, send_auth_request, run_client_connect_sequence, handle_connect,
  SocketFailure, aborted, dead, unhandled, connect_over, handle_connect_cancelled, handle_io_error,
  Rearm, posts, pauses, post_receive_or_pause, finish_recv, handle_session_disconnected, NextSend,
  no_send, sends_next, pauses_briefly, on_send_completed, handle_send, resume_receive,
}
use iocpnetwork_engine.Client.Disconnect.Inv.{
  Inv, starts, decrement_io-Inv, on_disconnect_request-Inv,
}
use iocpnetwork_engine.Client.Completion.Posting.{
  note_disconnect_reason-Inv, with_state, with_failed, with_sent, give_up, begun, post_receive-Inv,
  post_send-Inv, violated-Inv, turn_over, not_begun,
}

-- The service has heard of no connection yet, so this is the first it hears.
tell_connect-Inv :
    {h k : ℕ} {c : Connection}
    → Inv h k c
    → c.io_count ≡ suc (c.io_count - 1)
    → c.connects + starts c.calls ≡ 0
    → Inv h k (tell_connect c)
tell_connect-Inv {h} {k} {c} v busy first =
    let n = v.counted in
    let p = v.phase in
    let q = v.paired in
    let w = v.one in
    record {
      counted = n;
      one = w;
      paired = ground arith;
      once = ground arith;
      phase = ground arith;
    }

-- What `PostReceive` leaves alone.
post_receive-kept :
    (post : Option PostAnswer) (c : Connection)
    → (post_receive post c).0 ≡ true
    → let r = post_receive post c in
      (r.1.connects ≡ c.connects) × (r.1.calls ≡ c.calls) × (r.1.io_count ≡ suc (r.1.io_count - 1))
unfolding post_receive begin_io decrement_io complete_disconnect
post_receive-kept none c e = absurd (ground (arith, e))
post_receive-kept (some accepted) c e = ground arith
post_receive-kept (some short) c e = ground arith
post_receive-kept (some (broken answer)) c e = ground arith

send_auth_request-Inv :
    {h : ℕ} {c : Connection} (a : ConnectAnswers) → Inv h 0 c → Inv h 0 (send_auth_request a c).1
send_auth_request-Inv {h} {c} a v =
    if_split (λ (r : Bool × Connection). Inv h 0 r.1) a.auth_queued
      (λ e. post_send-Inv a.auth_answer (with_state auth_pending v)) (λ e. with_state connected v)

run_client_connect_sequence-Inv :
    {h : ℕ} {c : Connection} (a : ConnectAnswers)
    → Inv h 1 c
    → c.connects + starts c.calls ≡ 0
    → Inv h 0 (run_client_connect_sequence a c).1
unfolding run_client_connect_sequence
run_client_connect_sequence-Inv {h} {c} a v first =
    let d : Connection = record c { state = connected } in
    let w : Inv h 1 d = with_state connected v in
    if_split Kept (not a.context_set) (λ e. turn_over v)
      (λ e.
        if_split Kept (not a.no_delay_set) (λ f. turn_over v)
          (λ f.
            if_split Kept (not (post_receive a.receive_answer d).0)
              (λ g. post_receive-Inv a.receive_answer w)
              (λ g.
                let (same_connects, same_calls, busy) =
                  post_receive-kept a.receive_answer d (ground (arith, g)) in
                send_auth_request-Inv a (
                  tell_connect-Inv (post_receive-Inv a.receive_answer w) busy
                    (rw (same_connects, same_calls) first)))))
  where
    Kept : Bool × Connection → Type 0
    Kept r = Inv h 0 r.1

pub handle_connect-Inv :
    {h : ℕ} {c : Connection} (a : ConnectAnswers) (answer : CancelAnswer)
    → Inv (suc h) 1 c
    → c.connects + starts c.calls ≡ 0
    → Inv h 0 (handle_connect a answer c)
unfolding handle_connect
handle_connect-Inv {h} {c} a answer v first =
    let r = run_client_connect_sequence a c in
    let w = run_client_connect_sequence-Inv a v first in
    decrement_io-Inv
      (if_split (Inv (suc h) 0) r.0 (λ e. w) (λ e. on_disconnect_request-Inv answer w))

connect_over-Inv :
    {h k : ℕ} {c : Connection} (failure : SocketFailure) (code : ℕ)
    → Inv h k c
    → Inv h k (connect_over failure code c)
connect_over-Inv aborted code v = note_disconnect_reason-Inv local_shutdown v
connect_over-Inv dead code v = with_failed code (note_disconnect_reason-Inv connect_failed v)
connect_over-Inv unhandled code v =
    with_failed code (note_disconnect_reason-Inv connect_failed (violated-Inv v))

pub handle_connect_cancelled-Inv :
    {h k : ℕ} {c : Connection} (failure : SocketFailure) (code : ℕ) (answer : CancelAnswer)
    → Inv (suc h) k c
    → Inv h k (handle_connect_cancelled failure code answer c)
unfolding handle_connect_cancelled
handle_connect_cancelled-Inv failure code answer v = decrement_io-Inv (
    on_disconnect_request-Inv answer (connect_over-Inv failure code (with_state connect_aborted v)))

pub handle_io_error-Inv :
    {h k : ℕ} {c : Connection} (failure : SocketFailure) (answer : CancelAnswer)
    → Inv (suc h) k c
    → Inv h k (handle_io_error failure answer c)
unfolding handle_io_error
handle_io_error-Inv aborted answer v = decrement_io-Inv v
handle_io_error-Inv dead answer v = decrement_io-Inv (give_up socket_error answer v)
handle_io_error-Inv unhandled answer v =
    decrement_io-Inv (give_up socket_error answer (violated-Inv v))

-- The count that the pause held is now the handler's.
unpaused :
    {h : ℕ} {c : Connection}
    → Inv h 0 c
    → c.recv_paused ≡ true
    → Inv (suc h) 1 (record c { recv_paused = false })
unpaused {h} {c} v e =
    let n = v.counted in
    let w = v.one in
    record {
      counted = ground arith;
      one = ground arith;
      paired = v.paired;
      once = v.once;
      phase = v.phase;
    }

pub resume_receive-Inv :
    {h : ℕ} {c : Connection} (post : Option PostAnswer) (answer : CancelAnswer)
    → Inv h 0 c
    → Inv h 0 (resume_receive post answer c)
unfolding resume_receive
resume_receive-Inv {h} {c} post answer v =
    let r = post_receive post (record c { recv_paused = false }) in
    if_split (Inv h 0) c.recv_paused
      (λ e.
        let w = post_receive-Inv post (unpaused v e) in
        decrement_io-Inv
          (if_split (Inv (suc h) 0) r.0 (λ f. w) (λ f. give_up resource_exhausted answer w)))
      (λ e. v)

paused :
    {h : ℕ} (c : Connection)
    → Inv h 1 c
    → (begin_io c).0 ≡ true
    → Inv h 0 (record ((begin_io c).1) { recv_paused = true })
paused {h} c v e =
    let u = begun c v e in
    let n = u.counted in
    let w = u.one in
    record {
      counted = ground arith;
      one = ground arith;
      paired = u.paired;
      once = u.once;
      phase = u.phase;
    }

post_receive_or_pause-Inv :
    {h : ℕ} {c : Connection} (rearm : Rearm) → Inv h 1 c → Inv h 0 (post_receive_or_pause rearm c).1
post_receive_or_pause-Inv (posts post) v = post_receive-Inv post v
post_receive_or_pause-Inv {h} {c} pauses v =
    if_split (Inv h 0) (begin_io c).0 (λ e. paused c v e) (λ e. turn_over (not_begun c v e))
post_receive_or_pause-Inv {h} {c} (pauses_briefly post answer) v =
    if_split (Inv h 0) (begin_io c).0 (λ e. resume_receive-Inv post answer (paused c v e))
      (λ e. turn_over (not_begun c v e))

pub finish_recv-Inv :
    {h : ℕ} {c : Connection} (dropped : Option DisconnectReason) (rearm : Rearm)
    (answer : CancelAnswer)
    → Inv (suc h) 1 c
    → Inv h 0 (finish_recv dropped rearm answer c)
unfolding finish_recv
finish_recv-Inv (some reason) rearm answer v =
    turn_over (decrement_io-Inv (give_up reason answer v))
finish_recv-Inv {h} {c} none rearm answer v =
    let r = post_receive_or_pause rearm c in
    let w = post_receive_or_pause-Inv rearm v in
    decrement_io-Inv (
      if_split (Inv (suc h) 0) c.release_pending (λ e. turn_over v)
        (λ e. if_split (Inv (suc h) 0) r.0 (λ f. w) (λ f. give_up resource_exhausted answer w)))

pub handle_session_disconnected-Inv :
    {h k : ℕ} {c : Connection} (answer : CancelAnswer)
    → Inv h k c
    → Inv h k (handle_session_disconnected answer c)
unfolding handle_session_disconnected
handle_session_disconnected-Inv answer v = give_up peer_closed answer v

on_send_completed-Inv :
    {h k : ℕ} {c : Connection} (then_next : NextSend)
    → Inv h k c
    → Inv h k (on_send_completed then_next c)
on_send_completed-Inv no_send v = v
on_send_completed-Inv (sends_next post) v = post_send-Inv post v

pub handle_send-Inv :
    {h k : ℕ} {c : Connection} (n : ℕ) (then_next : NextSend)
    → Inv (suc h) k c
    → Inv h k (handle_send n then_next c)
unfolding handle_send
handle_send-Inv n then_next v = decrement_io-Inv (on_send_completed-Inv then_next (with_sent n v))

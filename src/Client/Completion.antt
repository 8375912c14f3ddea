-- ===== src/Client/Completion.antt =====
-- The completion handlers of Core/IOCPClient.cpp on the connection of Client/Disconnect, each one step,
-- from the pending `ConnectEx` to the end. What the socket options and the receive loop decide is an
-- answer.
pub mod Posting
pub mod Handlers
pub mod Told
use iocpnetwork_engine.Prelude.{
  ℕ, zero, suc, ◌+◌, ◌-◌, Bool, true, false, not, ◌&&◌, ◌||◌, Option, none, some, List, [], ◌∷◌,
  ◌==◌, if◌then◌else◌,
}
use iocpnetwork_engine.Protocol.{
  DisconnectReason, unknown, local_shutdown, peer_closed, socket_error, connect_failed,
  resource_exhausted,
}
use iocpnetwork_engine.Server.SystemPacket.{is_unknown}
use iocpnetwork_engine.Session.ClientSession.{
  ClientSessionState, connecting, connected, auth_pending, connect_aborted, disconnected,
}
use iocpnetwork_engine.Client.Disconnect.{
  CancelAnswer, Connection, PostAnswer, begin_io, decrement_io, note_disconnect_reason,
  on_client_connect, on_connect_failed, on_disconnect_request, on_send, post_receive, post_send,
  violated,
}

-- The answers of `RunClientConnectSequence`: the two socket options, the first receive, the authentication
-- request and its `WSASend`.
pub record ConnectAnswers : Type 0 where
  pub context_set : Bool
  pub no_delay_set : Bool
  pub receive_answer : Option PostAnswer
  pub auth_queued : Bool
  pub auth_answer : PostAnswer

-- The latch is set before the service is told.
abbrev pub tell_connect : Connection → Connection
tell_connect c = record c { connect_notified = true; calls = on_client_connect ∷ c.calls }

abbrev pub send_auth_request : ConnectAnswers → Connection → Bool × Connection
send_auth_request a c =
    if a.auth_queued
    then (true, (post_send a.auth_answer (record c { state = auth_pending })).1)
    else (false, record c { state = connected })

pub run_client_connect_sequence : ConnectAnswers → Connection → Bool × Connection
unfolding post_receive post_send
run_client_connect_sequence a c =
    let r = post_receive a.receive_answer (record c { state = connected }) in
    if not a.context_set
    then (false, c)
    else if not a.no_delay_set
    then (false, c)
    else if not r.0
    then r
    else send_auth_request a (tell_connect r.1)

pub handle_connect : ConnectAnswers → CancelAnswer → Connection → Connection
unfolding run_client_connect_sequence on_disconnect_request decrement_io
handle_connect a answer c =
    let r = run_client_connect_sequence a c in
    decrement_io (if r.0 then r.1 else on_disconnect_request answer r.1)

-- The error codes by what the code does with them: `ERROR_OPERATION_ABORTED`, one that
-- `IsConnectionDeadError` knows, any other.
pub data SocketFailure : Type 0 where
  aborted dead unhandled : SocketFailure

abbrev pub connect_over : SocketFailure → ℕ → Connection → Connection
connect_over aborted code c = note_disconnect_reason c local_shutdown
connect_over dead code c =
    let d = note_disconnect_reason c connect_failed in
    record d { calls = on_connect_failed code ∷ d.calls }
connect_over unhandled code c =
    let d = note_disconnect_reason (violated c) connect_failed in
    record d { calls = on_connect_failed code ∷ d.calls }

pub handle_connect_cancelled : SocketFailure → ℕ → CancelAnswer → Connection → Connection
unfolding on_disconnect_request decrement_io
handle_connect_cancelled failure code answer c = decrement_io (
    on_disconnect_request answer (connect_over failure code (record c { state = connect_aborted })))

-- The branches of `HandleSocketError` on a receive and on a send.
pub handle_io_error : SocketFailure → CancelAnswer → Connection → Connection
unfolding on_disconnect_request decrement_io
handle_io_error aborted answer c = decrement_io c
handle_io_error dead answer c =
    decrement_io (on_disconnect_request answer (note_disconnect_reason c socket_error))
handle_io_error unhandled answer c =
    decrement_io (on_disconnect_request answer (note_disconnect_reason (violated c) socket_error))

-- `ResumeReceive`.
pub resume_receive : Option PostAnswer → CancelAnswer → Connection → Connection
unfolding post_receive on_disconnect_request decrement_io
resume_receive post answer c =
    let r = post_receive post (record c { recv_paused = false }) in
    if c.recv_paused
    then decrement_io (
        if r.0
        then r.1
        else on_disconnect_request answer (note_disconnect_reason r.1 resource_exhausted))
    else c

-- What `PostReceiveOrPause` does after the loop: it posts, it pauses, or it pauses and finds the queue
-- drained.
pub data Rearm : Type 0 where
  posts : Option PostAnswer → Rearm
  pauses : Rearm
  pauses_briefly : Option PostAnswer → CancelAnswer → Rearm

abbrev pub post_receive_or_pause : Rearm → Connection → Bool × Connection
post_receive_or_pause (posts post) c = let r = post_receive post c in (r.0 || r.1.cancel_io, r.1)
post_receive_or_pause pauses c =
    let r = begin_io c in (true, if r.0 then record (r.1) { recv_paused = true } else r.1)
post_receive_or_pause (pauses_briefly post answer) c =
    let r = begin_io c in
    (true, if r.0 then resume_receive post answer (record (r.1) { recv_paused = true }) else r.1)

-- The end of `HandleRecv`: `dropped` is the reason for which the loop gives the connection up.
pub finish_recv : Option DisconnectReason → Rearm → CancelAnswer → Connection → Connection
unfolding post_receive begin_io resume_receive on_disconnect_request decrement_io
finish_recv (some reason) rearm answer c =
    decrement_io (on_disconnect_request answer (note_disconnect_reason c reason))
finish_recv none rearm answer c =
    let r = post_receive_or_pause rearm c in
    decrement_io (
      if c.release_pending
      then c
      else if r.0
      then r.1
      else on_disconnect_request answer (note_disconnect_reason r.1 resource_exhausted))

-- `HandleSessionDisconnected`, called for a receive of no bytes.
pub handle_session_disconnected : CancelAnswer → Connection → Connection
unfolding on_disconnect_request
handle_session_disconnected answer c =
    on_disconnect_request answer (note_disconnect_reason c peer_closed)

-- What `OnSendCompleted` does next: nothing, or the next `WSASend`.
pub data NextSend : Type 0 where
  no_send : NextSend
  sends_next : PostAnswer → NextSend

abbrev pub on_send_completed : NextSend → Connection → Connection
on_send_completed no_send c = c
on_send_completed (sends_next post) c = (post_send post c).1

pub handle_send : ℕ → NextSend → Connection → Connection
unfolding post_send decrement_io
handle_send n then_next c =
    decrement_io (on_send_completed then_next (record c { calls = on_send n ∷ c.calls }))

-- What can happen to the connection, with the answers that its handler gets.
pub data Event : Type 0 where
  connect_done : ConnectAnswers → CancelAnswer → Event
  connect_error : SocketFailure → ℕ → CancelAnswer → Event
  recv_closed : CancelAnswer → Event
  recv_done : Option DisconnectReason → Rearm → CancelAnswer → Event
  recv_error : SocketFailure → CancelAnswer → Event
  send_done : ℕ → NextSend → Event
  send_error : SocketFailure → CancelAnswer → Event
  send_begins : PostAnswer → Event
  drained : Option PostAnswer → CancelAnswer → Event
  asked : DisconnectReason → CancelAnswer → Event

-- A completion comes only for an I/O that the system has.
abbrev pub connect_back : Connection → Connection
connect_back c = record c { connects = c.connects - 1 }

abbrev pub recv_back : Connection → Connection
recv_back c = record c { receives = c.receives - 1 }

abbrev pub send_back : Connection → Connection
send_back c = record c { sends = c.sends - 1 }

unfoldable pub handle_completion : Event → Connection → Connection
unfolding handle_connect handle_connect_cancelled handle_session_disconnected finish_recv
    handle_io_error handle_send post_send resume_receive on_disconnect_request decrement_io
handle_completion (connect_done a answer) c =
    if c.connects == 0 then c else handle_connect a answer (connect_back c)
handle_completion (connect_error failure code answer) c =
    if c.connects == 0 then c else handle_connect_cancelled failure code answer (connect_back c)
handle_completion (recv_closed answer) c =
    if c.receives == 0 then c else decrement_io (handle_session_disconnected answer (recv_back c))
handle_completion (recv_done dropped rearm answer) c =
    if c.receives == 0 then c else finish_recv dropped rearm answer (recv_back c)
handle_completion (recv_error failure answer) c =
    if c.receives == 0 then c else handle_io_error failure answer (recv_back c)
handle_completion (send_done n then_next) c =
    if c.sends == 0 then c else handle_send n then_next (send_back c)
handle_completion (send_error failure answer) c =
    if c.sends == 0 then c else handle_io_error failure answer (send_back c)
handle_completion (send_begins post) c = (post_send post c).1
handle_completion (drained post answer) c = resume_receive post answer c
handle_completion (asked reason answer) c =
    on_disconnect_request answer (note_disconnect_reason c reason)

unfoldable pub run : List Event → Connection → Connection
run [] c = c
run (e ∷ es) c = run es (handle_completion e c)

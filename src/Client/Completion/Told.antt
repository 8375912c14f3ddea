-- ===== src/Client/Completion/Told.antt =====
-- What the service of Core/IOCPClient.cpp hears of the connection, and when the socket is closed.
use iocpnetwork_engine.Prelude.{
  ◌+◌, ◌≡◌, ◌≤◌, ◌⊎◌, inl, inr, refl, true, false, List, [], ◌∷◌, ◌==◌, arith, if_split, Bool-cases,
}
use iocpnetwork_engine.Client.Disconnect.{Connection, posted}
use iocpnetwork_engine.Client.Completion.{
  Event, connect_done, connect_error, recv_closed, recv_done, recv_error, send_done, send_error,
  send_begins, drained, asked, connect_back, recv_back, send_back, handle_completion, run,
}
use iocpnetwork_engine.Client.Disconnect.Inv.{Inv, starts, ends, decrement_io-Inv}
use iocpnetwork_engine.Client.Completion.Posting.{turn_over, give_up, post_send-Inv}
use iocpnetwork_engine.Client.Completion.Handlers.{
  handle_connect-Inv, handle_connect_cancelled-Inv, finish_recv-Inv, handle_io_error-Inv,
  handle_send-Inv, handle_session_disconnected-Inv, resume_receive-Inv,
}

-- A completion hands the count of its I/O to the handler.
connect_back-Inv :
    {c : Connection}
    → Inv 0 0 c
    → (c.connects == 0) ≡ false
    → Inv 1 1 (connect_back c) × ((connect_back c).connects + starts c.calls ≡ 0)
connect_back-Inv {c} v e =
    let n = v.counted in
    let o = v.once in
    let w = v.one in
    (
      record {
        counted = ground arith;
        one = ground arith;
        paired = v.paired;
        once = ground arith;
        phase = v.phase;
      },
      ground arith,
    )

recv_back-Inv : {c : Connection} → Inv 0 0 c → (c.receives == 0) ≡ false → Inv 1 1 (recv_back c)
recv_back-Inv {c} v e =
    let n = v.counted in
    let w = v.one in
    record {
      counted = ground arith;
      one = ground arith;
      paired = v.paired;
      once = v.once;
      phase = v.phase;
    }

send_back-Inv : {c : Connection} → Inv 0 0 c → (c.sends == 0) ≡ false → Inv 1 0 (send_back c)
send_back-Inv {c} v e =
    let n = v.counted in
    record {
      counted = ground arith;
      one = v.one;
      paired = v.paired;
      once = v.once;
      phase = v.phase;
    }

handle_completion-Inv : (e : Event) {c : Connection} → Inv 0 0 c → Inv 0 0 (handle_completion e c)
unfolding handle_completion
handle_completion-Inv (connect_done a answer) {c} v =
    if_split (Inv 0 0) (c.connects == 0) (λ e. v)
      (λ e. let (w, first) = connect_back-Inv v e in handle_connect-Inv a answer w first)
handle_completion-Inv (connect_error failure code answer) {c} v =
    if_split (Inv 0 0) (c.connects == 0) (λ e. v)
      (λ e. turn_over (handle_connect_cancelled-Inv failure code answer (connect_back-Inv v e).0))
handle_completion-Inv (recv_closed answer) {c} v =
    if_split (Inv 0 0) (c.receives == 0) (λ e. v)
      (λ e.
        turn_over (decrement_io-Inv (handle_session_disconnected-Inv answer (recv_back-Inv v e))))
handle_completion-Inv (recv_done dropped rearm answer) {c} v =
    if_split (Inv 0 0) (c.receives == 0) (λ e. v)
      (λ e. finish_recv-Inv dropped rearm answer (recv_back-Inv v e))
handle_completion-Inv (recv_error failure answer) {c} v =
    if_split (Inv 0 0) (c.receives == 0) (λ e. v)
      (λ e. turn_over (handle_io_error-Inv failure answer (recv_back-Inv v e)))
handle_completion-Inv (send_done n then_next) {c} v =
    if_split (Inv 0 0) (c.sends == 0) (λ e. v)
      (λ e. handle_send-Inv n then_next (send_back-Inv v e))
handle_completion-Inv (send_error failure answer) {c} v =
    if_split (Inv 0 0) (c.sends == 0) (λ e. v)
      (λ e. handle_io_error-Inv failure answer (send_back-Inv v e))
handle_completion-Inv (send_begins post) v = post_send-Inv post v
handle_completion-Inv (drained post answer) v = resume_receive-Inv post answer v
handle_completion-Inv (asked reason answer) v = give_up reason answer v

run-Inv : (es : List Event) {c : Connection} → Inv 0 0 c → Inv 0 0 (run es c)
unfolding run
run-Inv [] v = v
run-Inv (e ∷ es) v = run-Inv es (handle_completion-Inv e v)

posted-Inv : Inv 0 0 posted
posted-Inv = record {
  counted = refl;
  one = omega arith;
  paired = refl;
  once = omega arith;
  phase = refl;
}

-- Whatever happens after `PostConnect`, in any order and with any answers of the system: the service
-- hears of a connection at most once and of its end at most as often; and either the socket is open,
-- or it was closed with no I/O left at the system and the service heard of as many ends as of
-- connections.
pub told_once :
    (es : List Event)
    → let c = run es posted in
      (starts c.calls ≤ 1)
      × (ends c.calls ≤ starts c.calls)
      × ((c.socket_open ≡ true)
          ⊎ ((c.connects + c.receives + c.sends ≡ 0) × (ends c.calls ≡ starts c.calls)))
told_once es = told (run es posted) (run-Inv es posted-Inv)
  where
    closed :
        (c : Connection)
        → Inv 0 0 c
        → c.socket_open ≡ false
        → (c.connects + c.receives + c.sends ≡ 0) × (ends c.calls ≡ starts c.calls)
    closed c v e =
        let n = v.counted in let p = v.phase in let q = v.paired in (ground arith, ground arith)

    told :
        (c : Connection)
        → Inv 0 0 c
        → (starts c.calls ≤ 1)
          × (ends c.calls ≤ starts c.calls)
          × ((c.socket_open ≡ true)
              ⊎ ((c.connects + c.receives + c.sends ≡ 0) × (ends c.calls ≡ starts c.calls)))
    told c v =
        let o = v.once in
        let q = v.paired in
        (
          ground arith,
          ground arith,
          elim (Bool-cases c.socket_open) [ inl e ↦ inl e | inr e ↦ inr (closed c v e) ],
        )

-- Once a disconnect was asked for, and the system has given back every I/O and no receive is paused,
-- the end has been carried out: the socket is closed, and the service has heard of the end if it had
-- heard of the connection.
pub disconnect_ends :
    (es : List Event)
    → (run es posted).disconnecting ≡ true
    → (run es posted).connects + (run es posted).receives + (run es posted).sends ≡ 0
    → (run es posted).recv_paused ≡ false
    → let c = run es posted in
      (c.closing ≡ true) × (c.socket_open ≡ false) × (ends c.calls ≡ starts c.calls)
disconnect_ends es = over (run es posted) (run-Inv es posted-Inv)
  where
    over :
        (c : Connection)
        → Inv 0 0 c
        → c.disconnecting ≡ true
        → c.connects + c.receives + c.sends ≡ 0
        → c.recv_paused ≡ false
        → (c.closing ≡ true) × (c.socket_open ≡ false) × (ends c.calls ≡ starts c.calls)
    over c v asked_for none_out unpaused =
        let n = v.counted in
        let p = v.phase in let q = v.paired in (ground arith, ground arith, ground arith)

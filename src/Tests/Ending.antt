-- ===== src/Tests/Ending.antt =====
-- A connection that is set up, used and closed; one whose authentication request finds no room; one
-- that is asked to end while its receive is paused.
use iocpnetwork_engine.Prelude.{◌≡◌, ◌≤◌, ◌+◌, refl, ◌⊎◌, true, false, none, some, List, [], ◌∷◌}
use iocpnetwork_engine.Protocol.{unknown, local_request}
use iocpnetwork_engine.Client.Disconnect.{
  cancelled, not_found, accepted, on_client_connect, on_client_disconnect, on_send, posted,
}
use iocpnetwork_engine.Client.Completion.{
  ConnectAnswers, Event, connect_done, recv_done, recv_error, send_done, asked, posts, pauses,
  no_send, aborted, run, handle_completion,
}
use iocpnetwork_engine.Client.Disconnect.Inv.{starts, ends}
use iocpnetwork_engine.Client.Completion.Told.{told_once, disconnect_ends}

abbrev fine : ConnectAnswers
fine = record {
  context_set = true;
  no_delay_set = true;
  receive_answer = some accepted;
  auth_queued = true;
  auth_answer = accepted;
}

-- Connected, the request sent, one receive, then the end is asked for and the receive is cancelled.
abbrev whole : List Event
whole =
    connect_done fine cancelled
    ∷ (send_done 6 no_send
        ∷ (recv_done none (posts (some accepted)) cancelled
            ∷ (asked local_request cancelled ∷ (recv_error aborted cancelled ∷ []))))

told_once_example :
    let c = run whole posted in
    (starts c.calls ≤ 1)
    × (ends c.calls ≤ starts c.calls)
    × ((c.socket_open ≡ true)
        ⊎ ((c.connects + c.receives + c.sends ≡ 0) × (ends c.calls ≡ starts c.calls)))
told_once_example = told_once whole

disconnect_ends_example :
    let c = run whole posted in
    (c.closing ≡ true) × (c.socket_open ≡ false) × (ends c.calls ≡ starts c.calls)
unfolding run handle_completion
disconnect_ends_example = disconnect_ends whole refl refl refl

whole_calls :
    (run whole posted).calls
    ≡ on_client_disconnect local_request ∷ (on_send 6 ∷ (on_client_connect ∷ []))
unfolding run handle_completion
whole_calls = refl

-- The request for authentication finds no room: the service hears of the end without a reason.
told_without_reason :
    (run
      (connect_done (record fine { auth_queued = false }) cancelled
        ∷ (recv_error aborted cancelled ∷ []))
      posted).calls
    ≡ on_client_disconnect unknown ∷ (on_client_connect ∷ [])
unfolding run handle_completion
told_without_reason = refl

-- The receive is paused, nothing else is at the system, and the end is asked for: where `CancelIoEx`
-- finds nothing, the socket stays open with the count of the pause.
abbrev paused : List Event
paused =
    connect_done fine cancelled
    ∷ (send_done 6 no_send
        ∷ (recv_done none pauses cancelled ∷ (asked local_request not_found ∷ [])))

pause_outlives_request :
    let c = run paused posted in
    (c.disconnecting ≡ true)
    × (c.connects + c.receives + c.sends ≡ 0)
    × (c.socket_open ≡ true)
    × (c.io_count ≡ 1)
unfolding run handle_completion
pause_outlives_request = (refl, refl, refl, refl)

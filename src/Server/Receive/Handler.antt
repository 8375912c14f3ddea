-- ===== src/Server/Receive/Handler.antt =====
-- The whole of `HandleRecv` of Core/IOCPServer.cpp: how a call ends.
use iocpnetwork_engine.Prelude.{
  ℕ, ◌≡◌, refl, Bool, true, false, not, ◌||◌, [], ◌==◌, arith, if_split, inl, inr, ◌⊎◌, Bool-cases,
}
use iocpnetwork_engine.Buffer.RecvPacketBuffer.{RecvPacketBuffer, commit_write}
use iocpnetwork_engine.Buffer.RecvPacketBuffer.Inv.{IsValid, commit_write-IsValid}
use iocpnetwork_engine.Buffer.RecvPacketBuffer.Refine.{contents}
use iocpnetwork_engine.Buffer.RecvPacketBuffer.Framing.{frame, incomplete}
use iocpnetwork_engine.Server.SystemPacket.{ServerSession}
use iocpnetwork_engine.Server.Receive.{RecvState, Rounds, read_loop, handle_recv}
use iocpnetwork_engine.Server.Receive.Stream.{Ended, read_loop_refines, read_loop_ends}

-- How a call may end: the session is to be released; or no whole packet is left, and the next receive
-- is posted or a release is pending; or the bytes did not fit and nothing was read.
pub record Finished (b : RecvPacketBuffer) (n : ℕ) (release_pending posted : Bool)
    (r : RecvPacketBuffer × RecvState) : Type 0 where
  pub valid : IsValid r.0
  pub reason :
      (r.1.release ≡ true)
      ⊎ ((frame r.0.max_packet_size (contents r.0) ≡ incomplete)
          × (release_pending || posted ≡ true))
      ⊎ (((commit_write b n).0 ≡ false) × (r.0 ≡ b) × (r.1.delivered ≡ []))

-- A call of `HandleRecv` on a valid ring leaves a valid ring, and never stops in the middle: either the
-- session is to be released, or every whole packet has been handled and the session keeps receiving or
-- is being released already, or the receive did not fit and nothing was read.
pub handle_recv_ends :
    (rounds : Rounds) (b : RecvPacketBuffer) (session : ServerSession) (n : ℕ)
    (release_pending posted : Bool)
    → IsValid b
    → Finished b n release_pending posted (handle_recv rounds b session n release_pending posted)
unfolding handle_recv
handle_recv_ends rounds b session n release_pending posted v =
    if_split Done (n == 0) (λ closed. record { valid = v; reason = inl refl })
      (λ some_bytes.
        if_split Done (not (commit_write b n).0)
          (λ e. record { valid = v; reason = inr (inr (ground (arith, e), refl, refl)) })
          (λ e.
            if_split Done (looped.1.release || release_pending)
              (λ over. record { valid = kept; reason = over_reason over ended })
              (λ going.
                if_split Done posted
                  (λ next. record { valid = kept; reason = going_on next going ended })
                  (λ failed. record { valid = kept; reason = inl refl }))))
  where
    Done : RecvPacketBuffer × RecvState → Type 0
    Done = Finished b n release_pending posted

    filled : RecvPacketBuffer
    filled = (commit_write b n).1

    filled-IsValid : IsValid filled
    filled-IsValid = commit_write-IsValid n v

    fresh : RecvState
    fresh = record { session = session; release = false; delivered = [] }

    looped : RecvPacketBuffer × RecvState
    looped = read_loop filled.stored_size rounds 0 filled fresh

    kept : IsValid looped.0
    kept = (read_loop_refines filled.stored_size rounds 0 filled fresh filled-IsValid).0

    ended : Ended looped
    ended = read_loop_ends filled.stored_size rounds 0 filled fresh filled-IsValid (omega arith)

    Why : Type 0
    Why =
        (looped.1.release ≡ true)
        ⊎ ((frame looped.0.max_packet_size (contents looped.0) ≡ incomplete)
            × (release_pending || posted ≡ true))
        ⊎ (((commit_write b n).0 ≡ false) × (looped.0 ≡ b) × (looped.1.delivered ≡ []))

    over_reason : (looped.1.release || release_pending) ≡ true → Ended looped → Why
    over_reason over (inl e) = inl e
    over_reason over (inr f) = elim (Bool-cases looped.1.release) [
      | inl e ↦ inl e
      | inr e ↦ inr (inl (f, ground (arith, e, over)))
    ]

    going_on : posted ≡ true → (looped.1.release || release_pending) ≡ false → Ended looped → Why
    going_on next going (inl e) = inl e
    going_on next going (inr f) = inr (inl (f, ground (arith, next)))

-- ===== src/Sockets/Tests.antt =====
-- Sending and receiving: the theorems on concrete events.
use google_test_c_programs.Base.{
  ℕ, ◌<◌, ◌≤◌, ◌≡◌, refl, inl, inr, Bool, some, true, false, [], ◌∷◌, ◌++◌, arith, ◌==◌,
  if◌then◌else◌, length, take, replicate,
}
use google_test_c_programs.Base.Outcome.{ok, exited}
use google_test_c_programs.Base.CString.{Bytes, codes}
use google_test_c_programs.ErrCodes.{ErrCode}
use google_test_c_programs.MsgLen.{msg_with_null}
use google_test_c_programs.MsgLen.Frames.{with_null, frame}
use google_test_c_programs.Sockets.{
  eagain, econnreset, pollin, pollhup, data_in, recv_error, received, socket_recv_by_client, taken,
  send_error, sent, socket_send_no_yield, socket_send_yield,
}
use google_test_c_programs.Sockets.Recv.{socket_recv_by_client-frame}
use google_test_c_programs.Sockets.Send.{socket_send_no_yield-sent, socket_send_yield_lem}

-- AB, an interruption, then C, the null and the start of the next message.
socket_recv_by_client-frame_example :
    socket_recv_by_client msg_with_null [] []
      (pollin ∷ pollhup ∷ pollin ∷ [])
      ((data_in b'A' (codes "B") ∷ recv_error eagain ∷ []) ++ data_in b'C' (0 ∷ codes "DE") ∷ [])
    ≡ ok (received (frame with_null (codes "ABC")) (codes "DE"))
unfolding frame
socket_recv_by_client-frame_example =
    socket_recv_by_client-frame with_null (codes "ABC") (codes "DE") (omega arith) (omega arith) []
      [] (pollin ∷ pollhup ∷ pollin ∷ []) (data_in b'A' (codes "B") ∷ recv_error eagain ∷ []) b'C'
      (0 ∷ codes "DE") (tt, (refl, tt)) (inl refl, (inr refl, (inl refl, tt))) (omega arith) refl
      (omega arith)

socket_send_no_yield-sent_example :
    socket_send_no_yield (codes "ab") (taken 0 ∷ send_error eagain ∷ taken 5 ∷ [])
    ≡ ok (sent (codes "ab"))
socket_send_no_yield-sent_example =
    socket_send_no_yield-sent (codes "ab") (taken 0 ∷ send_error eagain ∷ taken 5 ∷ [])
      (tt, (refl, (tt, tt))) (omega arith)

socket_send_yield_lem_example :
    (1 < length (codes "abc")
      → (p' : ℕ) × (out : Bytes) × (more : Bool) × (socket_send_yield
            (codes "abc")
            1
            (replicate 1 (send_error eagain) ++ taken 0 ∷ [])
          ≡ ok (some (p', out, more)))
        × (1 < p')
        × (p' ≤ length (codes "abc"))
        × (take 1 (codes "abc") ++ out ≡ take p' (codes "abc"))
        × (more ≡ (if p' == length (codes "abc") then false else true)))
    × (1 ≡ length (codes "abc")
        → socket_send_yield (codes "abc") 1 (replicate 1 (send_error eagain) ++ taken 0 ∷ [])
          ≡ exited ErrCode.syscall_send)
    × (socket_send_yield
          (codes "abc")
          1
          (replicate 1 (send_error eagain) ++ send_error econnreset ∷ [])
        ≡ exited ErrCode.syscall_send)
socket_send_yield_lem_example = socket_send_yield_lem (codes "abc") 1 0 1 []

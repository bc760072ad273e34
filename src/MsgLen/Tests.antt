-- ===== src/MsgLen/Tests.antt =====
-- Messages: runs, and the theorems at concrete messages.
use google_test_c_programs.Base.{
  ℕ, ◌-◌, ◌+◌, ◌*◌, ◌<◌, ◌≤◌, ◌≡◌, ◌≢◌, refl, none, some, true, false, [], ◌∷◌, ◌++◌, arith, length,
}
use google_test_c_programs.Base.Int.{pos, negsuc}
use google_test_c_programs.Base.Outcome.{ok, exited, fault}
use google_test_c_programs.Base.CString.{Bytes, codes}
use google_test_c_programs.ErrCodes.{ErrCode}
use google_test_c_programs.StrUtils.{buf_to_short}
use google_test_c_programs.MsgLen.{
  msg_with_totlen, msg_with_msglen, is_msg_complete, msg_get_complete,
}
use google_test_c_programs.MsgLen.Frames.{with_msglen, frame}
use google_test_c_programs.MsgLen.Complete.{msg_get_complete-frame, msg_get_complete-negative}

total_length : is_msg_complete msg_with_totlen (0 ∷ 5 ∷ codes "ABCDE") ≡ some (pos 5)
unfolding is_msg_complete buf_to_short
total_length = refl

not_yet : is_msg_complete msg_with_totlen (0 ∷ 5 ∷ codes "AB") ≡ none
unfolding is_msg_complete buf_to_short
not_yet = refl

-- A total length of 0 is complete at once and takes nothing.
zero_length : is_msg_complete msg_with_totlen (0 ∷ 0 ∷ codes "AB") ≡ some (pos 0)
unfolding is_msg_complete buf_to_short
zero_length = refl

abbrev abc : Bytes
abc = codes "ABC"

msg_get_complete-frame_example :
    (length (codes "DE") ≤ length (frame with_msglen abc)
      → msg_get_complete msg_with_msglen [] (frame with_msglen abc ++ codes "DE")
        ≡ ok ([] ++ frame with_msglen abc, codes "DE", true))
    × (length (frame with_msglen abc) < length (codes "DE")
        → msg_get_complete msg_with_msglen [] (frame with_msglen abc ++ codes "DE") ≡ fault)
    × ((xs ys : Bytes)
        → xs ++ ys ≡ frame with_msglen abc
        → ys ≢ []
        → msg_get_complete msg_with_msglen [] xs ≡ ok ([], xs, false))
msg_get_complete-frame_example =
    msg_get_complete-frame with_msglen abc [] (codes "DE") (omega arith)

msg_get_complete-negative_example :
    (is_msg_complete msg_with_totlen (255 ∷ 255 ∷ abc) ≡ some (negsuc (65535 - (255 * 256 + 255))))
    × (length {A = ℕ} [] + (255 * 256 + 255) < 65536
        → msg_get_complete msg_with_totlen [] (255 ∷ 255 ∷ abc) ≡ exited ErrCode.syscall_realloc)
    × (65536 ≤ length {A = ℕ} [] + (255 * 256 + 255)
        → msg_get_complete msg_with_totlen [] (255 ∷ 255 ∷ abc) ≡ fault)
msg_get_complete-negative_example =
    msg_get_complete-negative 255 255 [] abc (omega arith) (omega arith) (omega arith)

-- ===== src/MsgLen/Frames.antt =====
-- A message as it is sent: `frame ind m`, built with the length routines.
use google_test_c_programs.Base.{
  ℕ, suc, ◌+◌, ◌<◌, ◌≡◌, refl, none, some, [], ◌∷◌, ◌++◌, arith, length, length-append, take, drop,
  take-length-append, take_all,
}
use google_test_c_programs.Base.Int.{pos, ◌+ℤ◌, ◌-ℤ◌}
use google_test_c_programs.Base.Outcome.{ok, exited}
use google_test_c_programs.Base.CString.{Bytes, Lacks}
use google_test_c_programs.ErrCodes.{ErrCode}
use google_test_c_programs.StrUtils.{short_to_buf}
use google_test_c_programs.MsgLen.{
  msg_with_null, msg_with_totlen, msg_with_msglen, msg_start_pos, msg_len_from_xmit_len,
  msg_len_to_xmit_len, msg_len_to_buf, find_null,
}

-- The three kinds of message.
pub data Kind : Type 0 where
  with_null with_totlen with_msglen : Kind

abbrev pub ind_of : Kind → ℕ
ind_of with_null = msg_with_null
ind_of with_totlen = msg_with_totlen
ind_of with_msglen = msg_with_msglen

abbrev pub with_length_of : ℕ → Bytes → Bytes
with_length_of n m = (short_to_buf (pos n)).0 ∷ (short_to_buf (pos n)).1 ∷ m

-- The bytes that are sent for the message `m`.
unfoldable pub frame : Kind → Bytes → Bytes
frame with_null m = m ++ 0 ∷ []
frame with_totlen m = with_length_of (length m + 2) m
frame with_msglen m = with_length_of (length m) m

-- What can be sent: no null byte in a message that a null ends, and a length that fits a `short`.
abbrev pub CanSend : Kind → Bytes → Type 0
CanSend with_null m = Lacks 0 m
CanSend with_totlen m = length m + 2 < 32768
CanSend with_msglen m = length m < 32768

pub length-frame :
    (k : Kind) (m : Bytes)
    → pos (length (frame k m)) ≡ msg_len_to_xmit_len (ind_of k) (pos (length m))
unfolding frame msg_len_to_xmit_len ◌+ℤ◌
length-frame with_null m = ground (arith, length-append m (0 ∷ []))
length-frame with_totlen m = ground arith
length-frame with_msglen m = ground arith

take_whole : (m : Bytes) → take (length m) m ≡ m
take_whole m = take_all (length m) m (omega arith)

-- The length that `MsgLenToXmitLen` gives is that of the bytes sent, `MsgLenFromXmitLen` takes it
-- back to the length of the message, and the message stands in the bytes from `MsgStartPos` on.
pub frame_layout :
    (k : Kind) (m : Bytes)
    → (pos (length (frame k m)) ≡ msg_len_to_xmit_len (ind_of k) (pos (length m)))
      × (msg_len_from_xmit_len (ind_of k) (pos (length (frame k m))) ≡ pos (length m))
      × (take (length m) (drop (msg_start_pos (ind_of k)) (frame k m)) ≡ m)
unfolding frame msg_len_from_xmit_len msg_start_pos ◌-ℤ◌
frame_layout with_null m = (
  length-frame with_null m,
  ground (arith, length-append m (0 ∷ [])),
  take-length-append m (0 ∷ []),
)
frame_layout with_totlen m = (length-frame with_totlen m, ground arith, take_whole m)
frame_layout with_msglen m = (length-frame with_msglen m, ground arith, take_whole m)

-- `MsgLenToBuf` writes the two bytes in front of the message; for a message that a null ends it exits
-- with MSGLEN_IND_INVALID.
pub msg_len_to_buf_lem :
    (m : Bytes)
    → (msg_len_to_buf msg_with_null (pos (length m)) ≡ exited ErrCode.msglen_ind_invalid)
      × ((h : ℕ × ℕ) × (msg_len_to_buf msg_with_totlen (pos (length m)) ≡ ok h)
          × (frame with_totlen m ≡ h.0 ∷ h.1 ∷ m))
      × ((h : ℕ × ℕ) × (msg_len_to_buf msg_with_msglen (pos (length m)) ≡ ok h)
          × (frame with_msglen m ≡ h.0 ∷ h.1 ∷ m))
unfolding msg_len_to_buf frame ◌+ℤ◌
msg_len_to_buf_lem m = (
  refl,
  (short_to_buf (pos (length m + 2)), ground arith, refl),
  (short_to_buf (pos (length m)), refl, refl),
)

pub find_null-append :
    (m rest : Bytes) → Lacks 0 m → find_null (m ++ 0 ∷ rest) ≡ some (suc (length m))
unfolding find_null
find_null-append [] rest h = refl
find_null-append (b ∷ m) rest h = ground (arith, find_null-append m rest h.1)

pub find_null-none : (m : Bytes) → Lacks 0 m → find_null m ≡ none
unfolding find_null
find_null-none [] h = refl
find_null-none (b ∷ m) h = ground (arith, find_null-none m h.1)

-- ===== src/MsgLen/Complete.antt =====
-- When a message is complete: `IsMsgComplete` and `MsgGetComplete` on what was received.
use google_test_c_programs.Base.{
  ℕ, suc, ◌+◌, ◌-◌, ◌*◌, ◌<◌, ◌≤◌, ◌≡◌, ◌≢◌, refl, ◌∙◌, ap, true, false, none, some, [], ◌∷◌, ◌++◌,
  append_assoc, arith, leb, ◌==◌, le→ltb, lt→ltb, if◌then◌else◌, length, length-append,
  take-length-append, drop-length-append,
}
use google_test_c_programs.Base.Int.{ℤ, pos, negsuc, ◌+ℤ◌}
use google_test_c_programs.Base.Outcome.{ok, exited, fault}
use google_test_c_programs.Base.CString.{Bytes, Lacks}
use google_test_c_programs.ErrCodes.{ErrCode}
use google_test_c_programs.StrUtils.{buf_to_short}
use google_test_c_programs.StrUtils.Words.{short_to_buf_pos}
use google_test_c_programs.MsgLen.{
  msg_with_null, msg_with_totlen, msg_with_msglen, find_null, length_field, is_msg_complete,
  take_message, msg_get_complete,
}
use google_test_c_programs.MsgLen.Frames.{
  Kind, with_null, with_totlen, with_msglen, ind_of, with_length_of, frame, CanSend,
  find_null-append, find_null-none,
}

-- The length field in front of a message, whatever of the message has arrived.
length_field_totlen :
    (m rest : Bytes)
    → length m + 2 < 32768
    → length_field msg_with_totlen (with_length_of (length m + 2) rest) ≡ pos (length m + 2)
unfolding length_field
length_field_totlen m rest h = short_to_buf_pos (length m + 2) h

length_field_msglen :
    (m rest : Bytes)
    → length m < 32768
    → length_field msg_with_msglen (with_length_of (length m) rest) ≡ pos (length m + 2)
unfolding length_field ◌+ℤ◌
length_field_msglen m rest h = rw (short_to_buf_pos (length m) h) (ground arith)

-- The verdict on two bytes of length and the bytes behind them.
by_length :
    (ind a b n : ℕ) (rest : Bytes)
    → (ind == msg_with_null) ≡ false
    → length_field ind (a ∷ b ∷ rest) ≡ pos n
    → is_msg_complete ind (a ∷ b ∷ rest)
      ≡ (if leb n (length (a ∷ b ∷ rest)) then some (pos n) else none)
unfolding is_msg_complete
by_length ind a b n rest kind field = rw (kind, field) (ground arith)

-- The verdict on a message that a null ends.
by_null :
    (xs : Bytes)
    → is_msg_complete msg_with_null xs ≡ elim (find_null xs) [ none ↦ none | some n ↦ some (pos n) ]
unfolding is_msg_complete
by_null [] = refl
by_null (x ∷ xs) = ground arith

-- With the whole frame of a message received, and anything behind it, `IsMsgComplete` gives the
-- length of the frame.
pub is_msg_complete-frame :
    (k : Kind) (m rest : Bytes)
    → CanSend k m
    → is_msg_complete (ind_of k) (frame k m ++ rest) ≡ some (pos (length (frame k m)))
unfolding frame
is_msg_complete-frame with_null m rest h =
    by_null (m ++ 0 ∷ [] ++ rest)
    ∙ rw (append_assoc, find_null-append m rest h) (ground (arith, length-append m (0 ∷ [])))
is_msg_complete-frame with_totlen m rest h =
    by_length msg_with_totlen _ _ (length m + 2) (m ++ rest) refl
      (length_field_totlen m (m ++ rest) h)
    ∙ ground (arith, length-append m rest)
is_msg_complete-frame with_msglen m rest h =
    by_length msg_with_msglen _ _ (length m + 2) (m ++ rest) refl
      (length_field_msglen m (m ++ rest) h)
    ∙ ground (arith, length-append m rest)

-- What comes before the null has no null.
part_Lacks : (xs ys m : Bytes) → Lacks 0 m → xs ++ ys ≡ m ++ 0 ∷ [] → ys ≢ [] → Lacks 0 xs
part_Lacks [] ys m h e ne = tt
part_Lacks (x ∷ xs) ys [] h e ne = absurd (ne (nothing_left xs ys (cc)))
  where
    nothing_left : (xs ys : Bytes) → xs ++ ys ≡ [] → ys ≡ []
    nothing_left [] ys e = e
    nothing_left (x ∷ xs) ys e = cc
part_Lacks (x ∷ xs) ys (b ∷ m) h e ne =
    let same : x ≡ b = cc in (rw same h.0, part_Lacks xs ys m h.1 (cc) ne)

-- A part of a message is shorter.
part_shorter : (xs ys m : Bytes) → xs ++ ys ≡ m → ys ≢ [] → length xs < length m
part_shorter xs [] m e ne = absurd (ne refl)
part_shorter xs (y ∷ ys) m e ne = omega (arith, length-append xs (y ∷ ys), ap length e)

-- A part of two bytes of length and a message.
part_of_length :
    (ind a b n : ℕ) (m xs ys : Bytes)
    → (ind == msg_with_null) ≡ false
    → ((rest : Bytes) → length_field ind (a ∷ b ∷ rest) ≡ pos n)
    → n ≡ length m + 2
    → xs ++ ys ≡ a ∷ b ∷ m
    → ys ≢ []
    → is_msg_complete ind xs ≡ none
part_of_length ind a b n m [] ys kind field e parts ne = unfold is_msg_complete in rw kind
part_of_length ind a b n m (x ∷ []) ys kind field e parts ne = unfold is_msg_complete in rw kind
part_of_length ind a b n m (x ∷ y ∷ xs) ys kind field e parts ne =
    let ex : x ≡ a = cc in
    let ey : y ≡ b = cc in
    let shorter = part_shorter xs ys m (cc) ne in
    rw (ex, ey) (by_length ind a b n xs kind (field xs) ∙ ground arith)

-- With a part of the frame missing, however little, the message is not complete.
pub is_msg_complete-part :
    (k : Kind) (m xs ys : Bytes)
    → CanSend k m
    → xs ++ ys ≡ frame k m
    → ys ≢ []
    → is_msg_complete (ind_of k) xs ≡ none
unfolding frame
is_msg_complete-part with_null m xs ys h e ne =
    by_null xs ∙ rw (find_null-none xs (part_Lacks xs ys m h e ne))
is_msg_complete-part with_totlen m xs ys h e ne =
    part_of_length msg_with_totlen _ _ (length m + 2) m xs ys refl
      (λ rest. length_field_totlen m rest h) refl e ne
is_msg_complete-part with_msglen m xs ys h e ne =
    part_of_length msg_with_msglen _ _ (length m + 2) m xs ys refl
      (λ rest. length_field_msglen m rest h) refl e ne

get_complete_some :
    (ind : ℕ) (msg prev_msg : Bytes) (n : ℤ)
    → is_msg_complete ind prev_msg ≡ some n
    → msg_get_complete ind msg prev_msg ≡ take_message n msg prev_msg
unfolding msg_get_complete
get_complete_some ind msg prev_msg n e = rw (e, msg_get_complete)

pub get_complete_none :
    (ind : ℕ) (msg prev_msg : Bytes)
    → is_msg_complete ind prev_msg ≡ none
    → msg_get_complete ind msg prev_msg ≡ ok (msg, prev_msg, false)
unfolding msg_get_complete
get_complete_none ind msg prev_msg e = rw (e, msg_get_complete)

length_behind : (xs rest : Bytes) → length (xs ++ rest) - length xs ≡ length rest
length_behind xs rest = omega (arith, length-append xs rest)

take_message_lem :
    (msg xs rest : Bytes)
    → (length rest ≤ length xs
        → take_message (pos (length xs)) msg (xs ++ rest) ≡ ok (msg ++ xs, rest, true))
      × (length xs < length rest → take_message (pos (length xs)) msg (xs ++ rest) ≡ fault)
unfolding take_message
take_message_lem msg xs rest = (
  λ short. rw (
    length_behind xs rest,
    le→ltb (length xs) (length rest) short,
    take-length-append xs rest,
    drop-length-append xs rest,
  ),
  λ long. rw (length_behind xs rest, lt→ltb (length xs) (length rest) long),
)

-- Once the frame of a message is there, `MsgGetComplete` moves exactly the frame to the message and
-- keeps what follows it, if that is not longer than the frame; if it is longer, the regions of its
-- last `memcpy` overlap, which is undefined behaviour. While a part of the frame is missing nothing
-- moves.
pub msg_get_complete-frame :
    (k : Kind) (m msg rest : Bytes)
    → CanSend k m
    → (length rest ≤ length (frame k m)
        → msg_get_complete (ind_of k) msg (frame k m ++ rest) ≡ ok (msg ++ frame k m, rest, true))
      × (length (frame k m) < length rest
          → msg_get_complete (ind_of k) msg (frame k m ++ rest) ≡ fault)
      × ((xs ys : Bytes)
          → xs ++ ys ≡ frame k m
          → ys ≢ []
          → msg_get_complete (ind_of k) msg xs ≡ ok (msg, xs, false))
unfolding msg_get_complete
msg_get_complete-frame k m msg rest h =
    let whole =
      get_complete_some (ind_of k) msg (frame k m ++ rest) _ (is_msg_complete-frame k m rest h) in
    let (short, long) = take_message_lem msg (frame k m) rest in
    (
      λ room. whole ∙ short room,
      λ more. whole ∙ long more,
      λ xs ys e ne. get_complete_none (ind_of k) msg xs (is_msg_complete-part k m xs ys h e ne),
    )

negative_short :
    (msb lsb : ℕ)
    → 128 ≤ msb
    → msb < 256
    → lsb < 256
    → buf_to_short msb lsb ≡ negsuc (65535 - (msb * 256 + lsb))
unfolding buf_to_short
negative_short msb lsb lo hi hl = ground arith

negative_length :
    (msb lsb : ℕ) (rest : Bytes)
    → 128 ≤ msb
    → msb < 256
    → lsb < 256
    → is_msg_complete msg_with_totlen (msb ∷ lsb ∷ rest) ≡ some (negsuc (65535 - (msb * 256 + lsb)))
unfolding is_msg_complete
negative_length msb lsb rest lo hi hl = rw (negative_short msb lsb lo hi hl) (ground arith)

refused :
    (n : ℕ) (msg prev_msg : Bytes)
    → (length msg < suc n → take_message (negsuc n) msg prev_msg ≡ exited ErrCode.syscall_realloc)
      × (suc n ≤ length msg → take_message (negsuc n) msg prev_msg ≡ fault)
unfolding take_message
refused n msg prev_msg =
    (λ short. rw (lt→ltb (length msg) (suc n) short), λ long. rw (le→ltb (length msg) (suc n) long))

-- A length field of two bytes with the highest bit set is a negative number, and for a message whose
-- field holds the total length `IsMsgComplete` takes it for complete, whatever follows. With fewer
-- bytes in the message than that number takes away, as with the empty message that every caller
-- passes, `MsgGetComplete` ends the process with SYSCALL_REALLOC; with more it leaves the arrays.
pub msg_get_complete-negative :
    (msb lsb : ℕ) (msg rest : Bytes)
    → 128 ≤ msb
    → msb < 256
    → lsb < 256
    → (is_msg_complete msg_with_totlen (msb ∷ lsb ∷ rest)
        ≡ some (negsuc (65535 - (msb * 256 + lsb))))
      × (length msg + (msb * 256 + lsb) < 65536
          → msg_get_complete msg_with_totlen msg (msb ∷ lsb ∷ rest)
            ≡ exited ErrCode.syscall_realloc)
      × (65536 ≤ length msg + (msb * 256 + lsb)
          → msg_get_complete msg_with_totlen msg (msb ∷ lsb ∷ rest) ≡ fault)
msg_get_complete-negative msb lsb msg rest lo hi hl =
    let e = negative_length msb lsb rest lo hi hl in
    let taken = get_complete_some msg_with_totlen msg (msb ∷ lsb ∷ rest) _ e in
    let (short, long) = refused (65535 - (msb * 256 + lsb)) msg (msb ∷ lsb ∷ rest) in
    (e, (λ h. taken ∙ short (omega arith)), λ h. taken ∙ long (omega arith))

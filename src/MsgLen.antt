-- ===== src/MsgLen.antt =====
-- master/src/utils/msglenrtns.c and master/include/defs/msglenind.h: messages with a terminating
-- null or with a two-byte length in front. A buffer and its length variable are one list of bytes.
-- Allocation is taken to succeed, but for a negative size.
pub mod Frames
pub mod Complete
mod Tests
use google_test_c_programs.Base.{
  ℕ, zero, suc, ◌+◌, ◌-◌, Bool, true, false, ◌&&◌, Option, none, some, [], ◌∷◌, ◌++◌, ltb, leb,
  ◌==◌, if◌then◌else◌, length, get_elem?, take, drop,
}
use google_test_c_programs.Base.Int.{ℤ, pos, negsuc, ◌+ℤ◌, ◌-ℤ◌, leb_ℤ}
use google_test_c_programs.Base.Outcome.{Outcome, ok, exited, fault, ◌>>=◌, ◌>>◌, exit_if, fault_if}
use google_test_c_programs.Base.CString.{Bytes}
use google_test_c_programs.ErrCodes.{ErrCode}
use google_test_c_programs.StrUtils.{short_to_buf, buf_to_short}

abbrev pub msg_with_null : ℕ
msg_with_null = b'N'

abbrev pub msg_with_totlen : ℕ
msg_with_totlen = b'T'

abbrev pub msg_with_msglen : ℕ
msg_with_msglen = b'M'

abbrev pub sz_msglen_in_msg : ℕ
sz_msglen_in_msg = 2

unfoldable pub msg_start_pos : ℕ → ℕ
msg_start_pos ind = if ind == msg_with_null then 0 else sz_msglen_in_msg

unfoldable pub msg_len_from_xmit_len : ℕ → ℤ → ℤ
msg_len_from_xmit_len ind xmit_len =
    if ind == msg_with_null then xmit_len -ℤ pos 1 else xmit_len -ℤ pos sz_msglen_in_msg

unfoldable pub msg_len_to_xmit_len : ℕ → ℤ → ℤ
msg_len_to_xmit_len ind msg_len =
    if ind == msg_with_null then msg_len +ℤ pos 1 else msg_len +ℤ pos sz_msglen_in_msg

unfoldable pub msg_len_to_buf : ℕ → ℤ → Outcome (ℕ × ℕ)
msg_len_to_buf ind msg_len =
    exit_if (ind == msg_with_null) ErrCode.msglen_ind_invalid
    >> ok
        (short_to_buf (if ind == msg_with_totlen then msg_len +ℤ pos sz_msglen_in_msg else msg_len))

-- The loop that looks for the null: its place + 1.
unfoldable pub find_null : Bytes → Option ℕ
find_null [] = none
find_null (b ∷ msg) =
    if b == 0 then some 1 else elim (find_null msg) [ none ↦ none | some n ↦ some (suc n) ]

-- The length field; a message with two bytes has one.
unfoldable pub length_field : ℕ → Bytes → ℤ
length_field ind (msb ∷ lsb ∷ _) =
    if ind == msg_with_msglen
    then buf_to_short msb lsb +ℤ pos sz_msglen_in_msg
    else buf_to_short msb lsb
length_field ind _ = pos 0

-- `lenInMsg` if the message is complete.
unfoldable pub is_msg_complete : ℕ → Bytes → Option ℤ
unfolding find_null length_field
is_msg_complete ind msg =
    if ind == msg_with_null && ltb 0 (length msg)
    then elim (find_null msg) [ none ↦ none | some n ↦ some (pos n) ]
    else if leb sz_msglen_in_msg (length msg)
    then (if leb_ℤ (length_field ind msg) (pos (length msg))
        then some (length_field ind msg)
        else none)
    else none

-- With a negative count `MemRealloc` comes first: a negative sum is a size that no allocation has,
-- and the process ends; with more in the message the `memcpy` with a negative count leaves the
-- arrays. `memcpy` of the rest to the front is undefined where the two regions overlap, that is,
-- where more is left than is taken.
unfoldable pub take_message : ℤ → Bytes → Bytes → Outcome (Bytes × Bytes × Bool)
take_message (negsuc n) msg prev_msg =
    if ltb (length msg) (suc n) then exited ErrCode.syscall_realloc else fault
take_message (pos n) msg prev_msg =
    fault_if (ltb n (length prev_msg - n)) >> ok (msg ++ take n prev_msg, drop n prev_msg, true)

-- `msg`, `prevMsg` and `msgComplete`.
unfoldable pub msg_get_complete : ℕ → Bytes → Bytes → Outcome (Bytes × Bytes × Bool)
unfolding take_message
msg_get_complete ind msg prev_msg = elim (is_msg_complete ind prev_msg) [
  | none ↦ ok (msg, prev_msg, false)
  | some len_in_msg ↦ take_message len_in_msg msg prev_msg
]

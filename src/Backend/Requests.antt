-- ===== src/Backend/Requests.antt =====
-- `ProcessorThread`: what is done for one request.
use google_test_c_programs.Base.{
  ℕ, zero, suc, ◌+◌, ◌/◌, Bool, true, false, not, ◌||◌, List, [], ◌∷◌, ◌++◌, ltb, ◌==◌,
  if◌then◌else◌, length, take, drop, bytes_eq,
}
use google_test_c_programs.Base.Int.{ℤ, pos}
use google_test_c_programs.Base.Outcome.{Outcome, ok, ◌>>=◌}
use google_test_c_programs.Base.CString.{Bytes, codes}
use google_test_c_programs.StrUtils.{buf_to_str}
use google_test_c_programs.CreditCard.{is_valid_credit_card_no}
use google_test_c_programs.MsgLen.{msg_start_pos, msg_len_from_xmit_len}
use google_test_c_programs.MsgLen.Frames.{Kind, ind_of, frame}
use google_test_c_programs.Cmds.{cmd_proc}
use google_test_c_programs.Server.Clients.{six_digits}
use google_test_c_programs.Server.Steps.{is_size, is_command}
use google_test_c_programs.Backend.{Role, db_server, bank_server, Task, Backend}
use google_test_c_programs.Backend.Clients.{update_peer}

-- The first six digits of a number, which `snprintf` into seven bytes leaves of `%06d`; numbers are below 2^31.
unfoldable pub leading : ℕ → ℕ → ℕ
leading zero n = n
leading (suc k) n = let rest = leading k (n / 10) in if ltb n 1000000 then n else rest

unfoldable pub audit_text : ℕ → Bytes
audit_text n = six_digits (leading 4 n)

-- What a thread comes to: a response with the next audit number, or the connection is to be closed.
pub data Answer : Type 0 where
  responds : Bytes → Answer
  closes : Answer

-- dbserver.c: the 6 zeros behind the id are replaced by the next audit number.
unfoldable pub db_answer : ℕ → Bytes → ℤ → Answer × ℕ
db_answer next_audit_number msg msg_len =
    if not (is_size 12 msg_len) || not (bytes_eq (take 6 (drop 6 msg)) (codes "000000"))
    then (closes, next_audit_number)
    else (responds (take 6 msg ++ audit_text (next_audit_number + 1)), next_audit_number + 1)

-- bankserver.c: the status says whether the card number is valid.
unfoldable pub bank_answer : Bytes → ℤ → Outcome Answer
bank_answer msg msg_len =
    if not (is_size 27 msg_len)
    then ok closes
    else (buf_to_str (take 19 (drop 6 msg)) (pos 19) >>= λ (len, cc_no).
        is_valid_credit_card_no cc_no >>= λ valid.
        ok (responds (take 25 msg ++ (if valid then codes "00" else codes "02"))))

abbrev pub answer : Role → ℕ → Bytes → ℤ → Outcome (Answer × ℕ)
answer db_server next msg msg_len = ok (db_answer next msg msg_len)
answer bank_server next msg msg_len = bank_answer msg msg_len >>= λ a. ok (a, next)

-- `endProcessorThread`: the element is taken off the list; `closeClient` marks the slot it came from.
unfoldable pub remove_task : ℕ → List Task → List Task
remove_task id [] = []
remove_task id (t ∷ ts) = let rest = remove_task id ts in if id == t.id then ts else t ∷ rest

abbrev pub end_task : Task → Bool → Backend → Backend
end_task t false s = record s { tasks = remove_task t.id s.tasks }
end_task t true s =
    update_peer t.mpx (λ p. record p { disconnect = true })
      (record s { tasks = remove_task t.id s.tasks; event_count = s.event_count + 1 })

-- `setupResponse`, for a message without null bytes if a null ends it.
abbrev pub send_response : Kind → Task → Bytes → Backend → Backend
send_response kind t msg s = record s { wire = s.wire ++ (t.fd, frame kind msg) ∷ [] }

abbrev pub finish : Kind → Task → Answer → Backend → Backend
finish kind t closes s = end_task t true s
finish kind t (responds msg) s = end_task t false (send_response kind t msg s)

-- The thread of the request `t`; `stack` stands in the array of `CmdProc`.
unfoldable pub process : Role → Kind → Bytes → Task → Backend → Outcome Backend
process role kind stack t s =
    let msg_len = msg_len_from_xmit_len (ind_of kind) (pos (length t.request)) in
    let msg = drop (msg_start_pos (ind_of kind)) t.request in
    if is_command msg
    then (cmd_proc msg msg_len stack s.logs >>= λ ((response_len, response), logs).
        ok (finish kind t (responds (take response_len response)) (record s { logs = logs })))
    else (answer role s.next_audit_number msg msg_len >>= λ (a, next).
        ok (finish kind t a (record s { next_audit_number = next })))

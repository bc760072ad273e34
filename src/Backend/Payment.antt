-- ===== src/Backend/Payment.antt =====
-- The three servers together: what the client gets for its message.
use mathlib.Core.Path.{subst}
use google_test_c_programs.Base.{
  ℕ, ◌+◌, ◌%◌, ◌≤◌, ◌≡◌, refl, ◌∙◌, ap, sym, true, false, ◌&&◌, some, List, [], ◌∷◌, ◌++◌, reverse,
  length-reverse, arith, leb, ◌==◌, length, length-append, take, drop, append-nil, append_assoc,
  All, get_elem?, inl, inr, Bool-cases, Option-cases,
}
use google_test_c_programs.Base.Int.{pos}
use google_test_c_programs.Base.Outcome.{ok}
use google_test_c_programs.Base.CString.{Bytes, codes}
use google_test_c_programs.CreditCard.Luhn.{IsDigit, luhn_sum}
use google_test_c_programs.MsgLen.{msg_start_pos}
use google_test_c_programs.MsgLen.Frames.{
  Kind, with_null, with_totlen, with_msglen, ind_of, frame, frame_layout,
}
use google_test_c_programs.Sockets.{SendEvent, sent, socket_send_no_yield}
use google_test_c_programs.Server.{db_send, pollout, Client, Server}
use google_test_c_programs.Server.Clients.{is_connected, is_at, select, six_digits, db_id}
use google_test_c_programs.Server.Steps.{is_command}
use google_test_c_programs.Server.Threads.{
  db_request, db_send_turn, db_recv_msg, bank_send_turn, bank_recv_msg,
}
use google_test_c_programs.Server.Updates.{at-is_connected}
use google_test_c_programs.Server.Places.{select-get}
use google_test_c_programs.Server.Transaction.{
  take_of, drop_of, length-db_id, Alone, receipt, transaction,
}
use google_test_c_programs.Backend.{db_server, bank_server, Task, Backend}
use google_test_c_programs.Backend.Requests.{
  leading, audit_text, Answer, responds, db_answer, bank_answer, finish, process,
}
use google_test_c_programs.Backend.Verdict.{padded, verdict, length-padded, bank_answer-verdict}

-- What stands behind the length field of a frame.
frame_body :
    (k : Kind) (m : Bytes)
    → (tail : Bytes) × (drop (msg_start_pos (ind_of k)) (frame k m) ≡ m ++ tail)
unfolding frame msg_start_pos
frame_body with_null m = (0 ∷ [], refl)
frame_body with_totlen m = ([], sym (append-nil m))
frame_body with_msglen m = ([], sym (append-nil m))

digits-command : (n : ℕ) (ys : Bytes) → is_command (six_digits n ++ ys) ≡ false
digits-command n ys = ground arith

-- A frame with a message that is no command.
process-frame :
    (kind : Kind) (m stack : Bytes) (task : Task) (s : Backend) (a : Answer) (next : ℕ)
    → task.request ≡ frame kind m
    → ((tail : Bytes) → is_command (m ++ tail) ≡ false)
    → ((tail : Bytes) → db_answer s.next_audit_number (m ++ tail) (pos (length m)) ≡ (a, next))
    → process db_server kind stack task s
      ≡ ok (finish kind task a (record s { next_audit_number = next }))
unfolding process
process-frame kind m stack task s a next is plain said =
    let (x, size, y) = frame_layout kind m in
    let (tail, body) = frame_body kind m in rw (is, size, body, plain tail, said tail) refl

process_bank :
    (kind : Kind) (m stack : Bytes) (task : Task) (s : Backend) (a : Answer)
    → task.request ≡ frame kind m
    → ((tail : Bytes) → is_command (m ++ tail) ≡ false)
    → ((tail : Bytes) → bank_answer (m ++ tail) (pos (length m)) ≡ ok a)
    → process bank_server kind stack task s ≡ ok (finish kind task a s)
unfolding process
process_bank kind m stack task s a is plain said =
    let (x, size, y) = frame_layout kind m in
    let (tail, body) = frame_body kind m in rw (is, size, body, plain tail, said tail) refl

db_id_digits : (c : Client) → is_connected c ≡ true → (n : ℕ) × (db_id c ≡ six_digits n)
db_id_digits c h = elim (Option-cases c.fd) [
  | inl n ↦ absurd (let h' = rw n at h in cc)
  | inr (fd, n) ↦ (fd, rw n refl)
]

length-audit_text : (n : ℕ) → length (audit_text n) ≡ 6
unfolding audit_text
length-audit_text n = refl

audit-command : (n : ℕ) (ys : Bytes) → is_command (audit_text n ++ ys) ≡ false
unfolding audit_text
audit-command n ys = digits-command (leading 4 n) ys

-- What the database server does with the request for client `c`.
asked_db :
    (c : Client) (stack : Bytes) (task : Task) (s : Backend)
    → is_connected c ≡ true
    → task.request ≡ db_request c
    → process db_server with_null stack task s
      ≡ ok (
          finish with_null task
            (responds (db_id c ++ audit_text (s.next_audit_number + 1)))
            (record s { next_audit_number = s.next_audit_number + 1 }))
unfolding db_answer
asked_db c stack task s conn is =
    let m = db_id c ++ codes "000000" in
    let l = length-db_id c conn in
    let (n, e) = db_id_digits c conn in
    process-frame with_null m stack task s
      (responds (db_id c ++ audit_text (s.next_audit_number + 1))) (s.next_audit_number + 1) is
      (λ tail.
        ap is_command (append_assoc (db_id c) (codes "000000") tail)
        ∙ ap (λ z. is_command (z ++ (codes "000000" ++ tail))) e
        ∙ digits-command n (codes "000000" ++ tail))
      (λ tail.
        let whole = append_assoc (db_id c) (codes "000000") tail in
        let id = ap (take 6) whole ∙ take_of 6 (db_id c) (codes "000000" ++ tail) l in
        let zeros =
          ap (λ z. take 6 (drop 6 z)) whole
          ∙ ap (take 6) (drop_of 6 (db_id c) (codes "000000" ++ tail) l) in
        let size : (length m == 12) ≡ true =
          ground (arith, length-append (db_id c) (codes "000000")) in
        rw (size, zeros, id) refl)

-- What the bank server does with the message for client `c`.
asked_bank :
    (kind : Kind) (audit_number : ℕ) (ds cc_no st stack : Bytes) (task : Task) (s : Backend)
    → All IsDigit ds
    → length ds ≤ 19
    → cc_no ≡ padded (reverse ds)
    → length st ≡ 2
    → task.request ≡ frame kind (audit_text audit_number ++ (cc_no ++ st))
    → process bank_server kind stack task s
      ≡ ok (finish kind task (responds (audit_text audit_number ++ (cc_no ++ verdict ds))) s)
asked_bank kind audit_number ds cc_no st stack task s digits fits same l is =
    let audit = audit_text audit_number in
    let m = audit ++ (padded (reverse ds) ++ st) in
    let long : length m ≡ 27 =
      let r = length-reverse ds in
      let p = length-padded (reverse ds) (omega arith) in
      let a = length-audit_text audit_number in
      omega (
        arith,
        length-append audit (padded (reverse ds) ++ st),
        length-append (padded (reverse ds)) st,
      ) in
    let regroup : (tail : Bytes) → m ++ tail ≡ audit ++ (padded (reverse ds) ++ (st ++ tail)) =
      λ tail.
        append_assoc audit (padded (reverse ds) ++ st) tail
        ∙ ap (λ z. audit ++ z) (append_assoc (padded (reverse ds)) st tail) in
    subst
      (λ n.
        process bank_server kind stack task s
        ≡ ok (finish kind task (responds (audit ++ (n ++ verdict ds))) s))
      (sym same)
      (process_bank kind m stack task s (responds (audit ++ (padded (reverse ds) ++ verdict ds)))
        (is ∙ ap (λ n. frame kind (audit ++ (n ++ st))) same)
        (λ tail.
          ap is_command (regroup tail)
          ∙ audit-command audit_number (padded (reverse ds) ++ (st ++ tail)))
        (λ tail.
          ap (λ z. bank_answer z (pos (length m))) (regroup tail)
          ∙ ap (λ n. bank_answer (audit ++ (padded (reverse ds) ++ (st ++ tail))) (pos n)) long
          ∙ bank_answer-verdict audit ds (st ++ tail) (length-audit_text audit_number) digits fits))

length-verdict : (ds : Bytes) → length (verdict ds) ≡ 2
length-verdict ds =
    elim (Bool-cases
      ((leb 13 (length ds) && leb (length ds) 19) && (luhn_sum false ds % 10 == 0))) [
        | inl h ↦ rw h refl
        | inr h ↦ rw h refl
      ]

null_frame : (id audit : Bytes) → frame with_null (id ++ audit) ≡ id ++ (audit ++ 0 ∷ [])
unfolding frame
null_frame id audit = append_assoc id audit (0 ∷ [])

-- A client that waits first in line, whose message holds a card number of up to 19 digits and a bank
-- status of two bytes, while nothing else is under way that could be taken for it, both connections are up and no
-- mutex is stuck: once both requests go out, the database server works on the first and the bank
-- server on the second, and their responses come in, the first response holds the next audit
-- number, the second the verdict on the card number, and the client's response is its message with this
-- audit number, the card number and the verdict of the Luhn test, `00` for a number of 13 digits or more
-- whose sum is divisible by 10, else `02`.
pub payment :
    (s : Server) (db bk : Backend) (i : ℕ) (c : Client) (kind : Kind) (time : ℕ)
    (ds w w' stack stack' : Bytes) (task task' : Task) (sends sends' : List SendEvent)
    → s.held ≡ []
    → s.db_connected ≡ true
    → s.bank_connected ≡ true
    → s.db_send_work ≡ true
    → select (is_at db_send) s.clients ≡ some (i, c)
    → Alone s (db_id c) (audit_text (db.next_audit_number + 1))
    → All IsDigit ds
    → length ds ≤ 19
    → c.servermsg.cc_no ≡ padded (reverse ds)
    → length c.servermsg.bank_status ≡ 2
    → task.request ≡ db_request c
    → task'.request
      ≡ frame kind
          (audit_text (db.next_audit_number + 1) ++ (c.servermsg.cc_no ++ c.servermsg.bank_status))
    → socket_send_no_yield (db_request c) sends ≡ ok (sent w)
    → socket_send_no_yield
        (frame kind
          (audit_text (db.next_audit_number + 1) ++ (c.servermsg.cc_no ++ c.servermsg.bank_status)))
        sends'
      ≡ ok (sent w')
    → (t u v x : Server) × (db' bk' : Backend) × (d : Client) × (reply reply' : Bytes)
      × (db_send_turn time sends s ≡ ok t)
      × (process db_server with_null stack task db ≡ ok db')
      × (db'.wire ≡ db.wire ++ (task.fd, reply) ∷ [])
      × (db_recv_msg time reply t ≡ ok u)
      × (bank_send_turn kind time sends' u ≡ ok v)
      × (process bank_server kind stack' task' bk ≡ ok bk')
      × (bk'.wire ≡ bk.wire ++ (task'.fd, reply') ∷ [])
      × (bank_recv_msg kind time reply' v ≡ ok x)
      × (get_elem? x.clients i ≡ some d)
      × (d.response
          ≡ receipt c.servermsg.initial_msg
              (audit_text (db.next_audit_number + 1))
              c.servermsg.cc_no
              (verdict ds))
      × (d.events ≡ pollout)
payment s db bk i c kind time ds w w' stack stack' task task' sends sends' held up up' work found
      alone digits fits same l is is' goes goes' =
    let n = db.next_audit_number + 1 in
    let audit = audit_text n in
    let (at, here) = select-get (is_at db_send) s.clients i c found in
    let conn = at-is_connected db_send c here in
    let long : length c.servermsg.cc_no ≡ 19 =
      let r = length-reverse ds in ap length same ∙ length-padded (reverse ds) (omega arith) in
    let (t, u, v, x, d, e1, e2, e3, e4, e5, e6, e7, e8, e9) =
      transaction s i c kind time audit (verdict ds) w w' sends sends' held up up' work found alone
        (length-audit_text n) long (length-verdict ds) goes goes' in
    (
      t,
      u,
      v,
      x,
      finish with_null task (responds (db_id c ++ audit)) (record db { next_audit_number = n }),
      finish kind task' (responds (audit ++ (c.servermsg.cc_no ++ verdict ds))) bk,
      d,
      frame with_null (db_id c ++ audit),
      frame kind (audit ++ (c.servermsg.cc_no ++ verdict ds)),
      e1,
      asked_db c stack task db conn is,
      refl,
      subst (λ z. db_recv_msg time z t ≡ ok u) (sym (null_frame (db_id c) audit)) e2,
      e3,
      asked_bank kind n ds c.servermsg.cc_no c.servermsg.bank_status stack' task' bk digits fits
          same l is',
      refl,
      e4,
      e5,
      e6,
      e7,
    )

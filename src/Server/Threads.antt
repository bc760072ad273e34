-- ===== src/Server/Threads.antt =====
-- The steps of the threads that talk to the database server and to the bank, of the timer and of the
-- signal handler. A thread that waits for its condition, or in a call of `send`, leaves the state as it was;
-- one that locks a mutex that is never unlocked is blocked.
use google_test_c_programs.Base.{
  ℕ, ◌-◌, Bool, true, false, not, ◌&&◌, none, some, List, [], ◌∷◌, ◌++◌, ltb, ◌==◌, if◌then◌else◌,
  length, get_elem?, take, drop, replicate, bytes_eq,
}
use google_test_c_programs.Base.Int.{pos}
use google_test_c_programs.Base.Outcome.{Outcome, ok, exited, fault, ◌>>=◌}
use google_test_c_programs.Base.CString.{Bytes, codes}
use google_test_c_programs.ErrCodes.{ErrCode}
use google_test_c_programs.MsgLen.{msg_start_pos, msg_len_from_xmit_len}
use google_test_c_programs.MsgLen.Frames.{Kind, with_null, ind_of, frame}
use google_test_c_programs.Sockets.{SendEvent, Sent, sent, reset, sending, socket_send_no_yield}
use google_test_c_programs.Server.{
  ProcStat, db_send, db_recv, bank_send, bank_recv, ProcType, type_init, iactive, bank, client_lock,
  db_send_lock, bank_send_lock, db_send_thread, db_recv_thread, bank_send_thread, bank_recv_thread,
  timer_thread, Client, Server,
}
use google_test_c_programs.Server.Clients.{
  servermsg_bytes, bankmsg_bytes, setup_client_response, set_client_disconnect, is_connected,
  is_served, is_at, any, select, db_id,
}
use google_test_c_programs.Server.Locks.{locked, holds, block, set_db_send_work, set_bank_send_work}
use google_test_c_programs.Server.Steps.{update_client, signal, is_size}

abbrev pub with_status : Bytes → Client → Client
with_status st c = record c { servermsg = record c.servermsg { status = st } }

-- A client behind a message that was sent for it.
abbrev pub moved_on : ProcStat → ℕ → Bytes → Client → Client
moved_on stat time st c = record c {
  servermsg = record c.servermsg { status = st };
  proc_stat = stat;
  activity_time = time;
}

-- The request for an audit number.
abbrev pub db_request : Client → Bytes
db_request c = frame with_null (db_id c ++ replicate 6 b'0')

-- What follows `SocketSendNoYield` in `DbSendThread`: on a failure the loop is left without unlocking
-- the client's mutex.
unfoldable pub db_sent : ℕ → Client → ℕ → Server → Sent → Server
db_sent i c time s (sent w) = set_db_send_work db_send_thread (
    update_client i (moved_on db_recv time (codes "DS"))
      (record s { db_wire = s.db_wire ++ db_request c ∷ [] }))
db_sent i c time s (reset w) =
    update_client i (with_status (codes "DS"))
      (record s { db_connected = false; held = client_lock i ∷ s.held })
db_sent i c time s (sending w) = s

unfoldable pub db_send_client : ℕ → Client → ℕ → List SendEvent → Server → Outcome Server
db_send_client i c time events s =
    if holds i s.held
    then ok (block db_send_thread s)
    else (socket_send_no_yield (db_request c) events >>= λ r. ok (db_sent i c time s r))

unfoldable pub db_send_turn : ℕ → List SendEvent → Server → Outcome Server
db_send_turn time events s =
    if locked db_send_lock s.held
    then ok (block db_send_thread s)
    else if not (s.db_connected && s.db_send_work)
    then ok s
    else elim (select (is_at db_send) s.clients) [
      | none ↦ ok (set_db_send_work db_send_thread s)
      | some (i, c) ↦ db_send_client i c time events s
    ]

-- A message of the database server in `DbRecvThread`, with its null.
abbrev pub answered : ℕ → Bytes → Client → Client
answered time audit c = record c {
  servermsg = record c.servermsg { audit_no = audit; status = codes "DR" };
  proc_stat = bank_send;
  activity_time = time;
}

unfoldable pub db_recv_msg : ℕ → Bytes → Server → Outcome Server
db_recv_msg time msg s =
    if not (length msg == 13)
    then exited ErrCode.invalid_db_msg
    else let id = take 6 msg in
      let audit = take 6 (drop 6 msg) in
      let s' = record s { db_answers = (id ++ audit) ∷ s.db_answers } in
      elim (select (λ c. is_at db_recv c && bytes_eq (db_id c) id) s.clients) [
        | none ↦ ok (set_bank_send_work db_recv_thread s')
        | some (i, c) ↦
            if holds i s.held
            then ok (block db_recv_thread s')
            else ok (set_bank_send_work db_recv_thread (update_client i (answered time audit) s'))
      ]

-- `BankSendThread`, with `xmitBankMsg` for messages that hold no null byte.
unfoldable pub bank_sent : ℕ → Client → ℕ → Server → Sent → Server
bank_sent i c time s (sent w) = set_bank_send_work bank_send_thread (
    update_client i (moved_on bank_recv time (codes "BS"))
      (record s { bank_wire = s.bank_wire ++ bankmsg_bytes c.servermsg ∷ [] }))
bank_sent i c time s (reset w) =
    update_client i (with_status (codes "BS"))
      (record s { bank_connected = false; held = client_lock i ∷ s.held })
bank_sent i c time s (sending w) = s

unfoldable pub bank_send_client : Kind → ℕ → Client → ℕ → List SendEvent → Server → Outcome Server
bank_send_client kind i c time events s =
    if holds i s.held
    then ok (block bank_send_thread s)
    else (socket_send_no_yield (frame kind (bankmsg_bytes c.servermsg)) events >>= λ r.
        ok (bank_sent i c time s r))

unfoldable pub bank_send_turn : Kind → ℕ → List SendEvent → Server → Outcome Server
bank_send_turn kind time events s =
    if locked bank_send_lock s.held
    then ok (block bank_send_thread s)
    else if not (s.bank_connected && s.bank_send_work)
    then ok s
    else elim (select (is_at bank_send) s.clients) [
      | none ↦ ok (set_bank_send_work bank_send_thread s)
      | some (i, c) ↦ bank_send_client kind i c time events s
    ]

-- A message of the bank in `BankRecvThread`.
abbrev pub sz_bankmsg : ℕ
sz_bankmsg = 27

abbrev pub concluded : Bytes → Client → Client
concluded st c = record c {
  servermsg = record c.servermsg { bank_status = st; status = codes "BR" };
}

abbrev pub respond : ℕ → Bytes → Client → Client
respond time st c =
    let c' = concluded st c in setup_client_response time (servermsg_bytes c'.servermsg) 30 c'

unfoldable pub bank_recv_msg : Kind → ℕ → Bytes → Server → Outcome Server
bank_recv_msg kind time msg s =
    if not (is_size sz_bankmsg (msg_len_from_xmit_len (ind_of kind) (pos (length msg))))
    then exited ErrCode.invalid_bank_msg
    else let bankmsg = take sz_bankmsg (drop (msg_start_pos (ind_of kind)) msg) in
      elim (select (λ c. is_at bank_recv c && bytes_eq c.servermsg.audit_no (take 6 bankmsg))
        s.clients) [
          | none ↦ ok s
          | some (i, c) ↦
              if holds i s.held
              then ok (block bank_recv_thread s)
              else ok (signal (update_client i (respond time (take 2 (drop 25 bankmsg))) s))
        ]

-- `TimerThread` at one client.
abbrev pub wait_time : ProcType → ℕ
wait_time type_init = 120
wait_time iactive = 120
wait_time bank = 20

unfoldable pub action_reqd : Bytes → Bytes
action_reqd status =
    if bytes_eq status (codes "BS")
    then codes "CHECK WITH BANK"
    else if bytes_eq status (codes "BR")
    then codes "CHECK UNPROCESSED"
    else if bytes_eq status (codes "DS")
    then codes "CHECK POSSIBLE UNUSED AUDIT NO"
    else if bytes_eq status (codes "DR")
    then codes "CHECK UNUSED AUDIT NO"
    else codes "RETRY LATER"

abbrev pub is_late : ℕ → Client → Bool
is_late time c = is_served c && not (ltb (time - c.activity_time) (wait_time c.proc_type))

unfoldable pub timer_client : ℕ → ℕ → Server → Outcome Server
timer_client i time s = elim (get_elem? s.clients i) [
  | none ↦ fault
  | some c ↦
      if not (is_late time c)
      then ok s
      else if holds i s.held
      then ok (block timer_thread s)
      else ok (
          signal (
            update_client i (set_client_disconnect (codes "Timed out"))
              (record s { warnings = s.warnings ++ (i, action_reqd c.servermsg.status) ∷ [] })))
]

-- `DbStatus` and `BankStatus`: a connection is made, or `SocketRecvByClient` found it closed.
unfoldable pub db_connect : Server → Server
db_connect s = set_db_send_work db_send_thread (record s { db_connected = true })

unfoldable pub bank_connect : Server → Server
bank_connect s = set_bank_send_work bank_send_thread (record s { bank_connected = true })

-- SIGTERM in `SignalHandlerThread`.
unfoldable pub sigterm : Server → Server
sigterm s = if any is_connected s.clients then s else signal (record s { orderly_shutdown = true })

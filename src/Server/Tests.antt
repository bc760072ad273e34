-- ===== src/Server/Tests.antt =====
-- A server for one user: a client sends a bank message, another one a command.
use google_test_c_programs.Base.{
  List, ℕ, ◌≤◌, ◌≡◌, refl, true, false, none, some, [], ◌∷◌, ◌++◌, replicate, length, get_elem?,
}
use google_test_c_programs.Base.Outcome.{ok, fault}
use google_test_c_programs.Base.CString.{Bytes, codes}
use google_test_c_programs.CyclicStr.{sz_cyclic_str}
use google_test_c_programs.Base.Int.{◌-ℤ◌}
use google_test_c_programs.MsgLen.{is_msg_complete, msg_len_from_xmit_len}
use google_test_c_programs.MsgLen.Frames.{with_null, frame}
use google_test_c_programs.Sockets.{
  data_in, taken, sent, socket_recv, socket_send_no_yield, RecvEvent, SendEvent, send_error,
  econnreset,
}
use google_test_c_programs.Logging.{levels, packages, Logs, mem_trace, log_pkg_trace_f}
use google_test_c_programs.Server.{
  db_recv, bank_recv, pollin, pollout, main_thread, db_recv_thread, Client, Server,
}
use google_test_c_programs.Server.Clients.{
  init_client, to_servermsg, is_connected, is_served, any, count, find, select, modify, db_id,
  setup_client_response,
}
use google_test_c_programs.Server.Locks.{
  locked, holds, meets_held, is_blocked, set_server_work, set_db_send_work, set_bank_send_work,
}
use google_test_c_programs.Server.Steps.{
  is_reported, update_client, signal, poll_clients, poll, admit, got_complete, to_bank, to_iactive,
  recv_ctrl, proc_ctrl_cmd, proc_new_client, recv_bank, recv_complete, recv_request, handle_client,
}
use google_test_c_programs.Server.Threads.{
  db_request, db_sent, db_send_client, db_send_turn, answered, db_recv_msg, moved_on, respond,
  bank_recv_msg, db_connect, bank_connect, bank_sent, bank_send_client, bank_send_turn,
}
use google_test_c_programs.Server.System.{
  start_server, accepted, polled, handled, db_sends, db_replies, db_connects, bank_sends,
  bank_connects, Reach, start, later,
}
use google_test_c_programs.Base.CString.{toupper}
use google_test_c_programs.StrUtils.{buf_to_str, buf_len, buf_to_upper_case}
use google_test_c_programs.Cmds.{cmd_proc, dispatch, fmt_response}
use google_test_c_programs.Server.Safety.{server-limit, one-session}
use google_test_c_programs.Server.Faults.{proc_new_client-fault}
use google_test_c_programs.Server.Frozen.{fds}
use google_test_c_programs.Server.Stuck.{Later, db_send_turn-stuck}
use google_test_c_programs.Server.Transaction.{receipt, transaction}

abbrev logs : Logs
logs = record {
  log_write = levels true true false false;
  pkg_write = packages false false false;
  mem_text = λ n. some (codes "malloc");
  cyclic = record { cyclic_str = replicate sz_cyclic_str 0; cyclic_ptr = none };
  log = [];
}

-- The message without its first byte, the number of the request.
abbrev request_tail : Bytes
request_tail = codes "000000" ++ (codes "4556737586899855   " ++ codes "    ")

abbrev request : Bytes
request = b'1' ∷ (request_tail ++ 0 ∷ [])

abbrev s0 : Server
s0 = start_server 1 logs

abbrev s1 : Server
s1 = set_server_work main_thread (update_client 0 (admit 5 100) s0)

r1 : Reach with_null 1 logs s1
unfolding proc_new_client find count set_server_work set_db_send_work set_bank_send_work locked
    meets_held is_blocked holds any
r1 = later start (accepted 5 100 refl refl)

abbrev s2 : Server
s2 = poll (true ∷ []) s1

abbrev s3 : Server
s3 = set_db_send_work main_thread (
    update_client 0 (to_bank 101 (to_servermsg request))
      (update_client 0 (got_complete 101 request) s2))

r3 : Reach with_null 1 logs s3
unfolding handle_client recv_request recv_complete recv_bank socket_recv modify poll_clients
    to_servermsg is_msg_complete msg_len_from_xmit_len ◌-ℤ◌ set_server_work set_db_send_work
    set_bank_send_work locked meets_held is_blocked holds any
r3 =
    later (later r1 (polled (true ∷ []) refl))
      (handled 0 101 (data_in b'1' (request_tail ++ 0 ∷ []) ∷ []) [] [] refl refl)

abbrev waiting : Client
waiting =
    to_bank 101 (to_servermsg request)
      (got_complete 101 request (record (admit 5 100 init_client) { revents = pollin }))

abbrev all_taken : ℕ
all_taken = 99

abbrev s4 : Server
s4 = db_sent 0 waiting 102 (db_connect s3) (sent (db_request waiting))

r4 : Reach with_null 1 logs s4
unfolding db_send_turn db_send_client select modify poll_clients db_connect to_servermsg
    socket_send_no_yield frame set_server_work set_db_send_work set_bank_send_work locked meets_held
    is_blocked holds any
r4 = later (later r3 (db_connects refl)) (db_sends 102 (taken all_taken ∷ []) refl refl)

abbrev s5 : Server
s5 = set_bank_send_work db_recv_thread (
    update_client 0 (answered 103 (codes "000042"))
      (record s4 { db_answers = codes "000005000042" ∷ [] }))

r5 : Reach with_null 1 logs s5
unfolding db_recv_msg db_sent select modify poll_clients db_connect to_servermsg set_server_work
    set_db_send_work set_bank_send_work locked meets_held is_blocked holds any
r5 = later r4 (db_replies 103 (codes "000005000042" ++ 0 ∷ []) refl refl)

abbrev numbered : Client
numbered = answered 103 (codes "000042") (moved_on db_recv 102 (codes "DS") waiting)

abbrev s6 : Server
s6 = bank_sent 0 numbered 104 (bank_connect s5) (sent [])

r6 : Reach with_null 1 logs s6
unfolding bank_send_turn bank_send_client bank_sent db_sent select modify poll_clients db_connect
    bank_connect to_servermsg socket_send_no_yield frame set_server_work set_db_send_work
    set_bank_send_work locked meets_held is_blocked holds any
r6 = later (later r5 (bank_connects refl)) (bank_sends 104 (taken all_taken ∷ []) refl refl)

abbrev asked : Client
asked = moved_on bank_recv 104 (codes "BS") numbered

abbrev s7 : Server
s7 = signal (update_client 0 (respond 105 (codes "OK")) s6)

server-limit_example : (length s6.clients ≡ 9) × (count is_served s6.clients ≤ 1)
unfolding modify db_sent db_connect bank_sent bank_connect set_server_work set_db_send_work
    set_bank_send_work locked meets_held is_blocked holds any poll_clients
server-limit_example = server-limit r6

abbrev answered_client : Client
answered_client = respond 105 (codes "OK") asked

proc_new_client-fault_example :
    (proc_new_client 5 100 s0 ≡ fault → count is_connected s0.clients ≡ 9)
    × (count is_connected s0.clients ≡ 9 → proc_new_client 5 100 s0 ≡ fault)
proc_new_client-fault_example = proc_new_client-fault {kind = with_null} start 5 100

db_send_turn-stuck_example :
    (t : Server) × (db_send_turn 102 (send_error econnreset ∷ []) (db_connect s3) ≡ ok t)
    × (holds 0 t.held ≡ true)
    × ((u : Server) (d : Client) (now : ℕ) (recvs : List RecvEvent) (outs : List SendEvent)
          (stack : Bytes)
        → holds 0 u.held ≡ true
        → get_elem? u.clients 0 ≡ some d
        → is_connected d ≡ true
        → is_reported d.revents ≡ true
        → (v : Server) × (handle_client 0 now recvs outs stack u ≡ ok v)
          × ((x : Server)
              → Later with_null v x
              → (fds x ≡ fds u) × (is_blocked main_thread x ≡ true)))
unfolding modify poll_clients to_servermsg db_connect any select holds socket_send_no_yield frame
    set_server_work set_db_send_work locked meets_held
db_send_turn-stuck_example =
    db_send_turn-stuck (db_connect s3) 0 waiting 102 (send_error econnreset ∷ []) [] refl refl refl
      refl refl refl

abbrev number : Bytes
number = codes "000042"

transaction_example :
    (t u v x : Server) × (d : Client) × (db_send_turn 102
        (taken all_taken ∷ [])
        (bank_connect (db_connect s3))
      ≡ ok t)
    × (db_recv_msg 102 (db_id waiting ++ (number ++ 0 ∷ [])) t ≡ ok u)
    × (bank_send_turn with_null 102 (taken all_taken ∷ []) u ≡ ok v)
    × (bank_recv_msg with_null 102
          (frame with_null (number ++ (waiting.servermsg.cc_no ++ codes "OK")))
          v
        ≡ ok x)
    × (get_elem? x.clients 0 ≡ some d)
    × (d.response ≡ receipt b'1' number waiting.servermsg.cc_no (codes "OK"))
    × (d.events ≡ pollout)
    × (x.db_wire ≡ db_request waiting ∷ [])
    × (x.bank_wire ≡ (number ++ (waiting.servermsg.cc_no ++ waiting.servermsg.bank_status)) ∷ [])
unfolding modify poll_clients to_servermsg db_connect bank_connect select socket_send_no_yield frame
    set_server_work set_db_send_work set_bank_send_work locked meets_held is_blocked holds any
transaction_example =
    transaction (bank_connect (db_connect s3)) 0 waiting with_null 102 number (codes "OK")
      (db_request waiting)
      (frame with_null (number ++ (waiting.servermsg.cc_no ++ waiting.servermsg.bank_status)))
      (taken all_taken ∷ []) (taken all_taken ∷ []) refl refl refl refl refl
      record { no_other_id = refl; no_bank_send = refl; no_other_audit = refl } refl refl refl refl
      refl

-- A second server, with a client that sends a command.
abbrev s8 : Server
s8 = signal (
    update_client 0 (setup_client_response 101 (codes "ERROR: Invalid request (unknown)") 32)
      (update_client 0 to_iactive (update_client 0 (got_complete 101 (codes "?ABC" ++ 0 ∷ [])) s2)))

r8 : Reach with_null 1 logs s8
unfolding handle_client recv_request recv_complete recv_ctrl proc_ctrl_cmd cmd_proc dispatch
    buf_to_str buf_len buf_to_upper_case toupper socket_recv modify poll_clients to_servermsg
    is_msg_complete msg_len_from_xmit_len ◌-ℤ◌ set_server_work set_db_send_work set_bank_send_work
    locked meets_held is_blocked holds any fmt_response mem_trace log_pkg_trace_f packages
r8 =
    later (later r1 (polled (true ∷ []) refl))
      (handled 0 101 (data_in b'?' (codes "ABC" ++ 0 ∷ []) ∷ []) [] (replicate 6 1) refl refl)

abbrev commanding : Client
commanding = setup_client_response 101 (codes "ERROR: Invalid request (unknown)") 32 (
    to_iactive (
      got_complete 101 (codes "?ABC" ++ 0 ∷ [])
        (record (admit 5 100 init_client) { revents = pollin })))

one-session_example : commanding.fd ≡ commanding.fd
unfolding modify poll_clients setup_client_response set_server_work set_db_send_work
    set_bank_send_work locked meets_held is_blocked holds any
one-session_example = one-session r8 0 0 commanding commanding refl refl refl refl

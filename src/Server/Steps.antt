-- ===== src/Server/Steps.antt =====
-- The steps of the threads. The slots are numbered from 0 on, so slot `i` is `mpx` - `ClientFdMpx`.
use google_test_c_programs.Base.{
  ℕ, zero, suc, ◌+◌, Bool, true, false, not, ◌&&◌, none, some, List, [], ◌∷◌, ltb, ◌==◌,
  if◌then◌else◌, length, get_elem?, take,
}
use google_test_c_programs.Base.Int.{ℤ, pos, negsuc}
use google_test_c_programs.Base.Outcome.{Outcome, ok, fault, ◌>>=◌}
use google_test_c_programs.Base.CString.{Bytes, codes}
use google_test_c_programs.MsgLen.{msg_with_null, msg_len_from_xmit_len}
use google_test_c_programs.Sockets.{
  RecvEvent, got, gone, blocked, socket_recv, SendEvent, socket_send_yield,
}
use google_test_c_programs.Cmds.{cmd_proc}
use google_test_c_programs.Server.{
  ct_req_recv, db_send, iactive, bank, after_msg, no_events, pollin, pollout, ServerMsg,
  main_thread, Events, Client, Server,
}
use google_test_c_programs.Server.Locks.{
  holds, is_blocked, block, set_server_work, set_db_send_work,
}
use google_test_c_programs.Server.Clients.{
  init_client, sz_servermsg, to_servermsg, setup_client_response, set_client_disconnect,
  is_connected, is_after_msg, is_now, is_iactive, other_fd, any, count, find, modify,
}

abbrev pub update_client : ℕ → (Client → Client) → Server → Server
update_client i f s = record s { clients = modify i f s.clients }

-- A write of 1 to the event descriptor.
abbrev pub signal : Server → Server
signal s = record s { event_count = s.event_count + 1 }

-- What `closeClientAtIdx` does to the state. It takes no mutex of the client; that it does not come in
-- between the test and the writes of another thread's locked section is what System takes for granted.
abbrev pub close_client : ℕ → Server → Server
close_client i s = set_server_work main_thread (update_client i (λ c. init_client) s)

-- What `poll` reports: the slots that are ready for what they wait for.
unfoldable pub poll_clients : List Bool → List Client → List Client
poll_clients ready [] = []
poll_clients [] (c ∷ cs) = record c { revents = no_events } ∷ poll_clients [] cs
poll_clients (r ∷ ready) (c ∷ cs) =
    record c { revents = if r then c.events else no_events } ∷ poll_clients ready cs

abbrev pub poll : List Bool → Server → Server
poll ready s = record s { clients = poll_clients ready s.clients }

-- `procNewClient` once `accept` has returned: the first free slot is taken, and if too many users are
-- connected then, the client is marked. With no free slot it is a slot behind the
-- arrays that is written to.
abbrev pub admit : ℕ → ℕ → Client → Client
admit fd time c = record c { fd = some fd; events = pollin; activity_time = time }

abbrev pub refuse : ℕ → Client → Client
refuse fd c = record c {
  fd = some fd;
  events = pollin;
  discon_msg = codes "ERROR: Maximum users exceeded";
  discon_stat = after_msg;
}

unfoldable pub proc_new_client : ℕ → ℕ → Server → Outcome Server
proc_new_client fd time s = elim (find (λ c. not (is_connected c)) s.clients) [
  | none ↦ fault
  | some j ↦
      if ltb s.max_users (count is_connected s.clients + 1)
      then ok (set_server_work main_thread (update_client j (refuse fd) s))
      else ok (set_server_work main_thread (update_client j (admit fd time) s))
]

-- `procCtrlCmd` for slot `i`; `stack` stands in the array of `CmdProc`.
unfoldable pub proc_ctrl_cmd : ℕ → ℕ → Bytes → ℤ → Bytes → Server → Outcome Server
proc_ctrl_cmd i time request msg_len stack s =
    cmd_proc request msg_len stack s.logs >>= λ ((response_len, response), logs). ok (
      signal (
        update_client i (setup_client_response time response response_len)
          (record s { logs = logs })))

abbrev pub is_size : ℕ → ℤ → Bool
is_size n (pos k) = k == n
is_size n (negsuc k) = false

-- `ERROR: Invalid request`, and the connection is to be closed behind it.
abbrev pub invalid_request : ℕ → Client → Client
invalid_request time c = record (setup_client_response time (codes "ERROR: Invalid request") 22 c) {
  discon_stat = after_msg;
}

abbrev pub to_bank : ℕ → ServerMsg → Client → Client
to_bank time m c = record c {
  proc_type = bank;
  servermsg = m;
  proc_stat = db_send;
  activity_time = time;
}

-- A bank message from client `i`, whose request is `req`.
unfoldable pub recv_bank : ℕ → ℕ → Bytes → Server → Server
recv_bank i time req s =
    let m = to_servermsg (take sz_servermsg req) in
    if m.initial_msg == b'0'
    then close_client i s
    else set_db_send_work main_thread (update_client i (to_bank time m) s)

abbrev pub to_iactive : Client → Client
to_iactive c = record c { proc_type = iactive }

-- A control command from client `i`, whose descriptor is `fd`.
unfoldable pub recv_ctrl : ℕ → ℕ → ℕ → Bytes → Bytes → Server → Outcome Server
recv_ctrl i fd time req stack s =
    if any (λ c. other_fd fd c.fd && is_iactive c.proc_type) s.clients
    then ok
        (signal (update_client i (set_client_disconnect (codes "Too many interactive sessions")) s))
    else proc_ctrl_cmd i time req (msg_len_from_xmit_len msg_with_null (pos (length req))) stack
        (update_client i to_iactive s)

abbrev pub is_command : Bytes → Bool
is_command [] = false
is_command (b ∷ req) = b == b'?'

-- `recvRequest` behind the test for a complete message.
unfoldable pub recv_complete : ℕ → Client → ℕ → Bytes → Bytes → Server → Outcome Server
recv_complete i c time req stack s =
    if is_after_msg c.discon_stat
    then ok
        (signal (update_client i (setup_client_response time c.discon_msg (length c.discon_msg)) s))
    else if is_command req
    then recv_ctrl i (elim c.fd [ none ↦ 0 | some n ↦ n ]) time req stack s
    else if not (is_size sz_servermsg (msg_len_from_xmit_len msg_with_null (pos (length req))))
    then ok (signal (update_client i (invalid_request time) s))
    else ok (recv_bank i time req s)

-- The client is handled once for each report of `poll`.
abbrev pub got_request : Bytes → Client → Client
got_request req c = record c { request = req; revents = no_events }

abbrev pub got_complete : ℕ → Bytes → Client → Client
got_complete time req c = record c {
  request = req;
  revents = no_events;
  proc_stat = ct_req_recv;
  activity_time = time;
}

unfoldable pub recv_request : ℕ → Client → ℕ → List RecvEvent → Bytes → Server → Outcome Server
recv_request i c time events stack s = socket_recv msg_with_null c.request events >>= λ r. elim r [
  | blocked ↦ ok s
  | gone ↦ ok (close_client i s)
  | got req false ↦ ok (update_client i (got_request req) s)
  | got req true ↦ recv_complete i c time req stack (update_client i (got_complete time req) s)
]

-- `sendResponse`
abbrev pub sent_part : ℕ → Client → Client
sent_part n c = record c { prev_bytes_sent = n; revents = no_events }

abbrev pub sent_all : Client → Client
sent_all c = record c { response = []; prev_bytes_sent = 0; events = pollin; revents = no_events }

unfoldable pub send_response : ℕ → Client → List SendEvent → Server → Outcome Server
send_response i c events s = socket_send_yield c.response c.prev_bytes_sent events >>= λ r. elim r [
  | none ↦ ok s
  | some (n, out, true) ↦ ok (update_client i (sent_part n) s)
  | some (n, out, false) ↦
      if is_after_msg c.discon_stat then ok (close_client i s) else ok (update_client i sent_all s)
]

-- What the main thread does with a client slot: with a report of `poll` it locks the client's mutex.
abbrev pub is_reported : Events → Bool
is_reported no_events = false
is_reported pollin = true
is_reported pollout = true

unfoldable pub handle_client :
    ℕ → ℕ → List RecvEvent → List SendEvent → Bytes → Server → Outcome Server
handle_client i time recvs sends stack s = elim (get_elem? s.clients i) [
  | none ↦ fault
  | some c ↦
      if not (is_connected c && is_reported c.revents)
      then ok s
      else if holds i s.held
      then ok (block main_thread s)
      else elim c.revents [
        | pollin ↦ recv_request i c time recvs stack s
        | pollout ↦ send_response i c sends s
        | no_events ↦ ok s
      ]
]

-- `disconnectClients`, when the event descriptor was written to: the main thread closes one client
-- after the other, from slot `i` on, unless it is blocked in a close.
abbrev pub leaves : Client → Bool
leaves c = is_connected c && is_now c.discon_stat

unfoldable pub disconnect_at : ℕ → Client → Server → Server
disconnect_at i c s = if leaves c && not (is_blocked main_thread s) then close_client i s else s

unfoldable pub disconnect_all : ℕ → ℕ → Server → Server
disconnect_all zero i s = s
disconnect_all (suc n) i s = elim (get_elem? s.clients i) [
  | none ↦ s
  | some c ↦ disconnect_all n (suc i) (disconnect_at i c s)
]

unfoldable pub disconnect_clients : Server → Server
disconnect_clients s = disconnect_all (length s.clients) 0 (record s { event_count = 0 })

-- ===== src/Server/System.antt =====
-- All threads together, in any order, from the start of the server on.
use google_test_c_programs.Base.{ℕ, ◌+◌, ◌≡◌, Bool, false, List, [], replicate}
use google_test_c_programs.Base.Outcome.{ok}
use google_test_c_programs.Base.CString.{Bytes}
use google_test_c_programs.MsgLen.Frames.{Kind}
use google_test_c_programs.Sockets.{RecvEvent, SendEvent}
use google_test_c_programs.Logging.{Logs}
use google_test_c_programs.Server.{
  Thread, main_thread, db_send_thread, db_recv_thread, bank_send_thread, bank_recv_thread,
  timer_thread, Server,
}
use google_test_c_programs.Server.Locks.{is_blocked, set_server_work}
use google_test_c_programs.Server.Clients.{init_client}
use google_test_c_programs.Server.Steps.{poll, proc_new_client, handle_client, disconnect_clients}
use google_test_c_programs.Server.Threads.{
  db_send_turn, db_recv_msg, bank_send_turn, bank_recv_msg, timer_client, db_connect, bank_connect,
  sigterm,
}

-- `main` up to its loop: `maxPoll` is `maxUsers + 10`, and two of the entries are no clients.
abbrev pub slots : ℕ → ℕ
slots max_users = max_users + 8

abbrev pub start_server : ℕ → Logs → Server
start_server max_users logs = record {
  clients = replicate (slots max_users) init_client;
  max_users = max_users;
  held = [];
  blocked = [];
  db_connected = false;
  bank_connected = false;
  db_send_work = false;
  bank_send_work = false;
  server_work = false;
  orderly_shutdown = false;
  event_count = 0;
  logs = logs;
  db_answers = [];
  db_wire = [];
  bank_wire = [];
  warnings = [];
}

-- A thread takes steps while it is not blocked.
abbrev pub Runs : Thread → Server → Type 0
Runs th s = is_blocked th s ≡ false

-- One step of one thread. A close, which in the code takes no mutex and may come in between the test and
-- the writes of another thread's locked section, is part of the main thread's step here, and so comes
-- before or behind that section: such runs of the code are left out.
pub data Step (kind : Kind) (s : Server) : Server → Type 0 where
  polled : (ready : List Bool) → Runs main_thread s → Step kind s (poll ready s)
  accepted :
      {t : Server} (fd time : ℕ)
      → Runs main_thread s
      → proc_new_client fd time s ≡ ok t
      → Step kind s t
  handled :
      {t : Server} (i time : ℕ) (recvs : List RecvEvent) (sends : List SendEvent) (stack : Bytes)
      → Runs main_thread s
      → handle_client i time recvs sends stack s ≡ ok t
      → Step kind s t
  events_read : Runs main_thread s → Step kind s (disconnect_clients s)
  db_sends :
      {t : Server} (time : ℕ) (sends : List SendEvent)
      → Runs db_send_thread s
      → db_send_turn time sends s ≡ ok t
      → Step kind s t
  db_replies :
      {t : Server} (time : ℕ) (msg : Bytes)
      → Runs db_recv_thread s
      → db_recv_msg time msg s ≡ ok t
      → Step kind s t
  bank_sends :
      {t : Server} (time : ℕ) (sends : List SendEvent)
      → Runs bank_send_thread s
      → bank_send_turn kind time sends s ≡ ok t
      → Step kind s t
  bank_replies :
      {t : Server} (time : ℕ) (msg : Bytes)
      → Runs bank_recv_thread s
      → bank_recv_msg kind time msg s ≡ ok t
      → Step kind s t
  timer_checks :
      {t : Server} (i time : ℕ) → Runs timer_thread s → timer_client i time s ≡ ok t → Step kind s t
  timer_counts : Runs timer_thread s → Step kind s (set_server_work timer_thread s)
  db_connects : Runs db_send_thread s → Step kind s (db_connect s)
  db_is_lost : Runs db_recv_thread s → Step kind s (record s { db_connected = false })
  bank_connects : Runs bank_send_thread s → Step kind s (bank_connect s)
  bank_is_lost : Runs bank_recv_thread s → Step kind s (record s { bank_connected = false })
  signalled : Step kind s (sigterm s)

pub data Reach (kind : Kind) (max_users : ℕ) (logs : Logs) : Server → Type 0 where
  start : Reach kind max_users logs (start_server max_users logs)
  later : {s t : Server} → Reach kind max_users logs s → Step kind s t → Reach kind max_users logs t

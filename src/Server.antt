-- ===== src/Server.antt =====
-- clientserver/myserver.c: the server that takes bank messages and control commands. A slot of
-- `MainPoll` and `ClientInfo` from `ClientFdMpx` on is a `Client`, whose `fd` is none while it is -1. Each
-- function below is one step of a thread: what stands between locking and unlocking a client's
-- mutex with the choice of the client in front of it, or one thing that the main thread does in its
-- loop. A mutex that is never unlocked again is in `held`, and a thread that locks it is blocked for good.
-- `closeClientAtIdx` takes no mutex: it is one step here, so what is described are the runs in which
-- no close comes in between the test and the writes of another thread's locked section.
pub mod Clients
pub mod Locks
pub mod Steps
pub mod Threads
pub mod Slots
pub mod Places
pub mod System
pub mod Invariant
pub mod Updates
pub mod Progress
pub mod Core
mod Handled
mod Main
mod Each
mod Turns
pub mod Safety
pub mod Faults
mod Frozen
mod Idle
mod Stuck
pub mod Transaction
mod Tests
use google_test_c_programs.Base.{ℕ, suc, ◌+◌, Bool, true, false, Option, none, some, List, [], ◌∷◌}
use google_test_c_programs.Base.CString.{Bytes}
use google_test_c_programs.Logging.{Logs}

pub data ProcStat : Type 0 where
  stat_init ct_req_recv db_send db_recv bank_send bank_recv ct_resp_send : ProcStat

pub data ProcType : Type 0 where
  type_init iactive bank : ProcType

pub data DisconStat : Type 0 where
  discon_init after_msg now : DisconStat

-- `events` and `revents` of a `struct pollfd`: what is waited for, and what `poll` reported.
pub data Events : Type 0 where
  no_events pollin pollout : Events

-- `servermsg_t` with the `bankmsg_t` in it.
pub record ServerMsg : Type 0 where
  pub initial_msg : ℕ
  pub audit_no : Bytes
  pub cc_no : Bytes
  pub bank_status : Bytes
  pub status : Bytes

-- The mutexes: one for each client, and those of the conditions that the threads wait for.
pub data Lock : Type 0 where
  client_lock : ℕ → Lock
  timer_lock db_send_lock bank_send_lock : Lock

pub data Thread : Type 0 where
  main_thread db_send_thread db_recv_thread bank_send_thread bank_recv_thread timer_thread : Thread

pub record Client : Type 0 where
  pub fd : Option ℕ
  pub events : Events
  pub revents : Events
  pub activity_time : ℕ
  pub discon_stat : DisconStat
  pub discon_msg : Bytes
  pub proc_type : ProcType
  pub proc_stat : ProcStat
  pub request : Bytes
  pub servermsg : ServerMsg
  pub response : Bytes
  pub prev_bytes_sent : ℕ

-- The variables that the threads share. `event_count` counts the writes to the event descriptor; the
-- messages received from the database server, those sent to it and to the bank, and the warnings of
-- the timer (the client, what to do) are kept as lists.
pub record Server : Type 0 where
  pub clients : List Client
  pub max_users : ℕ
  pub held : List Lock
  pub blocked : List Thread
  pub db_connected : Bool
  pub bank_connected : Bool
  pub db_send_work : Bool
  pub bank_send_work : Bool
  pub server_work : Bool
  pub orderly_shutdown : Bool
  pub event_count : ℕ
  pub logs : Logs
  pub db_answers : List Bytes
  pub db_wire : List Bytes
  pub bank_wire : List Bytes
  pub warnings : List (ℕ × Bytes)

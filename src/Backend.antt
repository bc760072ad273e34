-- ===== src/Backend.antt =====
-- clientserver/dbserver.c and clientserver/bankserver.c: the servers behind the server, which give out audit
-- numbers and check credit card numbers. The two programs are alike but for what a request is,
-- and for `initClientAtIdx`. A slot of `MainPoll` and `ClientInfo` from `ClientFdMpx` on is a `Peer`, whose
-- `fd` is none while it is -1. Each request has a thread of its own, whose work on it is one step.
-- The buffer `request` of a slot is empty whenever the main thread is not in its loop on one message.
pub mod Clients
pub mod Requests
pub mod Answers
pub mod Limit
pub mod Audit
pub mod Verdict
pub mod Payment
pub mod Stale
mod Tests
use google_test_c_programs.Base.{ℕ, Bool, Option, List}
use google_test_c_programs.Base.CString.{Bytes}
use google_test_c_programs.MsgLen.Frames.{Kind}
use google_test_c_programs.Logging.{Logs}

pub data Role : Type 0 where
  db_server bank_server : Role

pub record Peer : Type 0 where
  pub fd : Option ℕ
  pub disconnect : Bool
  pub prev_msg : Bytes

-- `procthrlst_t`, a request that a thread works on.
pub record Task : Type 0 where
  pub id : ℕ
  pub fd : ℕ
  pub mpx : ℕ
  pub request : Bytes

-- The variables of the program, with the responses that were handed to `SocketSendNoYield`.
pub record Backend : Type 0 where
  pub peers : List Peer
  pub max_users : ℕ
  pub next_id : ℕ
  pub next_audit_number : ℕ
  pub tasks : List Task
  pub event_count : ℕ
  pub logs : Logs
  pub wire : List (ℕ × Bytes)

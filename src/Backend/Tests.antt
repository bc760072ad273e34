-- ===== src/Backend/Tests.antt =====
-- The servers behind the server on concrete requests.
use google_test_c_programs.Base.{
  ◌<◌, ◌≤◌, ◌≡◌, ◌≢◌, refl, true, false, none, some, [], ◌∷◌, ◌++◌, arith, reverse, replicate,
  get_elem?,
}
use google_test_c_programs.Base.Int.{pos}
use google_test_c_programs.Base.Outcome.{ok, fault, out_of_fuel}
use google_test_c_programs.Base.CString.{Bytes, codes}
use google_test_c_programs.CyclicStr.{sz_cyclic_str}
use google_test_c_programs.MsgLen.{msg_with_null}
use google_test_c_programs.MsgLen.Frames.{with_null, frame}
use google_test_c_programs.Sockets.{taken, socket_send_no_yield}
use google_test_c_programs.Logging.{levels, packages, Logs}
use google_test_c_programs.CreditCard.Luhn.{luhn_sum}
use google_test_c_programs.Server.{pollout, Client, Server}
use google_test_c_programs.Server.Clients.{any, count, select, init_client}
use google_test_c_programs.Server.Locks.{holds}
use google_test_c_programs.Server.Steps.{admit, to_bank}
use google_test_c_programs.Server.Threads.{
  db_request, db_send_turn, db_recv_msg, bank_send_turn, bank_recv_msg,
}
use google_test_c_programs.Server.Transaction.{receipt}
use google_test_c_programs.Backend.{db_server, bank_server, Task, Backend}
use google_test_c_programs.Backend.Clients.{
  new_peer, is_open, open_peer, accept_peer, take_requests, drop_peer,
}
use google_test_c_programs.Backend.Requests.{
  leading, audit_text, responds, db_answer, bank_answer, process,
}
use google_test_c_programs.Backend.Limit.{start_backend, start, accept_peer-limit}
use google_test_c_programs.Backend.Answers.{take_requests-total, take_requests-frames}
use google_test_c_programs.Backend.Audit.{db_answer-distinct}
use google_test_c_programs.Backend.Verdict.{padded, bank_answer-verdict}
use google_test_c_programs.Backend.Payment.{payment}
use google_test_c_programs.Backend.Stale.{drop_peer-stale}

abbrev logs : Logs
logs = record {
  log_write = levels true true false false;
  pkg_write = packages false false false;
  mem_text = λ n. some (codes "malloc");
  cyclic = record { cyclic_str = replicate sz_cyclic_str 0; cyclic_ptr = none };
  log = [];
}

-- Above 999999 the number is cut off, and is one that was given out before.
audit_text_long : audit_text 1000000 ≡ audit_text 100000
unfolding audit_text leading
audit_text_long = refl

accept_peer-limit_example :
    (count is_open (start_backend 1 logs).peers ≤ 1)
    × ((t : Backend) × (accept_peer db_server 5 (start_backend 1 logs) ≡ ok t)
        × (count is_open t.peers ≤ t.max_users))
accept_peer-limit_example =
    accept_peer-limit {kind = with_null} {max_users = 1} {logs = logs} start 5

db_answer-distinct_example :
    (audit audit' : Bytes) × ((db_answer 0 (codes "000005000000") (pos 12)).0
      ≡ responds (codes "000005" ++ audit))
    × ((db_answer 7 (codes "000006000000") (pos 12)).0 ≡ responds (codes "000006" ++ audit'))
    × (audit ≢ audit')
unfolding db_answer
db_answer-distinct_example =
    db_answer-distinct 0 7 (codes "000005000000") (codes "000006000000") (pos 12) (pos 12)
      (refl, refl) (refl, refl) (omega arith) (omega arith)

take_requests-total_example : take_requests 5 msg_with_null (codes "ABC") ≢ out_of_fuel
take_requests-total_example = take_requests-total 5 msg_with_null (codes "ABC") (omega arith)

take_requests-frames_example :
    (5 ≤ 5
      → 2 ≤ 3
      → take_requests 3 msg_with_null (codes "ABCD" ++ (0 ∷ codes "EF" ++ (0 ∷ codes "GH")))
        ≡ ok ((codes "ABCD" ++ 0 ∷ []) ∷ (codes "EF" ++ 0 ∷ []) ∷ [], codes "GH"))
    × (5 < 5
        → take_requests 1 msg_with_null (codes "ABCD" ++ (0 ∷ codes "EF" ++ (0 ∷ codes "GH")))
          ≡ fault)
unfolding frame
take_requests-frames_example =
    take_requests-frames with_null (codes "ABCD") (codes "EF") (codes "GH") (codes "I" ++ 0 ∷ [])
      (codes "GHI") 0 (omega arith) (omega arith) (omega arith) refl (λ h. cc)

-- 4556737586899855 from its last digit on.
abbrev card : Bytes
card = codes "5589986857376554"

bank_answer-verdict_example :
    bank_answer (codes "000042" ++ (padded (reverse card) ++ codes "  ")) (pos 27)
    ≡ ok (responds (codes "000042" ++ (padded (reverse card) ++ codes "00")))
unfolding luhn_sum
bank_answer-verdict_example =
    bank_answer-verdict (codes "000042") card (codes "  ") refl (omega arith) (omega arith)

drop_peer-stale_example :
    (drop_peer db_server (
        open_peer 6
          (drop_peer db_server (record { fd = some 5; disconnect = true; prev_msg = [] })))
      ≡ open_peer 6 new_peer)
    × (is_open (
          drop_peer bank_server (
            open_peer 6
              (drop_peer bank_server (record { fd = some 5; disconnect = true; prev_msg = [] }))))
        ≡ false)
drop_peer-stale_example =
    drop_peer-stale (record { fd = some 5; disconnect = true; prev_msg = [] }) 6 refl refl

abbrev waiting : Client
waiting =
    to_bank 101
      record {
        initial_msg = b'1';
        audit_no = codes "000000";
        cc_no = codes "4556737586899855   ";
        bank_status = codes "  ";
        status = codes "  ";
      }
      (admit 5 100 init_client)

abbrev server : Server
server = record {
  clients = waiting ∷ init_client ∷ [];
  max_users = 1;
  held = [];
  blocked = [];
  db_connected = true;
  bank_connected = true;
  db_send_work = true;
  bank_send_work = false;
  server_work = true;
  orderly_shutdown = false;
  event_count = 0;
  logs = logs;
  db_answers = [];
  db_wire = [];
  bank_wire = [];
  warnings = [];
}

abbrev number : Bytes
number = audit_text 1

abbrev to_db : Task
to_db = record { id = 1; fd = 5; mpx = 0; request = db_request waiting }

abbrev to_bank_server : Task
to_bank_server = record {
  id = 1;
  fd = 5;
  mpx = 0;
  request = frame with_null (number ++ (waiting.servermsg.cc_no ++ waiting.servermsg.bank_status));
}

payment_example :
    (t u v x : Server) × (db' bk' : Backend) × (d : Client) × (reply reply' : Bytes) × (db_send_turn
        102
        (taken 99 ∷ [])
        server
      ≡ ok t)
    × (process db_server with_null [] to_db (start_backend 1 logs) ≡ ok db')
    × (db'.wire ≡ (5, reply) ∷ [])
    × (db_recv_msg 102 reply t ≡ ok u)
    × (bank_send_turn with_null 102 (taken 99 ∷ []) u ≡ ok v)
    × (process bank_server with_null [] to_bank_server (start_backend 1 logs) ≡ ok bk')
    × (bk'.wire ≡ (5, reply') ∷ [])
    × (bank_recv_msg with_null 102 reply' v ≡ ok x)
    × (get_elem? x.clients 0 ≡ some d)
    × (d.response ≡ receipt b'1' number waiting.servermsg.cc_no (codes "00"))
    × (d.events ≡ pollout)
unfolding select any holds socket_send_no_yield frame audit_text leading luhn_sum
payment_example =
    payment server (start_backend 1 logs) (start_backend 1 logs) 0 waiting with_null 102 card
      (db_request waiting)
      (frame with_null (number ++ (waiting.servermsg.cc_no ++ waiting.servermsg.bank_status))) [] []
      to_db to_bank_server (taken 99 ∷ []) (taken 99 ∷ []) refl refl refl refl refl
      record { no_other_id = refl; no_bank_send = refl; no_other_audit = refl } (omega arith)
      (omega arith) refl refl refl refl refl refl

-- ===== src/Server/Safety.antt =====
-- What holds of every state that the server can reach by the steps of System, in which no close comes in
-- between the test and the writes of another thread's locked section.
use google_test_c_programs.Base.{
  ℕ, zero, suc, ◌≤◌, ◌≡◌, refl, ◌∙◌, sym, Bool, true, false, some, [], ◌∷◌, ◌++◌, replicate,
  length-replicate, arith, length, get_elem?, All, inl, inr, Bool-cases,
}
use google_test_c_programs.Base.CString.{Bytes, codes}
use google_test_c_programs.MsgLen.Frames.{Kind}
use google_test_c_programs.Logging.{Logs}
use google_test_c_programs.Server.{db_send_thread, bank_send_thread, timer_thread, Client, Server}
use google_test_c_programs.Server.Clients.{
  init_client, set_client_disconnect, is_connected, is_served, is_iactive, any, count,
}
use google_test_c_programs.Server.Steps.{update_client, signal}
use google_test_c_programs.Server.Threads.{db_connect, bank_connect, sigterm}
use google_test_c_programs.Server.System.{
  slots, start_server, Step, polled, accepted, handled, events_read, db_sends, db_replies,
  bank_sends, bank_replies, timer_checks, timer_counts, db_connects, db_is_lost, bank_connects,
  bank_is_lost, signalled, Reach, start, later,
}
use google_test_c_programs.Server.Invariant.{IsSound, init_client-IsSound}
use google_test_c_programs.Server.Slots.{All-get}
use google_test_c_programs.Server.Core.{
  Inv, set_server_work-Inv, set_db_send_work-Inv, set_bank_send_work-Inv,
}
use google_test_c_programs.Server.Main.{handle_client-Inv, proc_new_client-Inv}
use google_test_c_programs.Server.Each.{poll-Inv, disconnect_clients-Inv}
use google_test_c_programs.Server.Turns.{
  db_send_turn-Inv, db_recv_msg-Inv, bank_send_turn-Inv, bank_recv_msg-Inv, timer_client-Inv,
}

sigterm-Inv : (s : Server) → Inv s → Inv (sigterm s)
unfolding sigterm
sigterm-Inv s inv = elim (Bool-cases (any is_connected s.clients)) [
  | inl h ↦ rw h inv
  | inr h ↦ rw h inv
]

count-replicate :
    (p : Client → Bool) (n : ℕ) → p init_client ≡ false → count p (replicate n init_client) ≡ 0
unfolding count
count-replicate p zero h = refl
count-replicate p (suc n) h = rw h (count-replicate p n h)

All-replicate {κ} : (P : Client → Type κ) (n : ℕ) → P init_client → All P (replicate n init_client)
All-replicate P zero h = tt
All-replicate P (suc n) h = (h, All-replicate P n h)

start-Inv : (max_users : ℕ) (logs : Logs) → Inv (start_server max_users logs)
start-Inv max_users logs =
    let n = slots max_users in
    record {
      clients = All-replicate (IsSound []) n (init_client-IsSound []);
      limit = let e = count-replicate is_served n refl in omega (arith, e);
      session =
          let P : Client → Type 0 = λ c. is_iactive c.proc_type ≡ true → c.fd ≡ some 0 in
          (0, All-replicate P n (λ h. absurd cc));
      room = length-replicate n init_client;
    }

Step-Inv : {kind : Kind} {s t : Server} → Step kind s t → Inv s → Inv t
unfolding db_connect bank_connect
Step-Inv {s} (polled ready runs) inv = poll-Inv ready s inv
Step-Inv {s} {t} (accepted fd time runs e) inv = proc_new_client-Inv s t fd time inv e
Step-Inv {s} {t} (handled i time recvs sends stack runs e) inv =
    handle_client-Inv s t i time recvs sends stack inv e
Step-Inv {s} (events_read runs) inv = disconnect_clients-Inv s inv
Step-Inv {s} {t} (db_sends time sends runs e) inv = db_send_turn-Inv s t time sends inv e
Step-Inv {s} {t} (db_replies time msg runs e) inv = db_recv_msg-Inv s t time msg inv e
Step-Inv {kind} {s} {t} (bank_sends time sends runs e) inv =
    bank_send_turn-Inv s t kind time sends inv e
Step-Inv {kind} {s} {t} (bank_replies time msg runs e) inv =
    bank_recv_msg-Inv s t kind time msg inv e
Step-Inv {s} {t} (timer_checks i time runs e) inv = timer_client-Inv s t i time inv e
Step-Inv {s} (timer_counts runs) inv = set_server_work-Inv timer_thread s inv
Step-Inv (db_connects runs) inv = set_db_send_work-Inv db_send_thread _ inv
Step-Inv (db_is_lost runs) inv = inv
Step-Inv (bank_connects runs) inv = set_bank_send_work-Inv bank_send_thread _ inv
Step-Inv (bank_is_lost runs) inv = inv
Step-Inv {s} signalled inv = sigterm-Inv s inv

Reach-Inv :
    {kind : Kind} {max_users : ℕ} {logs : Logs} {s : Server} → Reach kind max_users logs s → Inv s
Reach-Inv {max_users} {logs} start = start-Inv max_users logs
Reach-Inv (later r step) = Step-Inv step (Reach-Inv r)

-- The server behind a time-out of client `i`.
abbrev pub timed_out : ℕ → Bytes → Server → Server
timed_out i advice s = signal (
    update_client i (set_client_disconnect (codes "Timed out"))
      (record s { warnings = s.warnings ++ (i, advice) ∷ [] }))

module _ {kind : Kind} {max_users : ℕ} {logs : Logs} {s : Server}
    (r : Reach kind max_users logs s) where
  -- In every state that the server can reach there are the ten slots less two on top of the limit of
  -- users that `main` takes, and no more clients than the limit are served: connected, and
  -- not marked to be disconnected.
  pub server-limit :
      (length s.clients ≡ slots s.max_users) × (count is_served s.clients ≤ s.max_users)
  server-limit = ((Reach-Inv r).room, (Reach-Inv r).limit)

  -- In every state that the server can reach, two clients that are both in an interactive session
  -- have the same descriptor.
  pub one-session :
      (i j : ℕ) (c d : Client)
      → get_elem? s.clients i ≡ some c
      → get_elem? s.clients j ≡ some d
      → is_iactive c.proc_type ≡ true
      → is_iactive d.proc_type ≡ true
      → c.fd ≡ d.fd
  one-session i j c d at at' h h' =
      let (fd, all) = (Reach-Inv r).session in
      let P : Client → Type 0 = λ c. is_iactive c.proc_type ≡ true → c.fd ≡ some fd in
      All-get P s.clients i c all at h ∙ sym (All-get P s.clients j d all at' h')

-- ===== src/Server/Stuck.antt =====
-- What follows when the main thread locks a mutex that is never unlocked.
use google_test_c_programs.Base.{
  ℕ, ◌≡◌, refl, arith, Bool, true, false, not, ◌&&◌, Option, some, List, ◌==◌, get_elem?, inl, inr,
  Bool-cases,
}
use google_test_c_programs.Base.Outcome.{ok}
use google_test_c_programs.Base.CString.{Bytes}
use google_test_c_programs.MsgLen.Frames.{Kind}
use google_test_c_programs.Sockets.{RecvEvent, SendEvent, reset, socket_send_no_yield}
use google_test_c_programs.Server.{
  db_send, db_send_lock, main_thread, db_send_thread, bank_send_thread, timer_thread, Client,
  Server,
}
use google_test_c_programs.Server.Clients.{is_connected, is_at, any, select}
use google_test_c_programs.Server.Locks.{locked, holds, is_blocked, block}
use google_test_c_programs.Server.Steps.{is_reported, handle_client}
use google_test_c_programs.Server.Threads.{
  db_request, db_sent, db_send_client, db_send_turn, db_connect, bank_connect, sigterm,
}
use google_test_c_programs.Server.System.{
  Step, polled, accepted, handled, events_read, db_sends, db_replies, bank_sends, bank_replies,
  timer_checks, timer_counts, db_connects, db_is_lost, bank_connects, bank_is_lost, signalled,
}
use google_test_c_programs.Server.Frozen.{
  fds, Frozen, set_server_work-Frozen, set_db_send_work-Frozen, set_bank_send_work-Frozen,
}
use google_test_c_programs.Server.Idle.{
  db_send_turn-Frozen, bank_send_turn-Frozen, db_recv_msg-Frozen, bank_recv_msg-Frozen,
  timer_client-Frozen,
}

moves : {A : Type 0} (b : Bool) → b ≡ false → b ≡ true → A
moves b e h = absurd cc

Step-Frozen :
    {kind : Kind} {fs : List (Option ℕ)} {s t : Server} → Step kind s t → Frozen fs s → Frozen fs t
unfolding db_connect bank_connect sigterm is_blocked
Step-Frozen {s} (polled ready runs) f = moves _ runs f.1
Step-Frozen {s} (accepted fd time runs e) f = moves _ runs f.1
Step-Frozen {s} (handled i time recvs sends stack runs e) f = moves _ runs f.1
Step-Frozen {s} (events_read runs) f = moves _ runs f.1
Step-Frozen {fs} {s} {t} (db_sends time sends runs e) f = db_send_turn-Frozen fs s t f time sends e
Step-Frozen {fs} {s} {t} (db_replies time msg runs e) f = db_recv_msg-Frozen fs s t f time msg e
Step-Frozen {kind} {fs} {s} {t} (bank_sends time sends runs e) f =
    bank_send_turn-Frozen fs s t f kind time sends e
Step-Frozen {kind} {fs} {s} {t} (bank_replies time msg runs e) f =
    bank_recv_msg-Frozen fs s t f kind time msg e
Step-Frozen {fs} {s} {t} (timer_checks i time runs e) f = timer_client-Frozen fs s t f i time e
Step-Frozen {fs} {s} (timer_counts runs) f = set_server_work-Frozen fs s f timer_thread
Step-Frozen {fs} {s} (db_connects runs) f =
    set_db_send_work-Frozen fs (record s { db_connected = true }) f db_send_thread
Step-Frozen (db_is_lost runs) f = f
Step-Frozen {fs} {s} (bank_connects runs) f =
    set_bank_send_work-Frozen fs (record s { bank_connected = true }) f bank_send_thread
Step-Frozen (bank_is_lost runs) f = f
Step-Frozen {s} signalled f = elim (Bool-cases (any is_connected s.clients)) [
  | inl h ↦ rw h f
  | inr h ↦ rw h f
]

-- A state that any number of steps lead to.
pub data Later (kind : Kind) (s : Server) : Server → Type 0 where
  at_once : Later kind s s
  after : {t u : Server} → Later kind s t → Step kind t u → Later kind s u

Later-Frozen :
    {kind : Kind} {fs : List (Option ℕ)} {s t : Server} → Later kind s t → Frozen fs s → Frozen fs t
Later-Frozen at_once f = f
Later-Frozen (after steps step) f = Step-Frozen step (Later-Frozen steps f)

-- When the connection is lost while a client's request is sent to the database server, the client's
-- mutex stays locked. If `poll` reports the client in a state in which its mutex is locked that way, the
-- main thread handles it and is blocked for good: in every later state, whatever the other threads do,
-- it is still blocked, and each slot has the descriptor that it had, so that no connection is accepted
-- or closed any more.
pub db_send_turn-stuck :
    {kind : Kind} (s : Server) (i : ℕ) (c : Client) (time : ℕ) (sends : List SendEvent) (w : Bytes)
    → s.db_connected ≡ true
    → s.db_send_work ≡ true
    → locked db_send_lock s.held ≡ false
    → select (is_at db_send) s.clients ≡ some (i, c)
    → holds i s.held ≡ false
    → socket_send_no_yield (db_request c) sends ≡ ok (reset w)
    → (t : Server) × (db_send_turn time sends s ≡ ok t)
      × (holds i t.held ≡ true)
      × ((u : Server) (d : Client) (now : ℕ) (recvs : List RecvEvent) (outs : List SendEvent)
            (stack : Bytes)
          → holds i u.held ≡ true
          → get_elem? u.clients i ≡ some d
          → is_connected d ≡ true
          → is_reported d.revents ≡ true
          → (v : Server) × (handle_client i now recvs outs stack u ≡ ok v)
            × ((x : Server) → Later kind v x → (fds x ≡ fds u) × (is_blocked main_thread x ≡ true)))
unfolding db_send_turn db_send_client db_sent handle_client holds any is_blocked
db_send_turn-stuck s i c time sends w up work unlocked found free lost = (
  db_sent i c time s (reset w),
  let g : not (s.db_connected && s.db_send_work) ≡ false = rw (up, work) refl in
      rw (unlocked, g, found, free, lost) refl,
  let q : (i == i) ≡ true = ground arith in rw q refl,
  λ u d now recvs outs stack held at conn rep. (
    block main_thread u,
    rw (at, handle_client, conn, rep, held) refl,
    λ x steps. Later-Frozen steps (refl, refl),
  ),
)

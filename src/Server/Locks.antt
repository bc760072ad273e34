-- ===== src/Server/Locks.antt =====
-- Mutexes that stay locked, and `setServerWorkPending`, `setDbSendWorkPending` and
-- `setBankSendWorkPending`, which look for work under the mutexes of the clients.
use google_test_c_programs.Base.{
  ℕ, suc, Bool, true, false, not, ◌&&◌, ◌||◌, List, [], ◌∷◌, ◌==◌, ◌≡◌, refl, if◌then◌else◌, inl,
  inr, Bool-cases,
}
use google_test_c_programs.Server.{
  db_send, bank_send, Lock, client_lock, timer_lock, db_send_lock, bank_send_lock, Thread,
  main_thread, db_send_thread, db_recv_thread, bank_send_thread, bank_recv_thread, timer_thread,
  Client, Server,
}
use google_test_c_programs.Server.Clients.{is_served, is_at, any}

abbrev same_lock : Lock → Lock → Bool
same_lock (client_lock i) (client_lock j) = i == j
same_lock timer_lock timer_lock = true
same_lock db_send_lock db_send_lock = true
same_lock bank_send_lock bank_send_lock = true
same_lock _ _ = false

-- The test whether a mutex is never unlocked again, and that for the mutex of a client.
unfoldable pub locked : Lock → List Lock → Bool
locked l held = any (same_lock l) held

unfoldable pub holds : ℕ → List Lock → Bool
holds i held = any (same_lock (client_lock i)) held

abbrev thread_no : Thread → ℕ
thread_no main_thread = 0
thread_no db_send_thread = 1
thread_no db_recv_thread = 2
thread_no bank_send_thread = 3
thread_no bank_recv_thread = 4
thread_no timer_thread = 5

-- The test whether a thread waits for such a mutex.
unfoldable pub is_blocked : Thread → Server → Bool
is_blocked th s = any (λ u. thread_no th == thread_no u) s.blocked

abbrev pub block : Thread → Server → Server
block th s = record s { blocked = th ∷ s.blocked }

-- The loop over the clients from `i` on: it locks the mutex of each that passes `tried` until one
-- passes `found`. Whether it meets a mutex that stays locked.
unfoldable pub meets_held : (Client → Bool) → (Client → Bool) → List Lock → ℕ → List Client → Bool
meets_held tried found held i [] = false
meets_held tried found held i (c ∷ cs) =
    let rest = meets_held tried found held (suc i) cs in
    if tried c then holds i held || not (found c) && rest else rest

-- The flag is 0 from the start of the loop on; a thread that is blocked in it keeps the mutex of the
-- condition.
unfoldable pub set_server_work : Thread → Server → Server
set_server_work th s =
    if locked timer_lock s.held
    then block th s
    else if meets_held is_served is_served s.held 0 s.clients
    then block th (record s { server_work = false; held = timer_lock ∷ s.held })
    else record s { server_work = any is_served s.clients }

unfoldable pub set_db_send_work : Thread → Server → Server
set_db_send_work th s =
    if locked db_send_lock s.held
    then block th s
    else if meets_held (is_at db_send) (is_at db_send) s.held 0 s.clients
    then block th (record s { db_send_work = false; held = db_send_lock ∷ s.held })
    else record s { db_send_work = any (is_at db_send) s.clients }

unfoldable pub set_bank_send_work : Thread → Server → Server
set_bank_send_work th s =
    if locked bank_send_lock s.held
    then block th s
    else if meets_held is_served (is_at bank_send) s.held 0 s.clients
    then block th (record s { bank_send_work = false; held = bank_send_lock ∷ s.held })
    else record s { bank_send_work = any (is_at bank_send) s.clients }

-- With no mutex locked for good.
meets_none :
    (tried found : Client → Bool) (i : ℕ) (cs : List Client)
    → meets_held tried found [] i cs ≡ false
unfolding meets_held holds any
meets_none tried found i [] = refl
meets_none tried found i (c ∷ cs) =
    let rest = meets_none tried found (suc i) cs in
    elim (Bool-cases (tried c)) [
      | inl h ↦ rw (h, rest) (elim (Bool-cases (found c)) [ inl g ↦ rw g refl | inr g ↦ rw g refl ])
      | inr h ↦ rw h rest
    ]

module _ (th : Thread) (s : Server) (free : s.held ≡ []) where
  pub set_db_send_work_free :
      set_db_send_work th s ≡ record s { db_send_work = any (is_at db_send) s.clients }
  unfolding set_db_send_work locked any
  set_db_send_work_free = rw (free, meets_none (is_at db_send) (is_at db_send) 0 s.clients) refl

  pub set_bank_send_work_free :
      set_bank_send_work th s ≡ record s { bank_send_work = any (is_at bank_send) s.clients }
  unfolding set_bank_send_work locked any
  set_bank_send_work_free = rw (free, meets_none is_served (is_at bank_send) 0 s.clients) refl

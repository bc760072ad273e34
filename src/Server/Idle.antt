-- ===== src/Server/Idle.antt =====
-- The steps of the other threads while the main thread is blocked.
use google_test_c_programs.Base.{
  ℕ, ◌≡◌, refl, ◌∙◌, not, ◌&&◌, Option, List, ◌∷◌, ◌++◌, ◌==◌, length, take, drop, bytes_eq,
  get_elem?, inl, inr, Bool-cases, Option-cases,
}
use mathlib.Core.Path.{subst}
use google_test_c_programs.Base.Int.{pos}
use google_test_c_programs.Base.Outcome.{
  Outcome, ok, exited, fault, out_of_fuel, ◌>>=◌, ok-injective,
}
use google_test_c_programs.Base.CString.{Bytes, codes}
use google_test_c_programs.MsgLen.{msg_start_pos, msg_len_from_xmit_len}
use google_test_c_programs.MsgLen.Frames.{Kind, ind_of, frame}
use google_test_c_programs.Sockets.{SendEvent, Sent, sent, reset, sending, socket_send_no_yield}
use google_test_c_programs.Server.{
  db_send, db_recv, bank_send, bank_recv, db_send_lock, bank_send_lock, db_send_thread,
  db_recv_thread, bank_send_thread, bank_recv_thread, timer_thread, Client, Server,
}
use google_test_c_programs.Server.Clients.{
  bankmsg_bytes, setup_client_response, set_client_disconnect, is_at, select, db_id,
}
use google_test_c_programs.Server.Locks.{locked, holds, is_blocked}
use google_test_c_programs.Server.Steps.{update_client, is_size}
use google_test_c_programs.Server.Threads.{
  with_status, moved_on, db_request, db_sent, db_send_client, db_send_turn, answered, db_recv_msg,
  bank_sent, bank_send_client, bank_send_turn, sz_bankmsg, respond, bank_recv_msg, is_late,
  timer_client,
}
use google_test_c_programs.Server.Frozen.{
  Frozen, modify-fds, block-Frozen, update_client-Frozen, set_db_send_work-Frozen,
  set_bank_send_work-Frozen,
}

-- What a sending thread leaves once its call of `send` is done.
sent-Frozen :
    (fs : List (Option ℕ)) (t : Server) (r : Outcome Sent) (k : Sent → Server)
    → ((x : Sent) → Frozen fs (k x))
    → (r >>= λ x. ok (k x)) ≡ ok t
    → Frozen fs t
sent-Frozen fs t (ok x) k all e = subst (Frozen fs) (ok-injective e) (all x)
sent-Frozen fs t (exited e') k all e = absurd cc
sent-Frozen fs t fault k all e = absurd cc
sent-Frozen fs t out_of_fuel k all e = absurd cc

module _ (fs : List (Option ℕ)) (s t : Server) (frozen : Frozen fs s) where
  -- A step that leaves `u`.
  leaves-Frozen : (u : Server) → Frozen fs u → ok u ≡ ok t → Frozen fs t
  leaves-Frozen u f e = subst (Frozen fs) (ok-injective e) f

  db_sent-Frozen : (i : ℕ) (c : Client) (time : ℕ) (r : Sent) → Frozen fs (db_sent i c time s r)
  unfolding db_sent is_blocked
  db_sent-Frozen i c time (sent w) =
      set_db_send_work-Frozen fs _
        (
          modify-fds s.clients i (moved_on db_recv time (codes "DS")) (λ c. refl) ∙ frozen.0,
          frozen.1,
        )
        db_send_thread
  db_sent-Frozen i c time (reset w) =
      (modify-fds s.clients i (with_status (codes "DS")) (λ c. refl) ∙ frozen.0, frozen.1)
  db_sent-Frozen i c time (sending w) = frozen

  bank_sent-Frozen : (i : ℕ) (c : Client) (time : ℕ) (r : Sent) → Frozen fs (bank_sent i c time s r)
  unfolding bank_sent is_blocked
  bank_sent-Frozen i c time (sent w) =
      set_bank_send_work-Frozen fs _
        (
          modify-fds s.clients i (moved_on bank_recv time (codes "BS")) (λ c. refl) ∙ frozen.0,
          frozen.1,
        )
        bank_send_thread
  bank_sent-Frozen i c time (reset w) =
      (modify-fds s.clients i (with_status (codes "BS")) (λ c. refl) ∙ frozen.0, frozen.1)
  bank_sent-Frozen i c time (sending w) = frozen

  pub db_send_turn-Frozen :
      (time : ℕ) (sends : List SendEvent) → db_send_turn time sends s ≡ ok t → Frozen fs t
  unfolding db_send_turn db_send_client
  db_send_turn-Frozen time sends h = elim (Bool-cases (locked db_send_lock s.held)) [
    | inl w ↦ leaves-Frozen _ (block-Frozen fs s frozen db_send_thread) (rw w at h)
    | inr w ↦ elim (Bool-cases (not (s.db_connected && s.db_send_work))) [
      | inl g ↦ leaves-Frozen s frozen (rw (w, g) at h)
      | inr g ↦ elim (Option-cases (select (is_at db_send) s.clients)) [
        | inl n ↦
            leaves-Frozen _ (set_db_send_work-Frozen fs s frozen db_send_thread) (rw (w, g, n) at h)
        | inr ((i, c), found) ↦ elim (Bool-cases (holds i s.held)) [
          | inl l ↦
              leaves-Frozen _ (block-Frozen fs s frozen db_send_thread) (rw (w, g, found, l) at h)
          | inr l ↦
              sent-Frozen fs t (socket_send_no_yield (db_request c) sends) (db_sent i c time s)
                (db_sent-Frozen i c time) (rw (w, g, found, l) at h)
        ]
      ]
    ]
  ]

  pub bank_send_turn-Frozen :
      (kind : Kind) (time : ℕ) (sends : List SendEvent)
      → bank_send_turn kind time sends s ≡ ok t
      → Frozen fs t
  unfolding bank_send_turn bank_send_client
  bank_send_turn-Frozen kind time sends h = elim (Bool-cases (locked bank_send_lock s.held)) [
    | inl w ↦ leaves-Frozen _ (block-Frozen fs s frozen bank_send_thread) (rw w at h)
    | inr w ↦ elim (Bool-cases (not (s.bank_connected && s.bank_send_work))) [
      | inl g ↦ leaves-Frozen s frozen (rw (w, g) at h)
      | inr g ↦ elim (Option-cases (select (is_at bank_send) s.clients)) [
        | inl n ↦
            leaves-Frozen _ (set_bank_send_work-Frozen fs s frozen bank_send_thread)
              (rw (w, g, n) at h)
        | inr ((i, c), found) ↦ elim (Bool-cases (holds i s.held)) [
          | inl l ↦
              leaves-Frozen _ (block-Frozen fs s frozen bank_send_thread) (rw (w, g, found, l) at h)
          | inr l ↦
              sent-Frozen fs t (socket_send_no_yield (frame kind (bankmsg_bytes c.servermsg)) sends)
                (bank_sent i c time s) (bank_sent-Frozen i c time) (rw (w, g, found, l) at h)
        ]
      ]
    ]
  ]

  pub db_recv_msg-Frozen : (time : ℕ) (msg : Bytes) → db_recv_msg time msg s ≡ ok t → Frozen fs t
  unfolding db_recv_msg is_blocked
  db_recv_msg-Frozen time msg h = elim (Bool-cases (not (length msg == 13))) [
    | inl g ↦ absurd (let h' = rw g at h in cc)
    | inr g ↦
        let id = take 6 msg in
        let audit = take 6 (drop 6 msg) in
        let s' : Server = record s { db_answers = (id ++ audit) ∷ s.db_answers } in
        elim (Option-cases (select (λ c. is_at db_recv c && bytes_eq (db_id c) id) s.clients)) [
          | inl n ↦
              leaves-Frozen _ (set_bank_send_work-Frozen fs s' frozen db_recv_thread)
                (rw (g, n) at h)
          | inr ((i, c), found) ↦ elim (Bool-cases (holds i s.held)) [
            | inl l ↦
                leaves-Frozen _ (block-Frozen fs s' frozen db_recv_thread) (rw (g, found, l) at h)
            | inr l ↦
                leaves-Frozen _
                  (set_bank_send_work-Frozen fs (update_client i (answered time audit) s')
                    (update_client-Frozen fs s' frozen i (answered time audit) (λ c. refl))
                    db_recv_thread)
                  (rw (g, found, l) at h)
          ]
        ]
  ]

  pub bank_recv_msg-Frozen :
      (kind : Kind) (time : ℕ) (msg : Bytes) → bank_recv_msg kind time msg s ≡ ok t → Frozen fs t
  unfolding bank_recv_msg is_blocked setup_client_response
  bank_recv_msg-Frozen kind time msg h =
      elim (Bool-cases
        (not (is_size sz_bankmsg (msg_len_from_xmit_len (ind_of kind) (pos (length msg)))))) [
          | inl g ↦ absurd (let h' = rw g at h in cc)
          | inr g ↦
              let m = take sz_bankmsg (drop (msg_start_pos (ind_of kind)) msg) in
              let st = take 2 (drop 25 m) in
              elim (Option-cases (
                select (λ c. is_at bank_recv c && bytes_eq c.servermsg.audit_no (take 6 m))
                  s.clients)) [
                    | inl n ↦ leaves-Frozen s frozen (rw (g, n) at h)
                    | inr ((i, c), found) ↦ elim (Bool-cases (holds i s.held)) [
                      | inl l ↦
                          leaves-Frozen _ (block-Frozen fs s frozen bank_recv_thread)
                            (rw (g, found, l) at h)
                      | inr l ↦
                          leaves-Frozen _
                            (update_client-Frozen fs s frozen i (respond time st) (λ c. refl))
                            (rw (g, found, l) at h)
                    ]
                  ]
        ]

  pub timer_client-Frozen : (i time : ℕ) → timer_client i time s ≡ ok t → Frozen fs t
  unfolding timer_client is_blocked set_client_disconnect
  timer_client-Frozen i time h = elim (Option-cases (get_elem? s.clients i)) [
    | inl n ↦ absurd (let h' = rw (n, timer_client) at h in cc)
    | inr (c, at) ↦ elim (Bool-cases (is_late time c)) [
      | inr g ↦ leaves-Frozen s frozen (rw (at, timer_client, g) at h)
      | inl g ↦ elim (Bool-cases (holds i s.held)) [
        | inl l ↦
            leaves-Frozen _ (block-Frozen fs s frozen timer_thread)
              (rw (at, timer_client, g, l) at h)
        | inr l ↦
            leaves-Frozen _
              (update_client-Frozen fs s frozen i (set_client_disconnect (codes "Timed out"))
                (λ c. refl))
              (rw (at, timer_client, g, l) at h)
      ]
    ]
  ]

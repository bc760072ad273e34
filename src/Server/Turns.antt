-- ===== src/Server/Turns.antt =====
-- The steps of the other threads keep what holds of the server.
use mathlib.Core.Path.{subst}
use google_test_c_programs.Base.{
  ℕ, ◌-◌, ◌≡◌, refl, ap, Bool, true, not, ◌&&◌, some, List, ◌∷◌, ◌++◌, ◌==◌, ltb, length, take,
  drop, bytes_eq, eq_of_bytes_eq, get_elem?, inl, inr, Bool-cases, Option-cases,
}
use google_test_c_programs.Base.Int.{pos}
use google_test_c_programs.Base.Outcome.{
  Outcome, ok, exited, fault, out_of_fuel, ◌>>=◌, ok-injective,
}
use google_test_c_programs.Base.CString.{Bytes, codes}
use google_test_c_programs.MsgLen.{msg_start_pos, msg_len_from_xmit_len}
use google_test_c_programs.MsgLen.Frames.{Kind, ind_of, frame}
use google_test_c_programs.Sockets.{SendEvent, Sent, sent, reset, sending, socket_send_no_yield}
use google_test_c_programs.Server.{
  db_send, db_recv, bank_send, bank_recv, db_send_lock, bank_send_lock, db_send_thread,
  db_recv_thread, bank_send_thread, Client, Server,
}
use google_test_c_programs.Server.Clients.{
  bankmsg_bytes, set_client_disconnect, is_served, is_at, select, db_id,
}
use google_test_c_programs.Server.Locks.{locked, holds}
use google_test_c_programs.Server.Steps.{is_size}
use google_test_c_programs.Server.Threads.{
  with_status, moved_on, db_request, db_sent, db_send_client, db_send_turn, answered, db_recv_msg,
  bank_sent, bank_send_client, bank_send_turn, sz_bankmsg, respond, bank_recv_msg, wait_time,
  is_late, timer_client,
}
use google_test_c_programs.Server.Updates.{
  and_left, and_right, served-is_connected, set_client_disconnect-Keeps,
}
use google_test_c_programs.Server.Progress.{
  db_status-Keeps, db_moved_on-Keeps, answered-IsSound, bank_status-Keeps, bank_moved_on-Keeps,
  respond-Keeps,
}
use google_test_c_programs.Server.Places.{select-get}
use google_test_c_programs.Server.Core.{
  Inv, Sound-get, Sound-modify, Sound-more, set_db_send_work-Inv, set_bank_send_work-Inv,
}

-- What a sending thread leaves once its call of `send` is done.
sent_cases :
    (s t : Server) (r : Outcome Sent) (k : Sent → Server)
    → ((x : Sent) → Inv (k x))
    → (r >>= λ x. ok (k x)) ≡ ok t
    → Inv t
sent_cases s t (ok x) k all e = subst Inv (ok-injective e) (all x)
sent_cases s t (exited e') k all e = absurd cc
sent_cases s t fault k all e = absurd cc
sent_cases s t out_of_fuel k all e = absurd cc

module _ (s : Server) (i : ℕ) (c : Client) (inv : Inv s) (at : get_elem? s.clients i ≡ some c) where
  db_sent-Inv : (time : ℕ) → is_at db_send c ≡ true → (r : Sent) → Inv (db_sent i c time s r)
  unfolding db_sent
  db_sent-Inv time here (sent w) = set_db_send_work-Inv db_send_thread _ (
      Sound-modify inv i c at (moved_on db_recv time (codes "DS"))
        (db_moved_on-Keeps s.db_answers c (Sound-get inv i c at) time here))
  db_sent-Inv time here (reset w) =
      Sound-modify inv i c at (with_status (codes "DS"))
        (db_status-Keeps s.db_answers c (Sound-get inv i c at) here)
  db_sent-Inv time here (sending w) = inv

  bank_sent-Inv : (time : ℕ) → is_at bank_send c ≡ true → (r : Sent) → Inv (bank_sent i c time s r)
  unfolding bank_sent
  bank_sent-Inv time here (sent w) = set_bank_send_work-Inv bank_send_thread _ (
      Sound-modify inv i c at (moved_on bank_recv time (codes "BS"))
        (bank_moved_on-Keeps s.db_answers c (Sound-get inv i c at) time here))
  bank_sent-Inv time here (reset w) =
      Sound-modify inv i c at (with_status (codes "BS"))
        (bank_status-Keeps s.db_answers c (Sound-get inv i c at) here)
  bank_sent-Inv time here (sending w) = inv

pub db_send_turn-Inv :
    (s t : Server) (time : ℕ) (sends : List SendEvent)
    → Inv s
    → db_send_turn time sends s ≡ ok t
    → Inv t
unfolding db_send_turn db_send_client
db_send_turn-Inv s t time sends inv h = elim (Bool-cases (locked db_send_lock s.held)) [
  | inl w ↦ subst Inv (ok-injective (rw w at h)) inv
  | inr w ↦ elim (Bool-cases (not (s.db_connected && s.db_send_work))) [
    | inl g ↦ subst Inv (ok-injective (rw (w, g) at h)) inv
    | inr g ↦ elim (Option-cases (select (is_at db_send) s.clients)) [
      | inl n ↦
          subst Inv (ok-injective (rw (w, g, n) at h)) (set_db_send_work-Inv db_send_thread s inv)
      | inr ((i, c), found) ↦
          let (at, here) = select-get (is_at db_send) s.clients i c found in
          elim (Bool-cases (holds i s.held)) [
            | inl l ↦ subst Inv (ok-injective (rw (w, g, found, l) at h)) inv
            | inr l ↦
                sent_cases s t (socket_send_no_yield (db_request c) sends) (db_sent i c time s)
                  (db_sent-Inv s i c inv at time here) (rw (w, g, found, l) at h)
          ]
    ]
  ]
]

pub bank_send_turn-Inv :
    (s t : Server) (kind : Kind) (time : ℕ) (sends : List SendEvent)
    → Inv s
    → bank_send_turn kind time sends s ≡ ok t
    → Inv t
unfolding bank_send_turn bank_send_client
bank_send_turn-Inv s t kind time sends inv h = elim (Bool-cases (locked bank_send_lock s.held)) [
  | inl w ↦ subst Inv (ok-injective (rw w at h)) inv
  | inr w ↦ elim (Bool-cases (not (s.bank_connected && s.bank_send_work))) [
    | inl g ↦ subst Inv (ok-injective (rw (w, g) at h)) inv
    | inr g ↦ elim (Option-cases (select (is_at bank_send) s.clients)) [
      | inl n ↦
          subst Inv (ok-injective (rw (w, g, n) at h))
            (set_bank_send_work-Inv bank_send_thread s inv)
      | inr ((i, c), found) ↦
          let (at, here) = select-get (is_at bank_send) s.clients i c found in
          elim (Bool-cases (holds i s.held)) [
            | inl l ↦ subst Inv (ok-injective (rw (w, g, found, l) at h)) inv
            | inr l ↦
                sent_cases s t (socket_send_no_yield (frame kind (bankmsg_bytes c.servermsg)) sends)
                  (bank_sent i c time s) (bank_sent-Inv s i c inv at time here)
                  (rw (w, g, found, l) at h)
          ]
    ]
  ]
]

pub db_recv_msg-Inv :
    (s t : Server) (time : ℕ) (msg : Bytes) → Inv s → db_recv_msg time msg s ≡ ok t → Inv t
unfolding db_recv_msg
db_recv_msg-Inv s t time msg inv h = elim (Bool-cases (not (length msg == 13))) [
  | inl g ↦ absurd (let h' = rw g at h in cc)
  | inr g ↦
      let id = take 6 msg in
      let audit = take 6 (drop 6 msg) in
      let more = Sound-more inv (id ++ audit) in
      let p : Client → Bool = λ c. is_at db_recv c && bytes_eq (db_id c) id in
      elim (Option-cases (select p s.clients)) [
        | inl n ↦
            subst Inv (ok-injective (rw (g, n) at h)) (set_bank_send_work-Inv db_recv_thread _ more)
        | inr ((i, c), found) ↦
            let (at, both) = select-get p s.clients i c found in
            let here = and_left (is_at db_recv c) (bytes_eq (db_id c) id) both in
            let same =
              eq_of_bytes_eq (db_id c) id
                (and_right (is_at db_recv c) (bytes_eq (db_id c) id) both) in
            elim (Bool-cases (holds i s.held)) [
              | inl l ↦ subst Inv (ok-injective (rw (g, found, l) at h)) more
              | inr l ↦ subst Inv (ok-injective (rw (g, found, l) at h)) (
                  set_bank_send_work-Inv db_recv_thread _ (
                    Sound-modify more i c at (answered time audit) record {
                      sound =
                          answered-IsSound ((id ++ audit) ∷ s.db_answers) c (Sound-get more i c at)
                            time audit here (inl (ap (λ z. z ++ audit) same));
                      served = λ h. h;
                      session = λ h. (h, refl);
                    }))
            ]
      ]
]

pub bank_recv_msg-Inv :
    (s t : Server) (kind : Kind) (time : ℕ) (msg : Bytes)
    → Inv s
    → bank_recv_msg kind time msg s ≡ ok t
    → Inv t
unfolding bank_recv_msg
bank_recv_msg-Inv s t kind time msg inv h =
    elim (Bool-cases
      (not (is_size sz_bankmsg (msg_len_from_xmit_len (ind_of kind) (pos (length msg)))))) [
        | inl g ↦ absurd (let h' = rw g at h in cc)
        | inr g ↦
            let bankmsg = take sz_bankmsg (drop (msg_start_pos (ind_of kind)) msg) in
            let p : Client → Bool =
              λ c. is_at bank_recv c && bytes_eq c.servermsg.audit_no (take 6 bankmsg) in
            elim (Option-cases (select p s.clients)) [
              | inl n ↦ subst Inv (ok-injective (rw (g, n) at h)) inv
              | inr ((i, c), found) ↦
                  let (at, both) = select-get p s.clients i c found in
                  let here =
                    and_left (is_at bank_recv c) (bytes_eq c.servermsg.audit_no (take 6 bankmsg))
                      both in
                  let st = take 2 (drop 25 bankmsg) in
                  elim (Bool-cases (holds i s.held)) [
                    | inl l ↦ subst Inv (ok-injective (rw (g, found, l) at h)) inv
                    | inr l ↦ subst Inv (ok-injective (rw (g, found, l) at h)) (
                        Sound-modify inv i c at (respond time st)
                          (respond-Keeps s.db_answers c (Sound-get inv i c at) time st here))
                  ]
            ]
      ]

pub timer_client-Inv : (s t : Server) (i time : ℕ) → Inv s → timer_client i time s ≡ ok t → Inv t
unfolding timer_client
timer_client-Inv s t i time inv h = elim (Option-cases (get_elem? s.clients i)) [
  | inl n ↦ absurd (let h' = rw (n, timer_client) at h in cc)
  | inr (c, at) ↦ elim (Bool-cases (is_late time c)) [
    | inr g ↦ subst Inv (ok-injective (rw (at, timer_client, g) at h)) inv
    | inl g ↦ elim (Bool-cases (holds i s.held)) [
      | inl l ↦ subst Inv (ok-injective (rw (at, timer_client, g, l) at h)) inv
      | inr l ↦ subst Inv (ok-injective (rw (at, timer_client, g, l) at h)) (
          let late = not (ltb (time - c.activity_time) (wait_time c.proc_type)) in
          let conn = served-is_connected c (and_left (is_served c) late g) in
          Sound-modify inv i c at (set_client_disconnect (codes "Timed out")) (
            set_client_disconnect-Keeps s.db_answers c (Sound-get inv i c at) conn
              (codes "Timed out")))
    ]
  ]
]

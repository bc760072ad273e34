-- ===== src/Server/Transaction.antt =====
-- The way of a bank message through the server, from the client to the database server, the bank and back.
use mathlib.Core.Path.{subst}
use google_test_c_programs.Base.{
  ℕ, zero, suc, ◌≡◌, refl, ◌∙◌, ap, sym, Bool, true, false, not, ◌&&◌, some, List, [], ◌∷◌, ◌++◌,
  arith, ◌==◌, length, length-append, append_assoc, take, take_all, drop, bytes_eq, bytes_eq_refl,
  get_elem?, inl, inr, Option-cases,
}
use google_test_c_programs.Base.Int.{pos}
use google_test_c_programs.Base.Outcome.{ok}
use google_test_c_programs.Base.CString.{Bytes, codes}
use google_test_c_programs.MsgLen.{msg_start_pos, msg_len_from_xmit_len}
use google_test_c_programs.MsgLen.Frames.{Kind, ind_of, frame, frame_layout}
use google_test_c_programs.Sockets.{SendEvent, sent, socket_send_no_yield}
use google_test_c_programs.Server.{
  db_send, db_recv, bank_send, bank_recv, pollout, Lock, db_send_lock, bank_send_lock,
  db_send_thread, db_recv_thread, bank_send_thread, Client, Server,
}
use google_test_c_programs.Server.Clients.{
  terminated, bankmsg_bytes, setup_client_response, is_connected, is_served, is_at, stat_no, any,
  select, db_id,
}
use google_test_c_programs.Server.Locks.{
  locked, holds, set_db_send_work_free, set_bank_send_work_free,
}
use google_test_c_programs.Server.Steps.{update_client, signal}
use google_test_c_programs.Server.Threads.{
  moved_on, db_request, db_sent, db_send_client, db_send_turn, answered, db_recv_msg, bank_sent,
  bank_send_client, bank_send_turn, respond, bank_recv_msg,
}
use google_test_c_programs.Server.Updates.{at-is_connected, and_left}
use google_test_c_programs.Server.Slots.{get-modify, get-any}
use google_test_c_programs.Server.Places.{select-get, select-modify, none-modify}

pub take_of : (n : ℕ) (xs ys : Bytes) → length xs ≡ n → take n (xs ++ ys) ≡ xs
take_of zero [] ys h = refl
take_of zero (x ∷ xs) ys h = absurd (omega arith)
take_of (suc n) [] ys h = absurd (omega arith)
take_of (suc n) (x ∷ xs) ys h = ap (λ t. x ∷ t) (take_of n xs ys (omega arith))

pub drop_of : (n : ℕ) (xs ys : Bytes) → length xs ≡ n → drop n (xs ++ ys) ≡ ys
drop_of zero [] ys h = refl
drop_of zero (x ∷ xs) ys h = absurd (omega arith)
drop_of (suc n) [] ys h = absurd (omega arith)
drop_of (suc n) (x ∷ xs) ys h = drop_of n xs ys (omega arith)

pub length-db_id : (c : Client) → is_connected c ≡ true → length (db_id c) ≡ 6
length-db_id c h = elim (Option-cases c.fd) [
  | inl n ↦ absurd (let h' = rw n at h in cc)
  | inr (fd, n) ↦ rw n refl
]

status_of :
    (audit cc_no st : Bytes)
    → length audit ≡ 6
    → length cc_no ≡ 19
    → length st ≡ 2
    → take 2 (drop 25 (audit ++ (cc_no ++ st))) ≡ st
status_of audit cc_no st l l' l'' =
    let n : length (audit ++ cc_no) ≡ 25 = omega (arith, length-append audit cc_no) in
    ap (λ z. take 2 (drop 25 z)) (sym (append_assoc audit cc_no st))
    ∙ ap (take 2) (drop_of 25 (audit ++ cc_no) st n)
    ∙ take_all 2 st (omega arith)

-- A server with the flags of work set anew.
abbrev with_db_work : Server → Server
with_db_work s = record s { db_send_work = any (is_at db_send) s.clients }

abbrev with_bank_work : Server → Server
with_bank_work s = record s { bank_send_work = any (is_at bank_send) s.clients }

module _ (s : Server) (i : ℕ) (c : Client) (held : s.held ≡ []) where
  free : holds i s.held ≡ false
  unfolding holds any
  free = rw held refl

  not_locked : (l : Lock) → locked l s.held ≡ false
  unfolding locked any
  not_locked l = rw held refl

  db_send_goes :
      (time : ℕ) (sends : List SendEvent) (w : Bytes)
      → s.db_connected ≡ true
      → s.db_send_work ≡ true
      → select (is_at db_send) s.clients ≡ some (i, c)
      → socket_send_no_yield (db_request c) sends ≡ ok (sent w)
      → db_send_turn time sends s
        ≡ ok (
            with_db_work (
              update_client i
                (moved_on db_recv time (codes "DS"))
                (record s { db_wire = s.db_wire ++ db_request c ∷ [] })))
  unfolding db_send_turn db_send_client db_sent
  db_send_goes time sends w up work found goes =
      let g : not (s.db_connected && s.db_send_work) ≡ false = rw (up, work) refl in
      rw (not_locked db_send_lock, g, found, free, goes)
        (ap ok (
          set_db_send_work_free db_send_thread
            (update_client i (moved_on db_recv time (codes "DS"))
              (record s { db_wire = s.db_wire ++ db_request c ∷ [] }))
            held))

  bank_send_goes :
      (kind : Kind) (time : ℕ) (sends : List SendEvent) (w : Bytes)
      → s.bank_connected ≡ true
      → s.bank_send_work ≡ true
      → select (is_at bank_send) s.clients ≡ some (i, c)
      → socket_send_no_yield (frame kind (bankmsg_bytes c.servermsg)) sends ≡ ok (sent w)
      → bank_send_turn kind time sends s
        ≡ ok (
            with_bank_work (
              update_client i
                (moved_on bank_recv time (codes "BS"))
                (record s { bank_wire = s.bank_wire ++ bankmsg_bytes c.servermsg ∷ [] })))
  unfolding bank_send_turn bank_send_client bank_sent
  bank_send_goes kind time sends w up work found goes =
      let g : not (s.bank_connected && s.bank_send_work) ≡ false = rw (up, work) refl in
      rw (not_locked bank_send_lock, g, found, free, goes)
        (ap ok (
          set_bank_send_work_free bank_send_thread
            (update_client i (moved_on bank_recv time (codes "BS"))
              (record s { bank_wire = s.bank_wire ++ bankmsg_bytes c.servermsg ∷ [] }))
            held))

  -- What a message of the database server does, by its two parts.
  abbrev Answers : ℕ → Bytes → Bytes → Bytes → Type 0
  Answers time msg id audit =
      select (λ c. is_at db_recv c && bytes_eq (db_id c) id) s.clients ≡ some (i, c)
      → db_recv_msg time msg s
        ≡ ok (
            with_bank_work (
              update_client i (answered time audit)
                (record s { db_answers = (id ++ audit) ∷ s.db_answers })))

  db_recv_parts :
      (time : ℕ) (msg : Bytes)
      → (length msg == 13) ≡ true
      → Answers time msg (take 6 msg) (take 6 (drop 6 msg))
  unfolding db_recv_msg
  db_recv_parts time msg n found =
      rw (n, found, free)
        (ap ok (
          set_bank_send_work_free db_recv_thread
            (update_client i (answered time (take 6 (drop 6 msg)))
              (record s { db_answers = (take 6 msg ++ take 6 (drop 6 msg)) ∷ s.db_answers }))
            held))

  db_recv_goes :
      (time : ℕ) (id audit : Bytes)
      → length id ≡ 6
      → length audit ≡ 6
      → Answers time (id ++ (audit ++ 0 ∷ [])) id audit
  db_recv_goes time id audit l l' =
      let msg = id ++ (audit ++ 0 ∷ []) in
      let first = take_of 6 id (audit ++ 0 ∷ []) l in
      let second = ap (take 6) (drop_of 6 id (audit ++ 0 ∷ []) l) ∙ take_of 6 audit (0 ∷ []) l' in
      let n : (length msg == 13) ≡ true =
        ground (arith, length-append id (audit ++ 0 ∷ []), length-append audit (0 ∷ [])) in
      subst (λ a. Answers time msg id a) second
        (subst (λ x. Answers time msg x (take 6 (drop 6 msg))) first (db_recv_parts time msg n))

  -- What a message of the bank does, by what stands in it.
  abbrev Concludes : Kind → ℕ → Bytes → Bytes → Type 0
  Concludes kind time msg m =
      select (λ c. is_at bank_recv c && bytes_eq c.servermsg.audit_no (take 6 m)) s.clients
        ≡ some (i, c)
      → bank_recv_msg kind time msg s
        ≡ ok (signal (update_client i (respond time (take 2 (drop 25 m))) s))

  bank_recv_parts :
      (kind : Kind) (time : ℕ) (msg : Bytes)
      → msg_len_from_xmit_len (ind_of kind) (pos (length msg)) ≡ pos 27
      → Concludes kind time msg (take 27 (drop (msg_start_pos (ind_of kind)) msg))
  unfolding bank_recv_msg
  bank_recv_parts kind time msg n found = rw (n, found, free) refl

  bank_recv_goes :
      (kind : Kind) (time : ℕ) (m : Bytes) → length m ≡ 27 → Concludes kind time (frame kind m) m
  bank_recv_goes kind time m l =
      let (x, size, back) = frame_layout kind m in
      let inner : take 27 (drop (msg_start_pos (ind_of kind)) (frame kind m)) ≡ m =
        ap (λ n. take n (drop (msg_start_pos (ind_of kind)) (frame kind m))) (sym l) ∙ back in
      subst (λ z. Concludes kind time (frame kind m) z) inner
        (bank_recv_parts kind time (frame kind m) (size ∙ ap pos l))

-- Nothing else is under way that could be taken for client `i`: nobody waits for the bank to be sent
-- to, nobody with the id of this client waits for an audit number, and nobody with the number `audit`
-- for the bank.
pub record Alone (s : Server) (id audit : Bytes) : Type 0 where
  pub no_other_id : any (λ c. is_at db_recv c && bytes_eq (db_id c) id) s.clients ≡ false
  pub no_bank_send : any (is_at bank_send) s.clients ≡ false
  pub no_other_audit :
      any (λ c. is_at bank_recv c && bytes_eq c.servermsg.audit_no audit) s.clients ≡ false

-- What a client gets whose message had the first byte `b` and the card number `cc_no`.
abbrev pub receipt : ℕ → Bytes → Bytes → Bytes → Bytes
receipt b audit cc_no st = terminated 30 (b ∷ ((audit ++ (cc_no ++ st)) ++ codes "BR"))

-- A client at the front of those that wait to be sent to the database server, while nothing else is under
-- way that could be taken for it, both connections are up and no mutex is stuck: once both requests
-- go out and the answers with the audit number and the status of the bank come in, the request for
-- this client and then the message with its audit number have been sent, and the client's response is its
-- message with the audit number, its card number, the status of the bank and `BR`.
pub transaction :
    (s : Server) (i : ℕ) (c : Client) (kind : Kind) (time : ℕ) (audit st w w' : Bytes)
    (sends sends' : List SendEvent)
    → s.held ≡ []
    → s.db_connected ≡ true
    → s.bank_connected ≡ true
    → s.db_send_work ≡ true
    → select (is_at db_send) s.clients ≡ some (i, c)
    → Alone s (db_id c) audit
    → length audit ≡ 6
    → length c.servermsg.cc_no ≡ 19
    → length st ≡ 2
    → socket_send_no_yield (db_request c) sends ≡ ok (sent w)
    → socket_send_no_yield
        (frame kind (audit ++ (c.servermsg.cc_no ++ c.servermsg.bank_status)))
        sends'
      ≡ ok (sent w')
    → (t u v x : Server) × (d : Client) × (db_send_turn time sends s ≡ ok t)
      × (db_recv_msg time (db_id c ++ (audit ++ 0 ∷ [])) t ≡ ok u)
      × (bank_send_turn kind time sends' u ≡ ok v)
      × (bank_recv_msg kind time (frame kind (audit ++ (c.servermsg.cc_no ++ st))) v ≡ ok x)
      × (get_elem? x.clients i ≡ some d)
      × (d.response ≡ receipt c.servermsg.initial_msg audit c.servermsg.cc_no st)
      × (d.events ≡ pollout)
      × (x.db_wire ≡ s.db_wire ++ db_request c ∷ [])
      × (x.bank_wire
          ≡ s.bank_wire ++ (audit ++ (c.servermsg.cc_no ++ c.servermsg.bank_status)) ∷ [])
unfolding setup_client_response
transaction s i c kind time audit st w w' sends sends' held up up' work found alone l l' l'' goes
      goes' =
    let (at, here) = select-get (is_at db_send) s.clients i c found in
    let conn = at-is_connected db_send c here in
    let served = and_left (is_served c) (stat_no c.proc_stat == 2) here in
    let id = db_id c in
    let f1 = moved_on db_recv time (codes "DS") in
    let c1 = f1 c in
    let s1 =
      with_db_work (update_client i f1 (record s { db_wire = s.db_wire ++ db_request c ∷ [] })) in
    let at1 = get-modify s.clients i c f1 at in
    let waits : (is_at db_recv c1 && bytes_eq (db_id c1) id) ≡ true =
      rw (served, bytes_eq_refl id) refl in
    let found1 =
      select-modify (λ c. is_at db_recv c && bytes_eq (db_id c) id) s.clients i c f1
        alone.no_other_id at waits in
    let f2 = answered time audit in
    let c2 = f2 c1 in
    let s2 =
      with_bank_work
        (update_client i f2 (record s1 { db_answers = (id ++ audit) ∷ s.db_answers })) in
    let at2 = get-modify s1.clients i c1 f2 at1 in
    let none1 =
      none-modify (is_at bank_send) s.clients i c f1 alone.no_bank_send at (rw served refl) in
    let ready : is_at bank_send c2 ≡ true = rw served refl in
    let found2 = select-modify (is_at bank_send) s1.clients i c1 f2 none1 at1 ready in
    let f3 = moved_on bank_recv time (codes "BS") in
    let c3 = f3 c2 in
    let s3 = with_bank_work (
      update_client i f3
        (record s2 { bank_wire = s2.bank_wire ++ bankmsg_bytes c2.servermsg ∷ [] })) in
    let at3 = get-modify s2.clients i c2 f3 at2 in
    let m = audit ++ (c.servermsg.cc_no ++ st) in
    let p : Client → Bool = λ c. is_at bank_recv c && bytes_eq c.servermsg.audit_no audit in
    let none2 = none-modify p s.clients i c f1 alone.no_other_audit at (rw served refl) in
    let none3 = none-modify p s1.clients i c1 f2 none2 at1 (rw served refl) in
    let asked : p c3 ≡ true = rw (served, bytes_eq_refl audit) refl in
    let found3 = select-modify p s2.clients i c2 f3 none3 at2 asked in
    let first = take_of 6 audit (c.servermsg.cc_no ++ st) l in
    let found3' =
      subst
        (λ a.
          select (λ c. is_at bank_recv c && bytes_eq c.servermsg.audit_no a) s3.clients
          ≡ some (i, c3))
        (sym first) found3 in
    let size : length m ≡ 27 =
      omega (
        arith,
        length-append audit (c.servermsg.cc_no ++ st),
        length-append c.servermsg.cc_no st,
      ) in
    let st' = take 2 (drop 25 m) in
    let last = status_of audit c.servermsg.cc_no st l l' l'' in
    (
      s1,
      s2,
      s3,
      signal (update_client i (respond time st') s3),
      respond time st' c3,
      db_send_goes s i c held time sends w up work found goes,
      db_recv_goes s1 i c1 held time id audit (length-db_id c conn) l found1,
      bank_send_goes s2 i c2 held kind time sends' w' up'
          (get-any (is_at bank_send) s2.clients i c2 at2 ready) found2 goes',
      bank_recv_goes s3 i c3 held kind time m size found3',
      get-modify s3.clients i c3 (respond time st') at3,
      ap (receipt c.servermsg.initial_msg audit c.servermsg.cc_no) last,
      refl,
      refl,
      refl,
    )

-- ===== src/Backend/Limit.antt =====
-- All threads together, and the limit of connections.
use mathlib.Core.Path.{subst}
use google_test_c_programs.Base.{
  ℕ, zero, suc, ◌+◌, ◌≤◌, ◌≡◌, refl, ◌∙◌, ap, sym, true, false, ◌&&◌, some, List, [], ◌∷◌,
  replicate, length-replicate, arith, ltb, length, take, drop, get_elem?, inl, inr, Bool-cases,
  Option-cases,
}
use google_test_c_programs.Base.Int.{pos}
use google_test_c_programs.Base.Outcome.{
  Outcome, ok, exited, fault, out_of_fuel, ◌>>=◌, ok-injective,
}
use google_test_c_programs.Base.CString.{Bytes}
use google_test_c_programs.MsgLen.{msg_start_pos, msg_len_from_xmit_len}
use google_test_c_programs.MsgLen.Frames.{Kind, ind_of}
use google_test_c_programs.Sockets.{RecvEvent, RecvOnce, got, gone, blocked, socket_recv_by_server}
use google_test_c_programs.Logging.{Logs}
use google_test_c_programs.Cmds.{cmd_proc}
use google_test_c_programs.Server.Clients.{count, modify}
use google_test_c_programs.Server.Steps.{is_command}
use google_test_c_programs.Server.System.{slots}
use google_test_c_programs.Server.Slots.{length-modify, count-modify_any, modify-modify}
use google_test_c_programs.Server.Places.{find-some}
use google_test_c_programs.Backend.{Role, db_server, bank_server, Peer, Task, Backend}
use google_test_c_programs.Backend.Clients.{
  init_peer, new_peer, is_open, open_peer, accept_peer, take_requests, update_peer, with_requests,
  receive_from, receive, drop_peer, drop_all, disconnect_peers,
}
use google_test_c_programs.Backend.Requests.{Answer, responds, closes, answer, finish, process}

abbrev pub start_backend : ℕ → Logs → Backend
start_backend max_users logs = record {
  peers = replicate (slots max_users) new_peer;
  max_users = max_users;
  next_id = 0;
  next_audit_number = 0;
  tasks = [];
  event_count = 0;
  logs = logs;
  wire = [];
}

-- One step: of the main thread, or of the thread of one of the requests on the list.
pub data Step (role : Role) (kind : Kind) (s : Backend) : Backend → Type 0 where
  accepted : {t : Backend} (fd : ℕ) → accept_peer role fd s ≡ ok t → Step role kind s t
  has_received :
      {t : Backend} (i : ℕ) (events : List RecvEvent)
      → receive role kind i events s ≡ ok t
      → Step role kind s t
  processed :
      {t : Backend} (j : ℕ) (task : Task) (stack : Bytes)
      → get_elem? s.tasks j ≡ some task
      → process role kind stack task s ≡ ok t
      → Step role kind s t
  events_read : Step role kind s (disconnect_peers role s)

pub data Reach (role : Role) (kind : Kind) (max_users : ℕ) (logs : Logs) : Backend → Type 0 where
  start : Reach role kind max_users logs (start_backend max_users logs)
  later :
      {s t : Backend}
      → Reach role kind max_users logs s
      → Step role kind s t
      → Reach role kind max_users logs t

-- No more connections than the limit, and ten slots less two on top of it.
pub record Within (max_users : ℕ) (ps : List Peer) : Type 0 where
  pub limit : count is_open ps ≤ max_users
  pub room : length ps ≡ slots max_users

init-closed : (role : Role) (p : Peer) → is_open (init_peer role p) ≡ false
unfolding init_peer
init-closed db_server p = refl
init-closed bank_server p = refl

-- A change of one slot that opens no connection.
Within-modify :
    (max_users : ℕ) (ps : List Peer) (i : ℕ) (f : Peer → Peer)
    → ((p : Peer) → is_open (f p) ≡ true → is_open p ≡ true)
    → Within max_users ps
    → Within max_users (modify i f ps)
Within-modify max_users ps i f k w = record {
  limit = let n = count-modify_any is_open ps i f k in omega (arith, w.limit);
  room = length-modify i f ps ∙ w.room;
}

Within-init :
    (role : Role) (max_users : ℕ) (ps : List Peer) (i : ℕ)
    → Within max_users ps
    → Within max_users (modify i (init_peer role) ps)
Within-init role max_users ps i w =
    Within-modify max_users ps i (init_peer role) (λ p h. absurd (let c = init-closed role p in cc))
      w

drop-open : (role : Role) (p : Peer) → is_open (drop_peer role p) ≡ true → is_open p ≡ true
drop-open role p h = elim (Bool-cases (is_open p && p.disconnect)) [
  | inl g ↦ absurd (let h' = rw g at h in let c = init-closed role p in cc)
  | inr g ↦ rw g at h
]

Within-drop :
    (role : Role) (ps : List Peer)
    → (count is_open (drop_all role ps) ≤ count is_open ps)
      × (length (drop_all role ps) ≡ length ps)
unfolding drop_all count
Within-drop role [] = (omega arith, refl)
Within-drop role (p ∷ ps) =
    let (n, l) = Within-drop role ps in
    (
      elim (Bool-cases (is_open (drop_peer role p))) [
        | inl h ↦ rw (h, drop-open role p h) (omega arith)
        | inr h ↦
            rw h (elim (Bool-cases (is_open p)) [ inl g ↦ rw g (omega arith) | inr g ↦ rw g n ])
      ],
      ap suc l,
    )

abbrev Ok : Backend → Type 0
Ok s = Within s.max_users s.peers

accept-cases :
    (role : Role) (fd : ℕ) (s : Backend)
    → Ok s
    → (t : Backend) × (accept_peer role fd s ≡ ok t) × Ok t
unfolding accept_peer
accept-cases role fd s w =
    let (j, found) = find-some is_open s.peers (omega (arith, w.limit, w.room)) in
    let peers = modify j (open_peer fd) s.peers in
    elim (Bool-cases (ltb s.max_users (count is_open peers))) [
      | inl g ↦ (
        record s { peers = modify j (init_peer role) peers },
        rw (found, accept_peer, g) refl,
        subst (λ ps. Within s.max_users ps)
            (sym (modify-modify j (open_peer fd) (init_peer role) s.peers))
            (Within-modify s.max_users s.peers j (λ p. init_peer role (open_peer fd p))
              (λ p h. absurd (let c = init-closed role (open_peer fd p) in cc)) w),
      )
      | inr g ↦ (
        record s { peers = peers },
        rw (found, accept_peer, g) refl,
        record { limit = ground arith; room = length-modify j (open_peer fd) s.peers ∙ w.room },
      )
    ]

receive-Ok :
    (role : Role) (kind : Kind) (i : ℕ) (events : List RecvEvent) (s t : Backend)
    → Ok s
    → receive role kind i events s ≡ ok t
    → Ok t
unfolding receive receive_from
receive-Ok role kind i events s t w h = elim (Option-cases (get_elem? s.peers i)) [
  | inl n ↦ absurd (let h' = rw (n, receive) at h in cc)
  | inr (p, at) ↦ elim (Option-cases p.fd) [
    | inl n ↦ subst Ok (ok-injective (rw (at, receive, n) at h)) w
    | inr (fd, n) ↦
        outcome fd p (socket_recv_by_server p.prev_msg events) (rw (at, receive, n) at h)
  ]
]
  where
    keep :
        (left : Bytes) (p : Peer) → is_open (record p { prev_msg = left }) ≡ true → is_open p ≡ true
    keep left p h = h

    taken :
        (fd : ℕ) (r : Outcome (List Bytes × Bytes))
        → (r >>= λ (msgs, left). ok (with_requests i fd msgs left s)) ≡ ok t
        → Ok t
    taken fd (ok (msgs, left)) e =
        subst Ok (ok-injective e)
          (Within-modify s.max_users s.peers i (λ p. record p { prev_msg = left }) (keep left) w)
    taken fd (exited x) e = absurd cc
    taken fd fault e = absurd cc
    taken fd out_of_fuel e = absurd cc

    outcome :
        (fd : ℕ) (p : Peer) (r : Outcome RecvOnce)
        → (r >>= λ r. elim r [
          | blocked ↦ ok s
          | gone ↦ ok (update_peer i (init_peer role) s)
          | got prev_msg complete ↦
              take_requests (length prev_msg + 1) (ind_of kind) prev_msg >>= λ (msgs, left).
              ok (with_requests i fd msgs left s)
        ])
          ≡ ok t
        → Ok t
    outcome fd p (ok blocked) e = subst Ok (ok-injective e) w
    outcome fd p (ok gone) e = subst Ok (ok-injective e) (Within-init role s.max_users s.peers i w)
    outcome fd p (ok (got prev_msg complete)) e =
        taken fd (take_requests (length prev_msg + 1) (ind_of kind) prev_msg) e
    outcome fd p (exited x) e = absurd cc
    outcome fd p fault e = absurd cc
    outcome fd p out_of_fuel e = absurd cc

finish-Ok :
    (kind : Kind) (task : Task) (a : Answer) (s : Backend) → Ok s → Ok (finish kind task a s)
finish-Ok kind task (responds msg) s w = w
finish-Ok kind task closes s w =
    Within-modify s.max_users s.peers task.mpx (λ p. record p { disconnect = true }) (λ p h. h) w

process-Ok :
    (role : Role) (kind : Kind) (stack : Bytes) (task : Task) (s t : Backend)
    → Ok s
    → process role kind stack task s ≡ ok t
    → Ok t
unfolding process
process-Ok role kind stack task s t w h =
    let msg_len = msg_len_from_xmit_len (ind_of kind) (pos (length task.request)) in
    let msg = drop (msg_start_pos (ind_of kind)) task.request in
    elim (Bool-cases (is_command msg)) [
      | inl g ↦ command (cmd_proc msg msg_len stack s.logs) (rw g at h)
      | inr g ↦ answered (answer role s.next_audit_number msg msg_len) (rw g at h)
    ]
  where
    command :
        (r : Outcome ((ℕ × Bytes) × Logs))
        → (r >>= λ ((response_len, response), logs).
            ok
              (finish kind task (responds (take response_len response)) (record s { logs = logs })))
          ≡ ok t
        → Ok t
    command (ok ((n, response), logs)) e = subst Ok (ok-injective e) w
    command (exited x) e = absurd cc
    command fault e = absurd cc
    command out_of_fuel e = absurd cc

    answered :
        (r : Outcome (Answer × ℕ))
        → (r >>= λ (a, next). ok (finish kind task a (record s { next_audit_number = next })))
          ≡ ok t
        → Ok t
    answered (ok (a, next)) e =
        subst Ok (ok-injective e) (finish-Ok kind task a (record s { next_audit_number = next }) w)
    answered (exited x) e = absurd cc
    answered fault e = absurd cc
    answered out_of_fuel e = absurd cc

Step-Ok : {role : Role} {kind : Kind} {s t : Backend} → Step role kind s t → Ok s → Ok t
unfolding disconnect_peers
Step-Ok {role} {s} {t} (accepted fd e) w =
    let (u, e', w') = accept-cases role fd s w in subst Ok (ok-injective (sym e' ∙ e)) w'
Step-Ok {role} {kind} {s} {t} (has_received i events e) w = receive-Ok role kind i events s t w e
Step-Ok {role} {kind} {s} {t} (processed j task stack at e) w =
    process-Ok role kind stack task s t w e
Step-Ok {role} {s} events_read w =
    let (n, l) = Within-drop role s.peers in
    record { limit = omega (arith, n, w.limit); room = l ∙ w.room }

none_open : (n : ℕ) → count is_open (replicate n new_peer) ≡ 0
unfolding count
none_open zero = refl
none_open (suc n) = none_open n

Reach-Ok :
    {role : Role} {kind : Kind} {max_users : ℕ} {logs : Logs} {s : Backend}
    → Reach role kind max_users logs s
    → Ok s
Reach-Ok {max_users} start = record {
  limit = let e = none_open (slots max_users) in omega (arith, e);
  room = length-replicate (slots max_users) new_peer;
}
Reach-Ok (later r step) = Step-Ok step (Reach-Ok r)

-- In every state that the database server or the bank server can reach there are no more connections than the limit of
-- users, and a new connection always finds a free slot, is taken or closed at once, and leaves the number
-- of connections within the limit.
pub accept_peer-limit :
    {role : Role} {kind : Kind} {max_users : ℕ} {logs : Logs} {s : Backend}
    (r : Reach role kind max_users logs s) (fd : ℕ)
    → (count is_open s.peers ≤ s.max_users)
      × ((t : Backend) × (accept_peer role fd s ≡ ok t) × (count is_open t.peers ≤ t.max_users))
accept_peer-limit {role} {s} r fd =
    let (t, e, w) = accept-cases role fd s (Reach-Ok r) in ((Reach-Ok r).limit, (t, e, w.limit))

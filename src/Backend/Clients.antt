-- ===== src/Backend/Clients.antt =====
-- What the main thread does: it takes in clients, receives their requests, and closes connections.
use google_test_c_programs.Base.{
  ℕ, zero, suc, ◌+◌, Bool, true, false, not, ◌&&◌, none, some, List, [], ◌∷◌, ◌++◌, ltb,
  if◌then◌else◌, length, get_elem?,
}
use google_test_c_programs.Base.Outcome.{Outcome, ok, fault, out_of_fuel, ◌>>=◌}
use google_test_c_programs.Base.CString.{Bytes}
use google_test_c_programs.MsgLen.{msg_get_complete}
use google_test_c_programs.MsgLen.Frames.{Kind, ind_of}
use google_test_c_programs.Sockets.{RecvEvent, got, gone, blocked, socket_recv_by_server}
use google_test_c_programs.Server.Clients.{count, find, modify}
use google_test_c_programs.Backend.{Role, db_server, bank_server, Peer, Task, Backend}

-- `initClientAtIdx`: the one of bankserver.c leaves `disconnect` as it is.
unfoldable pub init_peer : Role → Peer → Peer
init_peer db_server p = record { fd = none; disconnect = false; prev_msg = [] }
init_peer bank_server p = record { fd = none; disconnect = p.disconnect; prev_msg = [] }

abbrev pub new_peer : Peer
new_peer = record { fd = none; disconnect = false; prev_msg = [] }

abbrev pub is_open : Peer → Bool
is_open p = elim p.fd [ none ↦ false | some n ↦ true ]

abbrev pub open_peer : ℕ → Peer → Peer
open_peer fd p = record p { fd = some fd }

-- `procNewClient` once `accept` has returned. With no free slot it is a slot behind the arrays that is closed.
unfoldable pub accept_peer : Role → ℕ → Backend → Outcome Backend
accept_peer role fd s = elim (find (λ p. not (is_open p)) s.peers) [
  | none ↦ if ltb s.max_users (count is_open s.peers) then fault else ok s
  | some j ↦
      let peers = modify j (open_peer fd) s.peers in
      if ltb s.max_users (count is_open peers)
      then ok (record s { peers = modify j (init_peer role) peers })
      else ok (record s { peers = peers })
]

-- The `for (;;)` around `MsgGetComplete`: the requests found, and the bytes that are left.
unfoldable pub take_requests : ℕ → ℕ → Bytes → Outcome (List Bytes × Bytes)
take_requests zero ind prev_msg = out_of_fuel
take_requests (suc fuel) ind prev_msg =
    msg_get_complete ind [] prev_msg >>= λ (msg, left, complete).
    if not complete
    then ok ([], left)
    else (take_requests fuel ind left >>= λ (msgs, end). ok (msg ∷ msgs, end))

-- An element of the list for each request; `++NextId` is the id.
unfoldable pub new_tasks : ℕ → ℕ → ℕ → List Bytes → List Task
new_tasks id fd mpx [] = []
new_tasks id fd mpx (msg ∷ msgs) =
    record { id = id + 1; fd = fd; mpx = mpx; request = msg } ∷ new_tasks (id + 1) fd mpx msgs

abbrev pub update_peer : ℕ → (Peer → Peer) → Backend → Backend
update_peer i f s = record s { peers = modify i f s.peers }

abbrev pub with_requests : ℕ → ℕ → List Bytes → Bytes → Backend → Backend
with_requests i fd msgs left s =
    update_peer i (λ p. record p { prev_msg = left })
      (record s {
        next_id = s.next_id + length msgs;
        tasks = s.tasks ++ new_tasks s.next_id fd i msgs;
      })

-- What the main thread does with a slot that `poll` reported. Every turn of the loop takes a byte of
-- the buffer, so one more turn than it has bytes is enough.
unfoldable pub receive_from :
    Role → Kind → ℕ → ℕ → Peer → List RecvEvent → Backend → Outcome Backend
receive_from role kind i fd p events s = socket_recv_by_server p.prev_msg events >>= λ r. elim r [
  | blocked ↦ ok s
  | gone ↦ ok (update_peer i (init_peer role) s)
  | got prev_msg complete ↦
      take_requests (length prev_msg + 1) (ind_of kind) prev_msg >>= λ (msgs, left).
      ok (with_requests i fd msgs left s)
]

unfoldable pub receive : Role → Kind → ℕ → List RecvEvent → Backend → Outcome Backend
receive role kind i events s = elim (get_elem? s.peers i) [
  | none ↦ fault
  | some p ↦ elim p.fd [ none ↦ ok s | some fd ↦ receive_from role kind i fd p events s ]
]

-- `disconnectClients`, when the event descriptor was written to.
abbrev pub drop_peer : Role → Peer → Peer
drop_peer role p = if is_open p && p.disconnect then init_peer role p else p

unfoldable pub drop_all : Role → List Peer → List Peer
drop_all role [] = []
drop_all role (p ∷ ps) = drop_peer role p ∷ drop_all role ps

unfoldable pub disconnect_peers : Role → Backend → Backend
disconnect_peers role s = record s { peers = drop_all role s.peers; event_count = 0 }

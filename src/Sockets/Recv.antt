-- ===== src/Sockets/Recv.antt =====
-- A message arrives whole, however the bytes are split over calls of `recv`.
use google_test_c_programs.Base.{
  ℕ, zero, suc, ◌+◌, ◌<◌, ◌≤◌, ◌≡◌, ◌≢◌, refl, ◌∙◌, ap, sym, true, false, none, some, List, [], ◌∷◌,
  ◌++◌, append_assoc, arith, replicate, length, length-append, All, ◌⊎◌, inl, inr,
}
use google_test_c_programs.Base.Int.{ℤ}
use google_test_c_programs.Base.Outcome.{Outcome, ok, exited}
use google_test_c_programs.Base.CString.{Bytes}
use google_test_c_programs.ErrCodes.{ErrCode}
use google_test_c_programs.MsgLen.{is_msg_complete, msg_get_complete}
use google_test_c_programs.MsgLen.Frames.{Kind, ind_of, frame, CanSend}
use google_test_c_programs.MsgLen.Complete.{
  get_complete_none, is_msg_complete-frame, is_msg_complete-part, msg_get_complete-frame,
}
use google_test_c_programs.Sockets.{
  eagain, econnreset, other, PollEvent, poll_error, pollhup, pollin, RecvEvent, data_in, eof,
  recv_error, Received, received, disconnected, socket_recv_by_client, recv_loop, got, gone, stop,
  again, after_recv, client_turn, complete_flag, socket_recv, socket_recv_by_server,
}

-- `poll` says that there is something to read.
abbrev pub IsReady : PollEvent → Type 0
IsReady p = (p ≡ pollin) ⊎ (p ≡ pollhup)

-- The bytes of a call of `recv`.
abbrev pub payload : RecvEvent → Bytes
payload (data_in b bytes) = b ∷ bytes
payload eof = []
payload (recv_error e) = []

abbrev pub payloads : List RecvEvent → Bytes
payloads [] = []
payloads (e ∷ es) = payload e ++ payloads es

-- Bytes, or an interruption after which the call is repeated.
abbrev pub IsSteady : RecvEvent → Type 0
IsSteady (data_in b bytes) = Unit
IsSteady eof = ⊥
IsSteady (recv_error e) = e ≡ eagain

-- A round goes on, or stops.
client_again :
    (ind : ℕ) (msg prev_msg msg' prev_msg' : Bytes) (polls polls' : List PollEvent)
    (event : RecvEvent) (events : List RecvEvent)
    → client_turn ind msg prev_msg polls event ≡ again msg' prev_msg' polls'
    → socket_recv_by_client ind msg prev_msg polls (event ∷ events)
      ≡ socket_recv_by_client ind msg' prev_msg' polls' events
unfolding socket_recv_by_client
client_again ind msg prev_msg msg' prev_msg' polls polls' event events e =
    rw (e, socket_recv_by_client)

client_stop :
    (ind : ℕ) (msg prev_msg : Bytes) (polls : List PollEvent) (event : RecvEvent)
    (events : List RecvEvent) (r : Outcome Received)
    → client_turn ind msg prev_msg polls event ≡ stop r
    → socket_recv_by_client ind msg prev_msg polls (event ∷ events) ≡ r
unfolding socket_recv_by_client
client_stop ind msg prev_msg polls event events r e = rw (e, socket_recv_by_client)

module _ (ind : ℕ) (msg prev_msg : Bytes) (part : is_msg_complete ind prev_msg ≡ none) where
  -- The round of an incomplete message when `poll` is ready.
  turn_ready :
      (p : PollEvent) (polls : List PollEvent) (event : RecvEvent)
      → IsReady p
      → client_turn ind msg prev_msg (p ∷ polls) event ≡ after_recv event msg prev_msg polls
  unfolding client_turn
  turn_ready p polls event (inl e) = rw (e, get_complete_none ind msg prev_msg part)
  turn_ready p polls event (inr e) = rw (e, get_complete_none ind msg prev_msg part)

  client_data :
      (p : PollEvent) (polls : List PollEvent) (b : ℕ) (bytes : Bytes) (events : List RecvEvent)
      → IsReady p
      → socket_recv_by_client ind msg prev_msg (p ∷ polls) (data_in b bytes ∷ events)
        ≡ socket_recv_by_client ind msg (prev_msg ++ b ∷ bytes) polls events
  unfolding after_recv
  client_data p polls b bytes events ready =
      client_again ind msg prev_msg msg (prev_msg ++ b ∷ bytes) (p ∷ polls) polls _ events
        (turn_ready p polls (data_in b bytes) ready)

  client_retry :
      (p : PollEvent) (polls : List PollEvent) (events : List RecvEvent)
      → IsReady p
      → socket_recv_by_client ind msg prev_msg (p ∷ polls) (recv_error eagain ∷ events)
        ≡ socket_recv_by_client ind msg prev_msg polls events
  unfolding after_recv
  client_retry p polls events ready =
      client_again ind msg prev_msg msg prev_msg (p ∷ polls) polls _ events
        (turn_ready p polls (recv_error eagain) ready)

  -- A connection that ends, in order or by a reset, while a message is incomplete: the buffers are
  -- freed and nothing is returned of the message. Any other error of `recv` ends the process with
  -- SYSCALL_RECV, and one of `poll` with SYSCALL_POLL.
  pub socket_recv_by_client-disconnected :
      (p : PollEvent) (polls : List PollEvent) (events : List RecvEvent)
      → IsReady p
      → (socket_recv_by_client ind msg prev_msg (p ∷ polls) (eof ∷ events) ≡ ok disconnected)
        × (socket_recv_by_client ind msg prev_msg (p ∷ polls) (recv_error econnreset ∷ events)
            ≡ ok disconnected)
        × (socket_recv_by_client ind msg prev_msg (p ∷ polls) (recv_error other ∷ events)
            ≡ exited ErrCode.syscall_recv)
        × ((event : RecvEvent)
            → socket_recv_by_client ind msg prev_msg (poll_error other ∷ polls) (event ∷ events)
              ≡ exited ErrCode.syscall_poll)
  unfolding after_recv
  socket_recv_by_client-disconnected p polls events ready = (
    client_stop ind msg prev_msg (p ∷ polls) eof events _ (turn_ready p polls eof ready),
    client_stop ind msg prev_msg (p ∷ polls) _ events _
        (turn_ready p polls (recv_error econnreset) ready),
    client_stop ind msg prev_msg (p ∷ polls) _ events _
        (turn_ready p polls (recv_error other) ready),
    λ event. client_stop ind msg prev_msg (poll_error other ∷ polls) event events _ (failed event),
  )
    where
      failed :
          (event : RecvEvent)
          → client_turn ind msg prev_msg (poll_error other ∷ polls) event
            ≡ stop (exited ErrCode.syscall_poll)
      failed event = unfold client_turn in rw (get_complete_none ind msg prev_msg part)

client_done :
    (ind : ℕ) (msg prev_msg msg' prev_msg' : Bytes) (polls : List PollEvent)
    (events : List RecvEvent)
    → msg_get_complete ind msg prev_msg ≡ ok (msg', prev_msg', true)
    → socket_recv_by_client ind msg prev_msg polls events ≡ ok (received msg' prev_msg')
client_done ind msg prev_msg msg' prev_msg' polls [] e =
    unfold socket_recv_by_client in rw (e, socket_recv_by_client)
client_done ind msg prev_msg msg' prev_msg' polls (event ∷ events) e =
    client_stop ind msg prev_msg polls event events _ (unfold client_turn in rw (e, client_turn))

-- What is shorter than the frame and begins like it is a part of it.
missing :
    (xs X f rest : Bytes)
    → xs ++ X ≡ f ++ rest
    → length xs < length f
    → (ys : Bytes) × (xs ++ ys ≡ f) × (ys ≢ [])
missing [] X [] rest e h = absurd (omega arith)
missing [] X (b ∷ f) rest e h = (b ∷ f, refl, λ k. absurd_cons k)
  where
    absurd_cons : (b ∷ f) ≡ [] → ⊥
    absurd_cons k = cc
missing (x ∷ xs) X [] rest e h = absurd (omega arith)
missing (x ∷ xs) X (b ∷ f) rest e h =
    let (ys, whole, ne) = missing xs X f rest (cc) (omega arith) in
    (ys, (let same : x ≡ b = cc in rw (same, whole)), ne)

module _ (k : Kind) (m rest : Bytes) (can : CanSend k m)
    (room : length rest ≤ length (frame k m)) where
  part_of :
      (prev_msg X : Bytes)
      → prev_msg ++ X ≡ frame k m ++ rest
      → length prev_msg < length (frame k m)
      → is_msg_complete (ind_of k) prev_msg ≡ none
  part_of prev_msg X e h =
      let (ys, whole, ne) = missing prev_msg X (frame k m) rest e h in
      is_msg_complete-part k m prev_msg ys can whole ne

  -- However the bytes of a frame, and at most as many behind it, are split over calls of `recv`, with
  -- interruptions between them, as long as the frame is not complete before the last call:
  -- `SocketRecvByClient` returns exactly the frame behind `msg`, and keeps what follows.
  pub socket_recv_by_client-frame :
      (msg prev_msg : Bytes) (polls : List PollEvent) (before : List RecvEvent) (b : ℕ)
      (bytes : Bytes)
      → All IsSteady before
      → All IsReady polls
      → length before < length polls
      → prev_msg ++ (payloads before ++ b ∷ bytes) ≡ frame k m ++ rest
      → length prev_msg + length (payloads before) < length (frame k m)
      → socket_recv_by_client (ind_of k) msg prev_msg polls (before ++ data_in b bytes ∷ [])
        ≡ ok (received (msg ++ frame k m) rest)
  socket_recv_by_client-frame msg prev_msg [] before b bytes steady ready many e h =
      absurd (omega arith)
  socket_recv_by_client-frame msg prev_msg (p ∷ polls) [] b bytes steady ready many e h =
      client_data (ind_of k) msg prev_msg (part_of prev_msg (b ∷ bytes) e (omega arith)) p polls b
        bytes [] ready.0
      ∙ client_done (ind_of k) msg (prev_msg ++ b ∷ bytes) (msg ++ frame k m) rest polls [] (
          ap (msg_get_complete (ind_of k) msg) e ∙ (msg_get_complete-frame k m msg rest can).0 room)
  socket_recv_by_client-frame msg prev_msg (p ∷ polls) (data_in c bytes' ∷ before) b bytes steady
        ready many e h =
      client_data (ind_of k) msg prev_msg (part_of prev_msg _ e (omega arith)) p polls c bytes'
        (before ++ data_in b bytes ∷ []) ready.0
      ∙ socket_recv_by_client-frame msg (prev_msg ++ c ∷ bytes') polls before b bytes steady.1
          ready.1 (omega arith) (rw append_assoc (e' ∙ e))
          (omega (
            arith,
            length-append prev_msg (c ∷ bytes'),
            length-append (c ∷ bytes') (payloads before),
          ))
    where
      e' :
          prev_msg ++ (c ∷ bytes' ++ (payloads before ++ b ∷ bytes))
          ≡ prev_msg ++ (payloads (data_in c bytes' ∷ before) ++ b ∷ bytes)
      e' = ap (λ t. prev_msg ++ t) (sym (append_assoc (c ∷ bytes') (payloads before) (b ∷ bytes)))
  socket_recv_by_client-frame msg prev_msg (p ∷ polls) (eof ∷ before) b bytes steady ready many e
        h =
      absurd steady.0
  socket_recv_by_client-frame msg prev_msg (p ∷ polls) (recv_error x ∷ before) b bytes steady ready
        many e h =
      ap
        (λ y.
          socket_recv_by_client (ind_of k) msg prev_msg (p ∷ polls)
            (recv_error y ∷ before ++ data_in b bytes ∷ []))
        steady.0
      ∙ client_retry (ind_of k) msg prev_msg (part_of prev_msg _ e (omega arith)) p polls
          (before ++ data_in b bytes ∷ []) ready.0
      ∙ socket_recv_by_client-frame msg prev_msg polls before b bytes steady.1 ready.1 (omega arith)
          e (omega arith)

retries :
    (n : ℕ) (events : List RecvEvent)
    → recv_loop (replicate n (recv_error eagain) ++ events) ≡ recv_loop events
unfolding recv_loop
retries zero events = refl
retries (suc n) events = retries n events

flag_true :
    (ind : ℕ) (xs : Bytes) (n : ℤ) → is_msg_complete ind xs ≡ some n → complete_flag ind xs ≡ true
unfolding complete_flag
flag_true ind xs n e = rw (e, complete_flag)

flag_false : (ind : ℕ) (xs : Bytes) → is_msg_complete ind xs ≡ none → complete_flag ind xs ≡ false
unfolding complete_flag
flag_false ind xs e = rw (e, complete_flag)

-- One call of `SocketRecv` behind any number of interruptions appends what it received to the buffer,
-- and its `msgComplete` is 1 exactly if the buffer holds the whole frame; a connection that ends
-- gives the return value 1 in both `SocketRecv` and `SocketRecvByServer`.
pub socket_recv-frame :
    (k : Kind) (m prev_msg : Bytes) (n b : ℕ) (bytes : Bytes) (events : List RecvEvent)
    → CanSend k m
    → ((rest : Bytes)
        → prev_msg ++ b ∷ bytes ≡ frame k m ++ rest
        → socket_recv
            (ind_of k)
            prev_msg
            (replicate n (recv_error eagain) ++ data_in b bytes ∷ events)
          ≡ ok (got (prev_msg ++ b ∷ bytes) true))
      × ((ys : Bytes)
          → prev_msg ++ b ∷ bytes ++ ys ≡ frame k m
          → ys ≢ []
          → socket_recv
              (ind_of k)
              prev_msg
              (replicate n (recv_error eagain) ++ data_in b bytes ∷ events)
            ≡ ok (got (prev_msg ++ b ∷ bytes) false))
      × (socket_recv (ind_of k) prev_msg (replicate n (recv_error eagain) ++ eof ∷ events)
          ≡ ok gone)
      × (socket_recv_by_server prev_msg
            (replicate n (recv_error eagain) ++ data_in b bytes ∷ events)
          ≡ ok (got (prev_msg ++ b ∷ bytes) false))
      × (socket_recv_by_server prev_msg (replicate n (recv_error eagain) ++ eof ∷ events) ≡ ok gone)
unfolding socket_recv socket_recv_by_server
socket_recv-frame k m prev_msg n b bytes events can = (
  λ rest e. rw (retries n (data_in b bytes ∷ events)) (
      ap (λ t. ok (got (prev_msg ++ b ∷ bytes) t))
        (ap (complete_flag (ind_of k)) e
          ∙ flag_true (ind_of k) (frame k m ++ rest) _ (is_msg_complete-frame k m rest can))),
  λ ys e ne. rw (retries n (data_in b bytes ∷ events)) (
      ap (λ t. ok (got (prev_msg ++ b ∷ bytes) t))
        (flag_false (ind_of k) (prev_msg ++ b ∷ bytes)
          (is_msg_complete-part k m (prev_msg ++ b ∷ bytes) ys can e ne))),
  rw (retries n (eof ∷ events)),
  rw (retries n (data_in b bytes ∷ events)),
  rw (retries n (eof ∷ events)),
)

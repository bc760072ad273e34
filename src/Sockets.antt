-- ===== src/Sockets.antt =====
-- master/src/library/socketrecv.c and master/src/library/socketsend.c. What the system calls `poll`,
-- `recv` and `send` do is given as a list of events; a loop that finds no further event waits.
-- Allocation is taken to succeed, and a buffer and its length variable are one list of bytes.
pub mod Recv
pub mod Send
mod Tests
use google_test_c_programs.Base.{
  ℕ, zero, suc, ◌+◌, ◌-◌, Bool, true, false, Option, none, some, List, [], ◌∷◌, ◌++◌, ltb, ◌==◌,
  if◌then◌else◌, length, take, drop, min,
}
use google_test_c_programs.Base.Int.{ℤ}
use google_test_c_programs.Base.Outcome.{Outcome, ok, exited, fault, out_of_fuel, ◌>>=◌}
use google_test_c_programs.Base.CString.{Bytes}
use google_test_c_programs.ErrCodes.{ErrCode}
use google_test_c_programs.MsgLen.{is_msg_complete, msg_get_complete}

-- `errno` after a failed call. `eagain` stands for EINTR too: the code treats them alike.
pub data Errno : Type 0 where
  eagain econnreset other : Errno

-- What `poll` reports: an error, POLLHUP, POLLIN without POLLHUP, or neither.
pub data PollEvent : Type 0 where
  poll_error : Errno → PollEvent
  pollhup pollin nothing : PollEvent

-- What `recv` returns: at least one byte, 0, or an error.
pub data RecvEvent : Type 0 where
  data_in : ℕ → Bytes → RecvEvent
  eof : RecvEvent
  recv_error : Errno → RecvEvent

-- How a receiving function ends: with a message, with the connection gone and the buffers freed
-- (return value 1), or not yet.
pub data Received : Type 0 where
  received : Bytes → Bytes → Received
  disconnected : Received
  waiting : Bytes → Bytes → Received

-- The inner `for (;;)` around `poll`: the events that are left, none if it waits.
poll_loop : List PollEvent → Outcome (Option (List PollEvent))
poll_loop [] = ok none
poll_loop (poll_error eagain ∷ polls) = poll_loop polls
poll_loop (poll_error econnreset ∷ polls) = exited ErrCode.syscall_poll
poll_loop (poll_error other ∷ polls) = exited ErrCode.syscall_poll
poll_loop (pollhup ∷ polls) = ok (some polls)
poll_loop (pollin ∷ polls) = ok (some polls)
poll_loop (nothing ∷ polls) = exited ErrCode.syscall_poll

-- One round of the outer `for (;;)` of `SocketRecvByClient`: the function ends, or goes round again.
pub data Turn : Type 0 where
  stop : Outcome Received → Turn
  again : Bytes → Bytes → List PollEvent → Turn

-- From `llrecv` on.
after_recv : RecvEvent → Bytes → Bytes → List PollEvent → Turn
after_recv (data_in b bytes) msg prev_msg polls = again msg (prev_msg ++ b ∷ bytes) polls
after_recv eof msg prev_msg polls = stop (ok disconnected)
after_recv (recv_error eagain) msg prev_msg polls = again msg prev_msg polls
after_recv (recv_error econnreset) msg prev_msg polls = stop (ok disconnected)
after_recv (recv_error other) msg prev_msg polls = stop (exited ErrCode.syscall_recv)

-- What follows the inner `for (;;)`.
after_poll : Outcome (Option (List PollEvent)) → RecvEvent → Bytes → Bytes → Turn
after_poll (ok none) event msg prev_msg = stop (ok (waiting msg prev_msg))
after_poll (ok (some polls)) event msg prev_msg = after_recv event msg prev_msg polls
after_poll (exited e) event msg prev_msg = stop (exited e)
after_poll fault event msg prev_msg = stop fault
after_poll out_of_fuel event msg prev_msg = stop out_of_fuel

-- What follows `MsgGetComplete`.
after_get : Outcome (Bytes × Bytes × Bool) → List PollEvent → RecvEvent → Turn
unfolding after_poll after_recv poll_loop
after_get (ok (msg, prev_msg, true)) polls event = stop (ok (received msg prev_msg))
after_get (ok (msg, prev_msg, false)) polls event = after_poll (poll_loop polls) event msg prev_msg
after_get (exited e) polls event = stop (exited e)
after_get fault polls event = stop fault
after_get out_of_fuel polls event = stop out_of_fuel

client_turn : ℕ → Bytes → Bytes → List PollEvent → RecvEvent → Turn
unfolding after_get
client_turn ind msg prev_msg polls event = after_get (msg_get_complete ind msg prev_msg) polls event

-- With no `recv` left to answer, the function ends only if a message is complete or `poll` fails.
rest_after_get : Outcome (Bytes × Bytes × Bool) → List PollEvent → Outcome Received
rest_after_get (ok (msg, prev_msg, true)) polls = ok (received msg prev_msg)
rest_after_get (ok (msg, prev_msg, false)) polls =
    poll_loop polls >>= λ left. ok (waiting msg prev_msg)
rest_after_get (exited e) polls = exited e
rest_after_get fault polls = fault
rest_after_get out_of_fuel polls = out_of_fuel

client_rest : ℕ → Bytes → Bytes → List PollEvent → Outcome Received
unfolding rest_after_get poll_loop
client_rest ind msg prev_msg polls = rest_after_get (msg_get_complete ind msg prev_msg) polls

unfoldable pub socket_recv_by_client :
    ℕ → Bytes → Bytes → List PollEvent → List RecvEvent → Outcome Received
unfolding client_turn client_rest
socket_recv_by_client ind msg prev_msg polls [] = client_rest ind msg prev_msg polls
socket_recv_by_client ind msg prev_msg polls (event ∷ events) =
    elim (client_turn ind msg prev_msg polls event) [
      | stop r ↦ r
      | again msg' prev_msg' polls' ↦ socket_recv_by_client ind msg' prev_msg' polls' events
    ]

-- One successful `recv` behind any number of retries: the bytes, none if the connection is gone.
recv_loop : List RecvEvent → Outcome (Option (Option Bytes))
recv_loop [] = ok none
recv_loop (data_in b bytes ∷ events) = ok (some (some (b ∷ bytes)))
recv_loop (eof ∷ events) = ok (some none)
recv_loop (recv_error eagain ∷ events) = recv_loop events
recv_loop (recv_error econnreset ∷ events) = ok (some none)
recv_loop (recv_error other ∷ events) = exited ErrCode.syscall_recv

-- How one call of `SocketRecv` ends: the buffer with `msgComplete`, the connection gone, or not yet.
pub data RecvOnce : Type 0 where
  got : Bytes → Bool → RecvOnce
  gone : RecvOnce
  blocked : RecvOnce

-- `msgComplete`, when `IsMsgComplete` is called for its result alone.
unfoldable pub complete_flag : ℕ → Bytes → Bool
complete_flag ind prev_msg = elim (is_msg_complete ind prev_msg) [ none ↦ false | some n ↦ true ]

unfoldable pub socket_recv : ℕ → Bytes → List RecvEvent → Outcome RecvOnce
unfolding recv_loop complete_flag
socket_recv ind prev_msg events = recv_loop events >>= λ r. elim r [
  | none ↦ ok blocked
  | some gained ↦ elim gained [
    | none ↦ ok gone
    | some bytes ↦ ok (got (prev_msg ++ bytes) (complete_flag ind (prev_msg ++ bytes)))
  ]
]

-- `SocketRecvByServer`, which does not look for the end of a message.
unfoldable pub socket_recv_by_server : Bytes → List RecvEvent → Outcome RecvOnce
unfolding recv_loop
socket_recv_by_server msg events = recv_loop events >>= λ r. elim r [
  | none ↦ ok blocked
  | some gained ↦ elim gained [ none ↦ ok gone | some bytes ↦ ok (got (msg ++ bytes) false) ]
]

-- What `send` does: it takes at least one byte, at most what it is given (`taken n` is room for
-- n + 1 bytes), or takes none, or fails.
pub data SendEvent : Type 0 where
  taken : ℕ → SendEvent
  none_taken : SendEvent
  send_error : Errno → SendEvent

-- How sending ends, with the bytes that went out: return value 0, return value 1, or not yet.
pub data Sent : Type 0 where
  sent : Bytes → Sent
  reset : Bytes → Sent
  sending : Bytes → Sent

-- `SocketSendNoYield`; `wire` holds what was sent, `buf` what is left of the buffer.
no_yield_loop : Bytes → Bytes → List SendEvent → Outcome Sent
no_yield_loop wire [] events = ok (sent wire)
no_yield_loop wire (b ∷ buf) [] = ok (sending wire)
no_yield_loop wire (b ∷ buf) (taken n ∷ events) =
    no_yield_loop (wire ++ b ∷ take n buf) (drop n buf) events
no_yield_loop wire (b ∷ buf) (none_taken ∷ events) = exited ErrCode.syscall_send
no_yield_loop wire (b ∷ buf) (send_error eagain ∷ events) = no_yield_loop wire (b ∷ buf) events
no_yield_loop wire (b ∷ buf) (send_error econnreset ∷ events) = ok (reset wire)
no_yield_loop wire (b ∷ buf) (send_error other ∷ events) = exited ErrCode.syscall_send

unfoldable pub socket_send_no_yield : Bytes → List SendEvent → Outcome Sent
unfolding no_yield_loop
socket_send_no_yield buf events = no_yield_loop [] buf events

-- `SocketSendYield`: one successful `send` behind `prevBytesSent` bytes. The new `prevBytesSent`, the
-- bytes sent and whether more is to come (return value 1); none if it waits. With nothing left to
-- send `send` takes no byte.
unfoldable pub socket_send_yield : Bytes → ℕ → List SendEvent → Outcome (Option (ℕ × Bytes × Bool))
socket_send_yield buf prev_bytes_sent [] = ok none
socket_send_yield buf prev_bytes_sent (none_taken ∷ events) = exited ErrCode.syscall_send
socket_send_yield buf prev_bytes_sent (send_error eagain ∷ events) =
    socket_send_yield buf prev_bytes_sent events
socket_send_yield buf prev_bytes_sent (send_error econnreset ∷ events) = exited ErrCode.syscall_send
socket_send_yield buf prev_bytes_sent (send_error other ∷ events) = exited ErrCode.syscall_send
socket_send_yield buf prev_bytes_sent (taken n ∷ events) =
    let out = take (suc n) (drop prev_bytes_sent buf) in
    if length out == 0
    then exited ErrCode.syscall_send
    else ok (
        some (
          prev_bytes_sent + length out,
          out,
          if prev_bytes_sent + length out == length buf then false else true,
        ))

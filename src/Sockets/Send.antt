-- ===== src/Sockets/Send.antt =====
-- What goes out: `SocketSendNoYield` and `SocketSendYield`.
use google_test_c_programs.Base.{
  ℕ, zero, suc, ◌+◌, ◌<◌, ◌≤◌, ◌≡◌, ◌≢◌, refl, ◌∙◌, ap, sym, Bool, true, false, some, List, [], ◌∷◌,
  ◌++◌, append_assoc, append-nil, arith, ◌==◌, if◌then◌else◌, length, length-drop, replicate, min,
  take, drop, take-append-drop, All,
}
use mathlib.Core.Path.{subst}
use google_test_c_programs.Base.Outcome.{Outcome, ok, exited, fault, out_of_fuel}
use google_test_c_programs.Base.CString.{Bytes}
use google_test_c_programs.ErrCodes.{ErrCode}
use google_test_c_programs.Sockets.{
  eagain, econnreset, other, SendEvent, taken, none_taken, send_error, Sent, sent, reset, sending,
  no_yield_loop, socket_send_no_yield, socket_send_yield,
}

-- What a call that returned has put on the wire: the whole buffer if it returned 0; a part of it, with
-- something missing, if it was reset or still waits. An exit is for SYSCALL_SEND, and nothing is
-- undefined.
abbrev pub Delivered : Bytes → Outcome Sent → Type 0
Delivered buf (ok (sent wire)) = wire ≡ buf
Delivered buf (ok (reset wire)) = (rest : Bytes) × (wire ++ rest ≡ buf) × (rest ≢ [])
Delivered buf (ok (sending wire)) = (rest : Bytes) × (wire ++ rest ≡ buf) × (rest ≢ [])
Delivered buf (exited e) = e ≡ ErrCode.syscall_send
Delivered buf fault = ⊥
Delivered buf out_of_fuel = ⊥

cons_ne_nil : (b : ℕ) (s : Bytes) → b ∷ s ≢ []
cons_ne_nil b s = λ k. cc

regroup : (wire buf : Bytes) (b n : ℕ) → wire ++ b ∷ take n buf ++ drop n buf ≡ wire ++ b ∷ buf
regroup wire buf b n =
    append_assoc wire (b ∷ take n buf) (drop n buf)
    ∙ ap (λ t. wire ++ b ∷ t) (take-append-drop n buf)

loop-Delivered :
    (wire buf : Bytes) (events : List SendEvent)
    → Delivered (wire ++ buf) (no_yield_loop wire buf events)
unfolding no_yield_loop
loop-Delivered wire [] events = sym (append-nil wire)
loop-Delivered wire (b ∷ buf) [] = (b ∷ buf, refl, cons_ne_nil b buf)
loop-Delivered wire (b ∷ buf) (taken n ∷ events) =
    subst (λ t. Delivered t (no_yield_loop (wire ++ b ∷ take n buf) (drop n buf) events))
      (regroup wire buf b n) (loop-Delivered (wire ++ b ∷ take n buf) (drop n buf) events)
loop-Delivered wire (b ∷ buf) (none_taken ∷ events) = refl
loop-Delivered wire (b ∷ buf) (send_error eagain ∷ events) = loop-Delivered wire (b ∷ buf) events
loop-Delivered wire (b ∷ buf) (send_error econnreset ∷ events) = (b ∷ buf, refl, cons_ne_nil b buf)
loop-Delivered wire (b ∷ buf) (send_error other ∷ events) = refl

-- Whatever `send` does, what `SocketSendNoYield` has sent is in the order of the buffer, with nothing
-- left out: the whole buffer if it returns 0, and a part of it with something missing if the
-- connection was reset (return value 1) or it still waits; it exits with SYSCALL_SEND alone.
pub socket_send_no_yield-Delivered :
    (buf : Bytes) (events : List SendEvent) → Delivered buf (socket_send_no_yield buf events)
unfolding socket_send_no_yield
socket_send_no_yield-Delivered buf events = loop-Delivered [] buf events

-- `send` takes something, or is interrupted.
abbrev pub IsSteady : SendEvent → Type 0
IsSteady (taken n) = Unit
IsSteady none_taken = ⊥
IsSteady (send_error e) = e ≡ eagain

-- How often `send` takes something.
abbrev pub takes : List SendEvent → ℕ
takes [] = 0
takes (taken n ∷ events) = suc (takes events)
takes (none_taken ∷ events) = takes events
takes (send_error e ∷ events) = takes events

loop_ends :
    (events : List SendEvent) (wire buf : Bytes)
    → All IsSteady events
    → length buf ≤ takes events
    → no_yield_loop wire buf events ≡ ok (sent (wire ++ buf))
unfolding no_yield_loop
loop_ends [] wire [] steady enough = ap (λ t. ok (sent t)) (sym (append-nil wire))
loop_ends [] wire (b ∷ buf) steady enough = absurd (omega arith)
loop_ends (taken n ∷ events) wire [] steady enough = ap (λ t. ok (sent t)) (sym (append-nil wire))
loop_ends (taken n ∷ events) wire (b ∷ buf) steady enough =
    loop_ends events (wire ++ b ∷ take n buf) (drop n buf) steady.1
      (omega (arith, length-drop n buf))
    ∙ ap (λ t. ok (sent t)) (regroup wire buf b n)
loop_ends (none_taken ∷ events) wire buf steady enough = absurd steady.0
loop_ends (send_error e ∷ events) wire [] steady enough =
    ap (λ t. ok (sent t)) (sym (append-nil wire))
loop_ends (send_error e ∷ events) wire (b ∷ buf) steady enough =
    rw steady.0 (loop_ends events wire (b ∷ buf) steady.1 enough)

-- If `send` is only interrupted and takes something often enough (once for each byte at the most),
-- `SocketSendNoYield` ends with return value 0 and everything sent.
pub socket_send_no_yield-sent :
    (buf : Bytes) (events : List SendEvent)
    → All IsSteady events
    → length buf ≤ takes events
    → socket_send_no_yield buf events ≡ ok (sent buf)
unfolding socket_send_no_yield
socket_send_no_yield-sent buf events steady enough = loop_ends events [] buf steady enough

-- Sending bytes `p` to `p + length out` of the buffer.
take_more : (buf : Bytes) (p n : ℕ) → take p buf ++ take n (drop p buf) ≡ take (p + n) buf
take_more buf zero n = let e : 0 + n ≡ n = omega arith in rw e
take_more [] (suc p) zero = let e : suc p + 0 ≡ suc p = omega arith in rw e
take_more [] (suc p) (suc n) = let e : suc p + suc n ≡ suc (p + suc n) = omega arith in rw e
take_more (b ∷ buf) (suc p) n =
    let e : suc p + n ≡ suc (p + n) = omega arith in rw e (ap (λ t. b ∷ t) (take_more buf p n))

pub length_part : (n : ℕ) (xs : Bytes) → length (take n xs) ≡ min n (length xs)
length_part zero xs = omega arith
length_part (suc n) [] = omega arith
length_part (suc n) (x ∷ xs) = omega (arith, length_part n xs)

take_cut : (n : ℕ) (xs : Bytes) → take (length (take n xs)) xs ≡ take n xs
take_cut zero xs = refl
take_cut (suc n) [] = refl
take_cut (suc n) (x ∷ xs) = ap (λ t. x ∷ t) (take_cut n xs)

yield_retries :
    (buf : Bytes) (p k : ℕ) (events : List SendEvent)
    → socket_send_yield buf p (replicate k (send_error eagain) ++ events)
      ≡ socket_send_yield buf p events
unfolding socket_send_yield
yield_retries buf p zero events = refl
yield_retries buf p (suc k) events = yield_retries buf p k events

-- Nothing is left to send.
yield_nothing :
    (buf : Bytes) (p n : ℕ) (events : List SendEvent)
    → p ≡ length buf
    → socket_send_yield buf p (taken n ∷ events) ≡ exited ErrCode.syscall_send
unfolding socket_send_yield
yield_nothing buf p n events h =
    let size = length_part (suc n) (drop p buf) in
    let left = length-drop p buf in
    let empty : (length (take (suc n) (drop p buf)) == 0) ≡ true = ground (arith, size, left) in
    rw empty

-- What one `send` of up to `n + 1` bytes does behind `p` bytes.
yield_taken :
    (buf : Bytes) (p n : ℕ) (events : List SendEvent)
    → p < length buf
    → (p' : ℕ) × (out : Bytes) × (more : Bool) × (socket_send_yield buf p (taken n ∷ events)
        ≡ ok (some (p', out, more)))
      × (p < p')
      × (p' ≤ length buf)
      × (take p buf ++ out ≡ take p' buf)
      × (more ≡ (if p' == length buf then false else true))
unfolding socket_send_yield
yield_taken buf p n events h =
    let out = take (suc n) (drop p buf) in
    let size = length_part (suc n) (drop p buf) in
    let left = length-drop p buf in
    let some_out : (length out == 0) ≡ false = ground (arith, size, left) in
    (
      p + length out,
      out,
      (if p + length out == length buf then false else true),
      rw some_out,
      omega (arith, size, left),
      omega (arith, size, left),
      ap (λ t. take p buf ++ t) (sym (take_cut (suc n) (drop p buf)))
          ∙ take_more buf p (length out),
      refl,
    )

-- `SocketSendYield` behind any number of interruptions: while something is left it sends at least one
-- byte, from where the last call stopped, moves `prevBytesSent` on by what it sent, and returns 0
-- exactly when that reaches the end of the buffer. With nothing left it exits with SYSCALL_SEND, as it
-- does when the connection was reset.
pub socket_send_yield_lem :
    (buf : Bytes) (p n k : ℕ) (events : List SendEvent)
    → (p < length buf
        → (p' : ℕ) × (out : Bytes) × (more : Bool) × (socket_send_yield buf p
              (replicate k (send_error eagain) ++ taken n ∷ events)
            ≡ ok (some (p', out, more)))
          × (p < p')
          × (p' ≤ length buf)
          × (take p buf ++ out ≡ take p' buf)
          × (more ≡ (if p' == length buf then false else true)))
      × (p ≡ length buf
          → socket_send_yield buf p (replicate k (send_error eagain) ++ taken n ∷ events)
            ≡ exited ErrCode.syscall_send)
      × (socket_send_yield buf p (replicate k (send_error eagain) ++ send_error econnreset ∷ events)
          ≡ exited ErrCode.syscall_send)
socket_send_yield_lem buf p n k events = (
  λ h.
      let (p', out, more, run, ahead, within, in_order, last) = yield_taken buf p n events h in
      (
        p',
        out,
        more,
        yield_retries buf p k (taken n ∷ events) ∙ run,
        ahead,
        within,
        in_order,
        last,
      ),
  λ h. yield_retries buf p k (taken n ∷ events) ∙ yield_nothing buf p n events h,
  yield_retries buf p k (send_error econnreset ∷ events) ∙ unfold socket_send_yield in refl,
)

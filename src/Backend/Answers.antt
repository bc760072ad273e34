-- ===== src/Backend/Answers.antt =====
-- The requests that are found in what was received.
use google_test_c_programs.Base.{
  ℕ, zero, suc, ◌-◌, ◌<◌, ◌≤◌, ◌≡◌, ◌≢◌, refl, Bool, true, false, not, none, List, [], ◌∷◌, ◌++◌,
  arith, ltb, ◌==◌, if◌then◌else◌, length, length-drop, drop, inl, inr, Bool-cases, Option-cases,
}
use google_test_c_programs.Base.Int.{ℤ, pos, negsuc}
use google_test_c_programs.Base.Outcome.{Outcome, ok, exited, fault, out_of_fuel, ◌>>=◌}
use google_test_c_programs.Base.CString.{Bytes}
use google_test_c_programs.MsgLen.{msg_with_null, is_msg_complete, take_message, msg_get_complete}
use google_test_c_programs.MsgLen.Frames.{Kind, ind_of, frame, CanSend}
use google_test_c_programs.MsgLen.Complete.{msg_get_complete-frame}
use google_test_c_programs.Backend.Clients.{take_requests}

-- What `MsgGetComplete` leaves, if it returns.
abbrev Leaves : Bytes → Outcome (Bytes × Bytes × Bool) → Type 0
Leaves prev (ok (msg, left, true)) = length left < length prev
Leaves prev (ok (msg, left, false)) = Unit
Leaves prev (exited e) = Unit
Leaves prev fault = Unit
Leaves prev out_of_fuel = ⊥

take_message-Leaves :
    (n : ℤ) (b : ℕ) (prev : Bytes) → Leaves (b ∷ prev) (take_message n [] (b ∷ prev))
unfolding take_message
take_message-Leaves (negsuc n) b prev = elim (Bool-cases (ltb 0 (suc n))) [
  | inl h ↦ rw h tt
  | inr h ↦ rw h tt
]
take_message-Leaves (pos n) b prev = elim (Bool-cases (ltb n (length (b ∷ prev) - n))) [
  | inl h ↦ rw h tt
  | inr h ↦
      rw h
        (let l = length-drop n (b ∷ prev) in less n (length (drop n (b ∷ prev))) (length prev) h l)
]
  where
    less : (n k m : ℕ) → ltb n (suc m - n) ≡ false → k ≡ suc m - n → k < suc m
    less n k m h e = ground arith

nothing_complete : (ind : ℕ) → is_msg_complete ind [] ≡ none
unfolding is_msg_complete
nothing_complete ind = elim (Bool-cases (ind == msg_with_null)) [
  | inl h ↦ rw h refl
  | inr h ↦ rw h refl
]

msg_get_complete-Leaves : (ind : ℕ) (prev : Bytes) → Leaves prev (msg_get_complete ind [] prev)
unfolding msg_get_complete
msg_get_complete-Leaves ind [] = rw (nothing_complete ind, msg_get_complete) tt
msg_get_complete-Leaves ind (b ∷ prev) = elim (Option-cases (is_msg_complete ind (b ∷ prev))) [
  | inl n ↦ rw (n, msg_get_complete) tt
  | inr (n, e) ↦ rw (e, msg_get_complete) (take_message-Leaves n b prev)
]

-- Whatever was received, the loop of the main thread around `MsgGetComplete` ends after at most one
-- turn more than there are bytes: with the requests, with the end of the process or in undefined
-- behaviour.
pub take_requests-total :
    (fuel ind : ℕ) (prev : Bytes) → length prev < fuel → take_requests fuel ind prev ≢ out_of_fuel
unfolding take_requests
take_requests-total zero ind prev room h = omega arith
take_requests-total (suc fuel) ind prev room h =
    turn (msg_get_complete ind [] prev) (msg_get_complete-Leaves ind prev)
      (λ left less. take_requests-total fuel ind left (omega arith)) h
  where
    behind :
        (msg : Bytes) (r : Outcome (List Bytes × Bytes))
        → r ≢ out_of_fuel
        → ◌>>=◌ {B = List Bytes × Bytes} r (λ (msgs, end). ok (msg ∷ msgs, end)) ≢ out_of_fuel
    behind msg (ok x) ne e = absurd cc
    behind msg (exited x) ne e = absurd cc
    behind msg fault ne e = absurd cc
    behind msg out_of_fuel ne e = ne refl

    turn :
        (r : Outcome (Bytes × Bytes × Bool))
        → Leaves prev r
        → ((left : Bytes) → length left < length prev → take_requests fuel ind left ≢ out_of_fuel)
        → ◌>>=◌ {B = List Bytes × Bytes} r (λ (msg, left, complete).
          if not complete
          then ok ([], left)
          else (take_requests fuel ind left >>= λ (msgs, end). ok (msg ∷ msgs, end)))
          ≢ out_of_fuel
    turn (ok (msg, left, true)) l all e = behind msg (take_requests fuel ind left) (all left l) e
    turn (ok (msg, left, false)) l all e = absurd cc
    turn (exited x) l all e = absurd cc
    turn fault l all e = absurd cc
    turn out_of_fuel l all e = l

-- Two requests that arrive together, the second no longer than the first, with a part of a third one
-- that is no longer than the second: both are found, and the part is kept. When more is there
-- behind the first request than its length, the move of the rest is undefined behaviour.
pub take_requests-frames :
    (k : Kind) (a b part missing third : Bytes) (fuel : ℕ)
    → CanSend k a
    → CanSend k b
    → CanSend k third
    → part ++ missing ≡ frame k third
    → missing ≢ []
    → (length (frame k b ++ part) ≤ length (frame k a)
        → length part ≤ length (frame k b)
        → take_requests (suc (suc (suc fuel))) (ind_of k) (frame k a ++ (frame k b ++ part))
          ≡ ok (frame k a ∷ frame k b ∷ [], part))
      × (length (frame k a) < length (frame k b ++ part)
          → take_requests (suc fuel) (ind_of k) (frame k a ++ (frame k b ++ part)) ≡ fault)
unfolding take_requests
take_requests-frames k a b part missing third fuel sa sb sc whole some_missing =
    let first = msg_get_complete-frame k a [] (frame k b ++ part) sa in
    let second = msg_get_complete-frame k b [] part sb in
    let rest = (msg_get_complete-frame k third [] [] sc).2 part missing whole some_missing in
    (λ room room'. rw (first.0 room, second.0 room', rest) refl, λ more. rw (first.1 more) refl)

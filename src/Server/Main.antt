-- ===== src/Server/Main.antt =====
-- The steps of the main thread keep what holds of the server.
use mathlib.Core.Path.{subst}
use google_test_c_programs.Base.{
  ℕ, suc, ◌+◌, ◌<◌, ◌≡◌, refl, ◌∙◌, ap, Bool, true, false, not, ◌&&◌, Option, none, some, List, [],
  ◌∷◌, arith, ◌==◌, if◌then◌else◌, length, length-drop, take, drop, ltb, get_elem?, ◌⊎◌, inl, inr,
  Bool-cases, Option-cases,
}
use google_test_c_programs.Base.Outcome.{
  Outcome, ok, exited, fault, out_of_fuel, ◌>>=◌, ok-injective,
}
use google_test_c_programs.Base.CString.{Bytes}
use google_test_c_programs.MsgLen.{msg_with_null}
use google_test_c_programs.Sockets.Send.{length_part}
use google_test_c_programs.Sockets.{
  RecvEvent, RecvOnce, got, gone, blocked, socket_recv, SendEvent, taken, none_taken, send_error,
  eagain, econnreset, other, socket_send_yield,
}
use google_test_c_programs.Server.{Events, no_events, pollin, pollout, main_thread, Client, Server}
use google_test_c_programs.Server.Clients.{init_client, is_connected, is_after_msg, count, find}
use google_test_c_programs.Server.Locks.{holds}
use google_test_c_programs.Server.Steps.{
  is_reported, update_client, admit, refuse, proc_new_client, recv_complete, got_request,
  got_complete, recv_request, sent_part, sent_all, send_response, handle_client, close_client,
}
use google_test_c_programs.Server.Invariant.{IsSound}
use google_test_c_programs.Server.Updates.{and_left, unsent, got_request-Keeps, got_complete-Keeps}
use google_test_c_programs.Server.Progress.{
  sent_part-Keeps, sent_all-Keeps, refuse-Keeps, admit-IsSound,
}
use google_test_c_programs.Server.Slots.{get-modify}
use google_test_c_programs.Server.Places.{some-injective, find-get}
use google_test_c_programs.Server.Core.{
  Inv, Sound-get, Sound-modify, set_server_work-Inv, Sound-served, close_client-Inv,
}
use google_test_c_programs.Server.Handled.{recv_complete-Inv}

-- With bytes left in front, a call that says there is more has not sent them all.
more-lt :
    (buf out : Bytes) (p n : ℕ) (events : List SendEvent)
    → p < length buf
    → socket_send_yield buf p events ≡ ok (some (n, out, true))
    → n < length buf
unfolding socket_send_yield
more-lt buf out p n [] room h = cc
more-lt buf out p n (none_taken ∷ events) room h = cc
more-lt buf out p n (send_error eagain ∷ events) room h = more-lt buf out p n events room h
more-lt buf out p n (send_error econnreset ∷ events) room h = cc
more-lt buf out p n (send_error other ∷ events) room h = cc
more-lt buf out p n (taken k ∷ events) room h =
    let bytes = take (suc k) (drop p buf) in
    elim (Bool-cases (length bytes == 0)) [
      | inl g ↦ absurd (let h' = rw g at h in cc)
      | inr g ↦ elim (Bool-cases (p + length bytes == length buf)) [
        | inl e ↦ absurd (let h' = rw (g, e) at h in cc)
        | inr e ↦
            let h' = rw (g, e) at h in
            let q : (p + length bytes, bytes, true) ≡ (n, out, true) =
              some-injective (ok-injective h') in
            let r = ap (λ z. z.0) q in
            let l = length_part (suc k) (drop p buf) in ground (arith, l, length-drop p buf)
      ]
    ]

module _ (s t : Server) (i : ℕ) (c : Client) (inv : Inv s) (at : get_elem? s.clients i ≡ some c)
    (conn : is_connected c ≡ true) where
  recv_request-Inv :
      (time : ℕ) (events : List RecvEvent) (stack : Bytes)
      → c.revents ≡ pollin
      → recv_request i c time events stack s ≡ ok t
      → Inv t
  unfolding recv_request recv_complete
  recv_request-Inv time events stack input h =
      outcome (socket_recv msg_with_null c.request events) h
    where
      sound : IsSound s.db_answers c
      sound = Sound-get inv i c at

      outcome :
          (r : Outcome RecvOnce)
          → (r >>= λ r. elim r [
            | blocked ↦ ok s
            | gone ↦ ok (close_client i s)
            | got req false ↦ ok (update_client i (got_request req) s)
            | got req true ↦
                recv_complete i c time req stack (update_client i (got_complete time req) s)
          ])
            ≡ ok t
          → Inv t
      outcome (ok blocked) e = subst Inv (ok-injective e) inv
      outcome (ok gone) e = subst Inv (ok-injective e) (close_client-Inv s i c inv at)
      outcome (ok (got req false)) e = subst Inv (ok-injective e) (
          Sound-modify inv i c at (got_request req)
            (got_request-Keeps s.db_answers c sound conn input req))
      outcome (ok (got req true)) e =
          let k = got_complete-Keeps s.db_answers c sound conn input time req in
          recv_complete-Inv (update_client i (got_complete time req) s) i (got_complete time req c)
            (Sound-modify inv i c at (got_complete time req) k)
            (get-modify s.clients i c (got_complete time req) at)
            (conn, unsent s.db_answers c sound conn input, refl, refl) t time req stack e
      outcome (exited e') e = absurd cc
      outcome fault e = absurd cc
      outcome out_of_fuel e = absurd cc

  send_response-Inv :
      (events : List SendEvent) → c.revents ≡ pollout → send_response i c events s ≡ ok t → Inv t
  unfolding send_response
  send_response-Inv events output h =
      outcome (socket_send_yield c.response c.prev_bytes_sent events) refl h
    where
      sound : IsSound s.db_answers c
      sound = Sound-get inv i c at

      outcome :
          (r : Outcome (Option (ℕ × Bytes × Bool)))
          → socket_send_yield c.response c.prev_bytes_sent events ≡ r
          → (r >>= λ r. elim r [
            | none ↦ ok s
            | some (n, out, true) ↦ ok (update_client i (sent_part n) s)
            | some (n, out, false) ↦
                if is_after_msg c.discon_stat
                then ok (close_client i s)
                else ok (update_client i sent_all s)
          ])
            ≡ ok t
          → Inv t
      outcome (ok none) r e = subst Inv (ok-injective e) inv
      outcome (ok (some (n, out, true))) r e = subst Inv (ok-injective e) (
          Sound-modify inv i c at (sent_part n) (
            sent_part-Keeps s.db_answers c sound n conn output (
              more-lt c.response out c.prev_bytes_sent n events
                (sound.armed (sound.reported output)) r)))
      outcome (ok (some (n, out, false))) r e = elim (Bool-cases (is_after_msg c.discon_stat)) [
        | inl g ↦ subst Inv (ok-injective (rw g at e)) (close_client-Inv s i c inv at)
        | inr g ↦
            subst Inv (ok-injective (rw g at e))
              (Sound-modify inv i c at sent_all (sent_all-Keeps s.db_answers c sound conn))
      ]
      outcome (exited e') r e = absurd cc
      outcome fault r e = absurd cc
      outcome out_of_fuel r e = absurd cc

Events-cases : (e : Events) → (e ≡ pollin) ⊎ (e ≡ pollout) ⊎ (e ≡ no_events)
Events-cases pollin = inl refl
Events-cases pollout = inr (inl refl)
Events-cases no_events = inr (inr refl)

free_of : (o : Option ℕ) → not (elim o [ none ↦ false | some n ↦ true ]) ≡ true → o ≡ none
free_of none e = refl
free_of (some n) e = absurd cc

pub handle_client-Inv :
    (s t : Server) (i time : ℕ) (recvs : List RecvEvent) (sends : List SendEvent) (stack : Bytes)
    → Inv s
    → handle_client i time recvs sends stack s ≡ ok t
    → Inv t
unfolding handle_client
handle_client-Inv s t i time recvs sends stack inv h = elim (Option-cases (get_elem? s.clients i)) [
  | inl n ↦ absurd (let h' = rw (n, handle_client) at h in cc)
  | inr (c, at) ↦ elim (Bool-cases (is_connected c && is_reported c.revents)) [
    | inr g ↦ subst Inv (ok-injective (rw (at, handle_client, g) at h)) inv
    | inl g ↦ elim (Bool-cases (holds i s.held)) [
      | inl l ↦ subst Inv (ok-injective (rw (at, handle_client, g, l) at h)) inv
      | inr l ↦
          let conn = and_left (is_connected c) (is_reported c.revents) g in
          elim (Events-cases c.revents) [
            | inl e ↦
                recv_request-Inv s t i c inv at conn time recvs stack e
                  (rw (at, handle_client, g, l, e) at h)
            | inr e' ↦ elim e' [
              | inl e ↦
                  send_response-Inv s t i c inv at conn sends e
                    (rw (at, handle_client, g, l, e) at h)
              | inr e ↦ subst Inv (ok-injective (rw (at, handle_client, g, l, e) at h)) inv
            ]
          ]
    ]
  ]
]

pub proc_new_client-Inv :
    (s t : Server) (fd time : ℕ) → Inv s → proc_new_client fd time s ≡ ok t → Inv t
unfolding proc_new_client
proc_new_client-Inv s t fd time inv h =
    elim (Option-cases (find (λ c. not (is_connected c)) s.clients)) [
      | inl n ↦ absurd (let h' = rw (n, proc_new_client) at h in cc)
      | inr (j, found) ↦
          let (c, at, off) = find-get (λ c. not (is_connected c)) s.clients j found in
          let sound = Sound-get inv j c at in
          let blank : c ≡ init_client = sound.free (free_of c.fd off) in
          elim (Bool-cases (ltb s.max_users (count is_connected s.clients + 1))) [
            | inl g ↦ subst Inv (ok-injective (rw (found, proc_new_client, g) at h)) (
                set_server_work-Inv main_thread _ (
                  Sound-modify inv j c at (refuse fd) (refuse-Keeps s.db_answers c sound fd blank)))
            | inr g ↦
                let at' : get_elem? s.clients j ≡ some init_client = at ∙ ap some blank in
                subst Inv (ok-injective (rw (found, proc_new_client, g) at h)) (
                  set_server_work-Inv main_thread _ (
                    Sound-served inv j init_client at' (admit fd time)
                      (admit-IsSound s.db_answers fd time) (ground arith) refl))
          ]
    ]

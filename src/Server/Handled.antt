-- ===== src/Server/Handled.antt =====
-- What the main thread does keeps what holds of the server.
use mathlib.Core.Path.{subst}
use google_test_c_programs.Base.{
  ℕ, ◌≡◌, ◌≢◌, ap, Bool, true, false, ◌&&◌, Option, none, some, arith, ◌==◌, length, take,
  get_elem?, inl, inr, Bool-cases, Option-cases,
}
use google_test_c_programs.Base.Int.{ℤ, pos}
use google_test_c_programs.Base.Outcome.{
  Outcome, ok, exited, fault, out_of_fuel, ◌>>=◌, ok-injective,
}
use google_test_c_programs.Base.CString.{Bytes, codes}
use google_test_c_programs.MsgLen.{msg_with_null, msg_len_from_xmit_len}
use google_test_c_programs.Logging.{Logs}
use google_test_c_programs.Cmds.{cmd_proc}
use google_test_c_programs.Server.{ct_req_recv, no_events, pollin, main_thread, Client, Server}
use google_test_c_programs.Server.Clients.{
  sz_servermsg, to_servermsg, setup_client_response, set_client_disconnect, is_connected,
  is_after_msg, is_iactive, other_fd, any,
}
use google_test_c_programs.Server.Steps.{
  update_client, signal, proc_ctrl_cmd, is_size, to_bank, to_iactive, invalid_request, recv_bank,
  recv_ctrl, is_command, recv_complete,
}
use google_test_c_programs.Server.Invariant.{connected_ne}
use google_test_c_programs.Server.Updates.{
  to_bank-IsSound, to_iactive-IsSound, setup-Keeps, invalid_request-Keeps,
  set_client_disconnect-Keeps,
}
use google_test_c_programs.Server.Slots.{any-All, get-modify, All-map}
use google_test_c_programs.Server.Core.{
  Inv, Sound-get, Sound-modify, set_db_send_work-Inv, Sound-session, close_client-Inv,
}

-- A client right behind a complete request: it has no bytes sent in part, and no report left.
abbrev Fresh : Client → Type 0
Fresh c =
    (is_connected c ≡ true)
    × (c.prev_bytes_sent ≡ 0)
    × (c.revents ≡ no_events)
    × (c.proc_stat ≡ ct_req_recv)

module _ (s : Server) (i : ℕ) (c : Client) (inv : Inv s) (at : get_elem? s.clients i ≡ some c)
    (fresh : Fresh c) where
  none_in : c.revents ≢ pollin
  none_in e = let q = fresh.2 in cc

  setup-Inv :
      (time n : ℕ) (msg : Bytes)
      → Inv (signal (update_client i (setup_client_response time msg n) s))
  setup-Inv time n msg =
      Sound-modify inv i c at (setup_client_response time msg n)
        (setup-Keeps s.db_answers c (Sound-get inv i c at) fresh.0 time n msg fresh.1 none_in)

  recv_bank-Inv : (time : ℕ) (req : Bytes) → Inv (recv_bank i time req s)
  unfolding recv_bank
  recv_bank-Inv time req =
      let m = to_servermsg (take sz_servermsg req) in
      let sound =
        to_bank-IsSound s.db_answers c (Sound-get inv i c at) fresh.0 time m fresh.1 fresh.2
          fresh.3 in
      elim (Bool-cases (m.initial_msg == b'0')) [
        | inl h ↦ rw h (close_client-Inv s i c inv at)
        | inr h ↦ rw h (
            set_db_send_work-Inv main_thread (update_client i (to_bank time m) s) (
              Sound-modify inv i c at (to_bank time m)
                record { sound = sound; served = λ h. h; session = λ h. cc }))
      ]

proc_ctrl_cmd-Inv :
    (s t : Server) (i : ℕ) (c : Client) (time : ℕ) (req : Bytes) (n : ℤ) (stack : Bytes)
    → Inv s
    → get_elem? s.clients i ≡ some c
    → Fresh c
    → proc_ctrl_cmd i time req n stack s ≡ ok t
    → Inv t
unfolding proc_ctrl_cmd
proc_ctrl_cmd-Inv s t i c time req n stack inv at fresh h = outcome (cmd_proc req n stack s.logs) h
  where
    outcome :
        (r : Outcome ((ℕ × Bytes) × Logs))
        → (r >>= λ ((response_len, response), logs). ok (
            signal (
              update_client i
                (setup_client_response time response response_len)
                (record s { logs = logs }))))
          ≡ ok t
        → Inv t
    outcome (ok ((k, response), logs)) e =
        subst Inv (ok-injective e)
          (setup-Inv (record s { logs = logs }) i c inv at fresh time k response)
    outcome (exited e') e = absurd cc
    outcome fault e = absurd cc
    outcome out_of_fuel e = absurd cc

module _ (s : Server) (i : ℕ) (c : Client) (inv : Inv s) (at : get_elem? s.clients i ≡ some c)
    (fresh : Fresh c) where
  same_fd :
      (fd : ℕ) (o : Option ℕ) (b : Bool) → (other_fd fd o && b) ≡ false → b ≡ true → o ≡ some fd
  same_fd fd none b e k = absurd (let e' = rw k at e in cc)
  same_fd fd (some n) b e k = elim (Bool-cases (fd == n)) [
    | inl h ↦ let q : n ≡ fd = ground arith in ap some q
    | inr h ↦ absurd (let e' = rw (h, k) at e in cc)
  ]

  recv_ctrl-Inv :
      (t : Server) (fd time : ℕ) (req stack : Bytes)
      → c.fd ≡ some fd
      → recv_ctrl i fd time req stack s ≡ ok t
      → Inv t
  unfolding recv_ctrl
  recv_ctrl-Inv t fd time req stack here h =
      let sound = Sound-get inv i c at in
      elim (Bool-cases (any (λ c. other_fd fd c.fd && is_iactive c.proc_type) s.clients)) [
        | inl g ↦
            let h' = rw g at h in
            subst Inv (ok-injective h') (
              Sound-modify inv i c at
                (set_client_disconnect (codes "Too many interactive sessions"))
                (set_client_disconnect-Keeps s.db_answers c sound fresh.0
                  (codes "Too many interactive sessions")))
        | inr g ↦
            let h' = rw g at h in
            let all =
              All-map (λ c. (other_fd fd c.fd && is_iactive c.proc_type) ≡ false)
                (λ c. is_iactive c.proc_type ≡ true → c.fd ≡ some fd) s.clients
                (λ c e k. same_fd fd c.fd (is_iactive c.proc_type) e k)
                (any-All (λ c. other_fd fd c.fd && is_iactive c.proc_type) s.clients g) in
            let active = to_iactive-IsSound s.db_answers c sound fresh.0 fresh.1 fresh.2 fresh.3 in
            proc_ctrl_cmd-Inv (update_client i to_iactive s) t i (to_iactive c) time req
              (msg_len_from_xmit_len msg_with_null (pos (length req))) stack
              (Sound-session inv i c at to_iactive fd active (λ h. h) here all)
              (get-modify s.clients i c to_iactive at) fresh h'
      ]

  pub recv_complete-Inv :
      (t : Server) (time : ℕ) (req stack : Bytes)
      → recv_complete i c time req stack s ≡ ok t
      → Inv t
  unfolding recv_complete
  recv_complete-Inv t time req stack h =
      let sound = Sound-get inv i c at in
      elim (Bool-cases (is_after_msg c.discon_stat)) [
        | inl g ↦
            subst Inv (ok-injective (rw g at h))
              (setup-Inv s i c inv at fresh time (length c.discon_msg) c.discon_msg)
        | inr g ↦ elim (Bool-cases (is_command req)) [
          | inl k ↦ elim (Option-cases c.fd) [
            | inl n ↦ absurd (connected_ne c fresh.0 n)
            | inr (fd, n) ↦ recv_ctrl-Inv t fd time req stack n (rw (g, k, n) at h)
          ]
          | inr k ↦
              elim (Bool-cases
                (is_size sz_servermsg (msg_len_from_xmit_len msg_with_null (pos (length req))))) [
                  | inl l ↦
                      subst Inv (ok-injective (rw (g, k, l) at h))
                        (recv_bank-Inv s i c inv at fresh time req)
                  | inr l ↦ subst Inv (ok-injective (rw (g, k, l) at h)) (
                      Sound-modify inv i c at (invalid_request time) (
                        invalid_request-Keeps s.db_answers c sound fresh.0 time fresh.1
                          (none_in s i c inv at fresh)))
                ]
        ]
      ]

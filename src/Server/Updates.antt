-- ===== src/Server/Updates.antt =====
-- What each change of one client keeps.
use google_test_c_programs.Base.{
  ℕ, ◌<◌, ◌≡◌, ◌≢◌, refl, Bool, true, false, ◌&&◌, List, arith, ◌==◌, inl, inr, Bool-cases,
}
use google_test_c_programs.Base.CString.{Bytes, codes}
use google_test_c_programs.Server.{
  ProcStat, stat_init, ct_req_recv, db_send, db_recv, bank_send, bank_recv, ct_resp_send, no_events,
  pollin, ServerMsg, Client,
}
use google_test_c_programs.Server.Clients.{
  init_client, setup_client_response, set_client_disconnect, is_connected, is_discon_init,
  is_served, is_at, is_iactive, stat_no,
}
use google_test_c_programs.Server.Steps.{
  to_bank, to_iactive, invalid_request, got_request, got_complete,
}
use google_test_c_programs.Server.Invariant.{
  IsSound, init_client-IsSound, connected_ne, setup-IsSound,
}

-- A change that takes in no new client or session.
pub record Keeps (answers : List Bytes) (c d : Client) : Type 0 where
  pub sound : IsSound answers d
  pub served : is_served d ≡ true → is_served c ≡ true
  pub session : is_iactive d.proc_type ≡ true → (is_iactive c.proc_type ≡ true) × (d.fd ≡ c.fd)

pub and_right : (a b : Bool) → (a && b) ≡ true → b ≡ true
and_right true b h = h
and_right false b h = cc

pub and_left : (a b : Bool) → (a && b) ≡ true → a ≡ true
and_left true b h = refl
and_left false b h = cc

pub and_false {ℓ} : {A : Type ℓ} (a : Bool) → (a && false) ≡ true → A
and_false a h = absurd (let h' = and_right a false h in cc)

-- What is at a point of the processing.
pub at-proc_stat : (stat : ProcStat) (c : Client) → is_at stat c ≡ true → c.proc_stat ≡ stat
at-proc_stat stat c h =
    same c.proc_stat stat (and_right (is_served c) (stat_no c.proc_stat == stat_no stat) h)
  where
    same : (a b : ProcStat) → (stat_no a == stat_no b) ≡ true → a ≡ b
    same stat_init stat_init h = refl
    same ct_req_recv ct_req_recv h = refl
    same db_send db_send h = refl
    same db_recv db_recv h = refl
    same bank_send bank_send h = refl
    same bank_recv bank_recv h = refl
    same ct_resp_send ct_resp_send h = refl
    same _ _ h = cc

pub served-is_connected : (c : Client) → is_served c ≡ true → is_connected c ≡ true
served-is_connected c h = and_left (is_connected c) (is_discon_init c.discon_stat) h

pub at-is_connected : (stat : ProcStat) (c : Client) → is_at stat c ≡ true → is_connected c ≡ true
at-is_connected stat c h =
    served-is_connected c (and_left (is_served c) (stat_no c.proc_stat == stat_no stat) h)

pub init_client-Keeps : (answers : List Bytes) (c : Client) → Keeps answers c init_client
init_client-Keeps answers c = record {
  sound = init_client-IsSound answers;
  served = λ h. cc;
  session = λ h. cc;
}

-- A client that is handled because of its input.
module _ (answers : List Bytes) (c : Client) (s : IsSound answers c) (conn : is_connected c ≡ true)
    (input : c.revents ≡ pollin) where
  pub unsent : c.prev_bytes_sent ≡ 0
  unsent = elim (Bool-cases (c.prev_bytes_sent == 0)) [
    | inl h ↦ ground arith
    | inr h ↦ let p : 0 < c.prev_bytes_sent = ground arith in absurd ((s.partial p).1 input)
  ]

  pub got_request-Keeps : (req : Bytes) → Keeps answers c (got_request req c)
  got_request-Keeps req = record {
    sound = record {
      free = λ e. absurd (connected_ne c conn e);
      phase = s.phase;
      armed = s.armed;
      reported = λ e. cc;
      raced = λ e. cc;
      pending = s.pending;
      partial = λ h. absurd (let p = unsent in omega arith);
    };
    served = λ h. h;
    session = λ h. (h, refl);
  }

  pub got_complete-Keeps : (time : ℕ) (req : Bytes) → Keeps answers c (got_complete time req c)
  got_complete-Keeps time req = record {
    sound = record {
      free = λ e. absurd (connected_ne c conn e);
      phase = tt;
      armed = s.armed;
      reported = λ e. cc;
      raced = λ e. cc;
      pending = λ e. inr (s.raced input e);
      partial = λ h. absurd (let p = unsent in omega arith);
    };
    served = λ h. h;
    session = λ h. (h, refl);
  }

module _ (answers : List Bytes) (c : Client) (s : IsSound answers c)
    (conn : is_connected c ≡ true) where
  pub setup-Keeps :
      (time n : ℕ) (msg : Bytes)
      → c.prev_bytes_sent ≡ 0
      → c.revents ≢ pollin
      → Keeps answers c (setup_client_response time msg n c)
  unfolding setup_client_response
  setup-Keeps time n msg none_sent none_in = record {
    sound = setup-IsSound answers time n msg c conn none_sent none_in;
    served = λ h. h;
    session = λ h. (h, refl);
  }

  -- A client right behind a complete request.
  pub to_bank-IsSound :
      (time : ℕ) (m : ServerMsg)
      → c.prev_bytes_sent ≡ 0
      → c.revents ≡ no_events
      → c.proc_stat ≡ ct_req_recv
      → IsSound answers (to_bank time m c)
  to_bank-IsSound time m none_sent none_in begun = record {
    free = λ e. absurd (connected_ne c conn e);
    phase = refl;
    armed = s.armed;
    reported = λ e. absurd cc;
    raced = λ e. absurd cc;
    pending = λ e. inr (elim (s.pending e) [ inl resp ↦ absurd cc | inr l ↦ l ]);
    partial = λ h. absurd (omega arith);
  }

  pub to_iactive-IsSound :
      c.prev_bytes_sent ≡ 0
      → c.revents ≡ no_events
      → c.proc_stat ≡ ct_req_recv
      → IsSound answers (to_iactive c)
  to_iactive-IsSound none_sent none_in begun = record {
    free = λ e. absurd (connected_ne c conn e);
    phase = rw begun tt;
    armed = s.armed;
    reported = λ e. absurd cc;
    raced = λ e. absurd cc;
    pending = s.pending;
    partial = λ h. absurd (omega arith);
  }

  pub invalid_request-Keeps :
      (time : ℕ)
      → c.prev_bytes_sent ≡ 0
      → c.revents ≢ pollin
      → Keeps answers c (invalid_request time c)
  unfolding setup_client_response
  invalid_request-Keeps time none_sent none_in =
      let t =
        setup-IsSound answers time 22 (codes "ERROR: Invalid request") c conn none_sent none_in in
      record {
        sound = record {
          free = λ e. absurd (connected_ne c conn e);
          phase = tt;
          armed = t.armed;
          reported = t.reported;
          raced = t.raced;
          pending = t.pending;
          partial = t.partial;
        };
        served = λ h. and_false (is_connected c) h;
        session = λ h. (h, refl);
      }

  pub set_client_disconnect-Keeps : (msg : Bytes) → Keeps answers c (set_client_disconnect msg c)
  unfolding set_client_disconnect
  set_client_disconnect-Keeps msg = record {
    sound = record {
      free = λ e. absurd (connected_ne c conn e);
      phase = s.phase;
      armed = s.armed;
      reported = s.reported;
      raced = s.raced;
      pending = s.pending;
      partial = s.partial;
    };
    served = λ h. and_false (is_connected c) h;
    session = λ h. (h, refl);
  }

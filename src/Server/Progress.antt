-- ===== src/Server/Progress.antt =====
-- What the changes keep that the threads make to a client that they found, and those by `poll`.
use mathlib.Core.Path.{subst}
use google_test_c_programs.Base.{
  ℕ, ◌<◌, ◌≡◌, refl, ◌∙◌, ap, sym, true, false, List, ◌++◌, arith, ◌==◌, length, ◌⊎◌, inl, inr,
  Bool-cases,
}
use google_test_c_programs.Base.CString.{Bytes, codes}
use google_test_c_programs.Server.{
  ProcStat, db_send, db_recv, bank_send, bank_recv, ct_resp_send, Events, no_events, pollout,
  Client,
}
use google_test_c_programs.Server.Clients.{
  init_client, servermsg_bytes, setup_client_response, is_connected, is_at, stat_no, db_id,
}
use google_test_c_programs.Server.Steps.{admit, refuse, sent_part, sent_all}
use google_test_c_programs.Server.Threads.{with_status, moved_on, answered, concluded, respond}
use google_test_c_programs.Server.Invariant.{Among, IsSound, connected_ne, length-terminated}
use google_test_c_programs.Server.Updates.{Keeps, at-proc_stat, at-is_connected}

-- What a thread does to the client that it found.
module _ (answers : List Bytes) (c : Client) (s : IsSound answers c) where
  not_resp :
      (stat : ProcStat)
      → is_at stat c ≡ true
      → (stat_no stat == 6) ≡ false
      → c.events ≡ pollout
      → length c.response ≡ 31
  not_resp stat at ne e = elim (s.pending e) [
    | inl resp ↦
        let q = at-proc_stat stat c at in
        let r : ct_resp_send ≡ stat = sym resp ∙ q in let z = ap stat_no r in ground arith
    | inr l ↦ l
  ]

  pub db_status-Keeps : is_at db_send c ≡ true → Keeps answers c (with_status (codes "DS") c)
  db_status-Keeps at = record {
    sound = record {
      free = λ e. absurd (connected_ne c (at-is_connected db_send c at) e);
      phase =
          rw (at-proc_stat db_send c at) (let p = s.phase in rw (at-proc_stat db_send c at) at p);
      armed = s.armed;
      reported = s.reported;
      raced = s.raced;
      pending = s.pending;
      partial = s.partial;
    };
    served = λ h. h;
    session = λ h. (h, refl);
  }

  pub db_moved_on-Keeps :
      (time : ℕ) → is_at db_send c ≡ true → Keeps answers c (moved_on db_recv time (codes "DS") c)
  db_moved_on-Keeps time at = record {
    sound = record {
      free = λ e. absurd (connected_ne c (at-is_connected db_send c at) e);
      phase = (let p = s.phase in rw (at-proc_stat db_send c at) at p, refl);
      armed = s.armed;
      reported = s.reported;
      raced = s.raced;
      pending = λ e. inr (not_resp db_send at refl e);
      partial = s.partial;
    };
    served = λ h. h;
    session = λ h. (h, refl);
  }

  pub answered-IsSound :
      (time : ℕ) (audit : Bytes)
      → is_at db_recv c ≡ true
      → Among (db_id c ++ audit) answers
      → IsSound answers (answered time audit c)
  answered-IsSound time audit at known = record {
    free = λ e. absurd (connected_ne c (at-is_connected db_recv c at) e);
    phase = ((let p = s.phase in rw (at-proc_stat db_recv c at) at p).0, inl refl, known);
    armed = s.armed;
    reported = s.reported;
    raced = s.raced;
    pending = λ e. inr (not_resp db_recv at refl e);
    partial = s.partial;
  }

  pub bank_status-Keeps : is_at bank_send c ≡ true → Keeps answers c (with_status (codes "BS") c)
  bank_status-Keeps at =
      let p = rw (at-proc_stat bank_send c at) at s.phase in
      record {
        sound = record {
          free = λ e. absurd (connected_ne c (at-is_connected bank_send c at) e);
          phase = rw (at-proc_stat bank_send c at) (p.0, inr refl, p.2);
          armed = s.armed;
          reported = s.reported;
          raced = s.raced;
          pending = s.pending;
          partial = s.partial;
        };
        served = λ h. h;
        session = λ h. (h, refl);
      }

  pub bank_moved_on-Keeps :
      (time : ℕ)
      → is_at bank_send c ≡ true
      → Keeps answers c (moved_on bank_recv time (codes "BS") c)
  bank_moved_on-Keeps time at =
      let p = rw (at-proc_stat bank_send c at) at s.phase in
      record {
        sound = record {
          free = λ e. absurd (connected_ne c (at-is_connected bank_send c at) e);
          phase = (p.0, refl, p.2);
          armed = s.armed;
          reported = s.reported;
          raced = s.raced;
          pending = λ e. inr (not_resp bank_send at refl e);
          partial = s.partial;
        };
        served = λ h. h;
        session = λ h. (h, refl);
      }

  -- A response of the bank, which another one may be pending in front of.
  pub respond-Keeps :
      (time : ℕ) (st : Bytes) → is_at bank_recv c ≡ true → Keeps answers c (respond time st c)
  unfolding setup_client_response
  respond-Keeps time st at =
      let l = length-terminated 30 (servermsg_bytes (concluded st c).servermsg) in
      record {
        sound = record {
          free = λ e. absurd (connected_ne c (at-is_connected bank_recv c at) e);
          phase = tt;
          armed = λ e. elim (Bool-cases (c.prev_bytes_sent == 0)) [
            | inl h ↦ ground (arith, l)
            | inr h ↦
                let p : 0 < c.prev_bytes_sent = ground arith in
                let out = (s.partial p).0 in
                omega (arith, l, s.armed out, not_resp bank_recv at refl out)
          ];
          reported = λ e. refl;
          raced = λ e f. omega (arith, l);
          pending = λ e. inl refl;
          partial = λ h. (refl, (s.partial h).1);
        };
        served = λ h. h;
        session = λ h. (h, refl);
      }

  -- A client that is handled because there is room for output.
  pub sent_part-Keeps :
      (n : ℕ)
      → is_connected c ≡ true
      → c.revents ≡ pollout
      → n < length c.response
      → Keeps answers c (sent_part n c)
  sent_part-Keeps n conn output room = record {
    sound = record {
      free = λ e. absurd (connected_ne c conn e);
      phase = s.phase;
      armed = λ e. room;
      reported = λ e. cc;
      raced = λ e. cc;
      pending = s.pending;
      partial = λ h. (s.reported output, λ e. cc);
    };
    served = λ h. h;
    session = λ h. (h, refl);
  }

  pub sent_all-Keeps : is_connected c ≡ true → Keeps answers c (sent_all c)
  sent_all-Keeps conn = record {
    sound = record {
      free = λ e. absurd (connected_ne c conn e);
      phase = s.phase;
      armed = λ e. cc;
      reported = λ e. cc;
      raced = λ e. cc;
      pending = λ e. cc;
      partial = λ h. absurd (omega arith);
    };
    served = λ h. h;
    session = λ h. (h, refl);
  }

  pub refuse-Keeps : (fd : ℕ) → c ≡ init_client → Keeps answers c (refuse fd c)
  refuse-Keeps fd e =
      subst (λ z. Keeps answers z (refuse fd z)) (sym e)
        record {
          sound = record {
            free = λ e. cc;
            phase = tt;
            armed = λ e. cc;
            reported = λ e. cc;
            raced = λ e. cc;
            pending = λ e. cc;
            partial = λ h. absurd (omega arith);
          };
          served = λ h. cc;
          session = λ h. cc;
        }

  -- What `poll` reports for the client.
  pub reported-Keeps :
      (r : Events) → (r ≡ c.events) ⊎ (r ≡ no_events) → Keeps answers c (record c { revents = r })
  reported-Keeps r either = record {
    sound = record {
      free = λ e.
          let same = s.free e in
          let none_now : r ≡ no_events = elim either [
            | inl h ↦ h ∙ ap (λ z. z.events) same
            | inr h ↦ h
          ] in
          ap {A = Client} {B = Client} (λ z. record z { revents = r }) same
          ∙ ap {A = Events} {B = Client} (λ q. record init_client { revents = q }) none_now;
      phase = s.phase;
      armed = s.armed;
      reported = λ e. elim either [ inl h ↦ sym h ∙ e | inr h ↦ absurd cc ];
      raced = λ e f. absurd (elim either [ inl h ↦ cc | inr h ↦ cc ]);
      pending = s.pending;
      partial = λ h. (
        (s.partial h).0,
        λ e. let f = (s.partial h).0 in elim either [ inl h ↦ cc | inr h ↦ cc ],
      );
    };
    served = λ h. h;
    session = λ h. (h, refl);
  }

pub admit-IsSound :
    (answers : List Bytes) (fd time : ℕ) → IsSound answers (admit fd time init_client)
admit-IsSound answers fd time = record {
  free = λ e. cc;
  phase = tt;
  armed = λ e. cc;
  reported = λ e. cc;
  raced = λ e. cc;
  pending = λ e. cc;
  partial = λ h. absurd (omega arith);
}

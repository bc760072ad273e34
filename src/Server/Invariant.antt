-- ===== src/Server/Invariant.antt =====
-- What holds of each client at all times.
use google_test_c_programs.Base.{
  ℕ, zero, suc, ◌+◌, ◌-◌, ◌<◌, ◌≤◌, ◌≡◌, ◌≢◌, refl, true, none, List, [], ◌∷◌, ◌++◌, arith, length,
  length-append, length-replicate, replicate, ◌⊎◌, inl, inr,
}
use google_test_c_programs.Base.CString.{Bytes, codes}
use google_test_c_programs.Server.{
  ProcStat, stat_init, ct_req_recv, db_send, db_recv, bank_send, bank_recv, ct_resp_send, ProcType,
  bank, pollin, pollout, ServerMsg, Client,
}
use google_test_c_programs.Server.Clients.{
  init_client, before_null, terminated, setup_client_response, is_connected, db_id,
}

-- A message occurs in a list.
abbrev pub Among : Bytes → List Bytes → Type 0
Among m [] = ⊥
Among m (x ∷ xs) = (m ≡ x) ⊎ Among m xs

-- The audit number in a client's message occurs, behind this client's id, in what the database
-- server sent.
abbrev pub IsAudited : List Bytes → Bytes → ServerMsg → Type 0
IsAudited answers id m = Among (id ++ m.audit_no) answers

-- What a client's point of the processing says of it.
abbrev pub Phase : List Bytes → Bytes → ProcType → ServerMsg → ProcStat → Type 0
Phase answers id t m stat_init = Unit
Phase answers id t m ct_req_recv = Unit
Phase answers id t m db_send = t ≡ bank
Phase answers id t m db_recv = (t ≡ bank) × (m.status ≡ codes "DS")
Phase answers id t m bank_send =
    (t ≡ bank) × ((m.status ≡ codes "DR") ⊎ (m.status ≡ codes "BS")) × IsAudited answers id m
Phase answers id t m bank_recv = (t ≡ bank) × (m.status ≡ codes "BS") × IsAudited answers id m
Phase answers id t m ct_resp_send = Unit

-- A free slot is as `initClientAtIdx` leaves it. While output is waited for, there are bytes left to send.
-- A response that is pending while the next request is processed is a bank message, 31 bytes long.
pub record IsSound (answers : List Bytes) (c : Client) : Type 0 where
  pub free : c.fd ≡ none → c ≡ init_client
  pub phase : Phase answers (db_id c) c.proc_type c.servermsg c.proc_stat
  pub armed : c.events ≡ pollout → c.prev_bytes_sent < length c.response
  pub reported : c.revents ≡ pollout → c.events ≡ pollout
  pub raced : c.revents ≡ pollin → c.events ≡ pollout → length c.response ≡ 31
  pub pending : c.events ≡ pollout → (c.proc_stat ≡ ct_resp_send) ⊎ (length c.response ≡ 31)
  pub partial : 0 < c.prev_bytes_sent → (c.events ≡ pollout) × (c.revents ≢ pollin)

pub init_client-IsSound : (answers : List Bytes) → IsSound answers init_client
init_client-IsSound answers = record {
  free = λ e. refl;
  phase = tt;
  armed = λ e. cc;
  reported = λ e. cc;
  raced = λ e. cc;
  pending = λ e. cc;
  partial = λ h. absurd (omega arith);
}

pub connected_ne : (c : Client) → is_connected c ≡ true → c.fd ≢ none
connected_ne c h e = let h' = rw e at h in cc

Phase-more :
    (answers : List Bytes) (new id : Bytes) (t : ProcType) (m : ServerMsg) (stat : ProcStat)
    → Phase answers id t m stat
    → Phase (new ∷ answers) id t m stat
Phase-more answers new id t m stat_init h = h
Phase-more answers new id t m ct_req_recv h = h
Phase-more answers new id t m db_send h = h
Phase-more answers new id t m db_recv h = h
Phase-more answers new id t m bank_send h = (h.0, h.1, inr h.2)
Phase-more answers new id t m bank_recv h = (h.0, h.1, inr h.2)
Phase-more answers new id t m ct_resp_send h = h

pub IsSound-more :
    (answers : List Bytes) (m : Bytes) (c : Client) → IsSound answers c → IsSound (m ∷ answers) c
IsSound-more answers m c s = record {
  free = s.free;
  phase = Phase-more answers m (db_id c) c.proc_type c.servermsg c.proc_stat s.phase;
  armed = s.armed;
  reported = s.reported;
  raced = s.raced;
  pending = s.pending;
  partial = s.partial;
}

before_null-length : (n : ℕ) (s : Bytes) → length (before_null n s) ≤ n
before_null-length zero s = omega arith
before_null-length (suc n) [] = omega arith
before_null-length (suc n) (b ∷ s) = let rest = before_null-length n s in ground arith

pub length-terminated : (n : ℕ) (msg : Bytes) → length (terminated n msg) ≡ n + 1
length-terminated n msg =
    let s = before_null n msg in
    omega (
      arith,
      before_null-length n msg,
      length-append s (replicate (n + 1 - length s) 0),
      length-replicate {A = ℕ} (n + 1 - length s) 0,
    )

-- A response is set up while none has been sent in part.
pub setup-IsSound :
    (answers : List Bytes) (time n : ℕ) (msg : Bytes) (c : Client)
    → is_connected c ≡ true
    → c.prev_bytes_sent ≡ 0
    → c.revents ≢ pollin
    → IsSound answers (setup_client_response time msg n c)
unfolding setup_client_response
setup-IsSound answers time n msg c conn none_sent none_in = record {
  free = λ e. absurd (connected_ne c conn e);
  phase = tt;
  armed = λ e. let p = length-terminated n msg in omega arith;
  reported = λ e. refl;
  raced = λ e. absurd (none_in e);
  pending = λ e. inl refl;
  partial = λ h. (refl, none_in);
}

-- ===== src/Server/Clients.antt =====
-- What is done to one client, and how clients are found in the slots.
use google_test_c_programs.Base.{
  ℕ, zero, suc, ◌+◌, ◌-◌, ◌/◌, ◌%◌, Bool, true, false, not, ◌&&◌, ◌||◌, Option, none, some, List,
  [], ◌∷◌, ◌++◌, ◌==◌, if◌then◌else◌, length, take, drop, replicate,
}
use google_test_c_programs.Base.CString.{Bytes}
use google_test_c_programs.Datm.{digit}
use google_test_c_programs.Server.{
  ProcStat, stat_init, ct_resp_send, ProcType, type_init, iactive, bank, DisconStat, discon_init,
  after_msg, now, no_events, pollout, ServerMsg, Client,
}

-- `memset(&ClientInfo[i].servermsg, ' ', sizeof(servermsg_t))`
abbrev pub blank_servermsg : ServerMsg
blank_servermsg = record {
  initial_msg = b' ';
  audit_no = replicate 6 b' ';
  cc_no = replicate 19 b' ';
  bank_status = replicate 2 b' ';
  status = replicate 2 b' ';
}

-- A slot behind `initClientAtIdx`.
abbrev pub init_client : Client
init_client = record {
  fd = none;
  events = no_events;
  revents = no_events;
  activity_time = 0;
  discon_stat = discon_init;
  discon_msg = [];
  proc_type = type_init;
  proc_stat = stat_init;
  request = [];
  servermsg = blank_servermsg;
  response = [];
  prev_bytes_sent = 0;
}

abbrev pub sz_servermsg : ℕ
sz_servermsg = 30

-- `memcpy(servermsg, request, msgLen)`, and the bytes of a message.
unfoldable pub to_servermsg : Bytes → ServerMsg
to_servermsg [] = blank_servermsg
to_servermsg (b ∷ s) = record {
  initial_msg = b;
  audit_no = take 6 s;
  cc_no = take 19 (drop 6 s);
  bank_status = take 2 (drop 25 s);
  status = take 2 (drop 27 s);
}

abbrev pub bankmsg_bytes : ServerMsg → Bytes
bankmsg_bytes m = m.audit_no ++ (m.cc_no ++ m.bank_status)

abbrev pub servermsg_bytes : ServerMsg → Bytes
servermsg_bytes m = m.initial_msg ∷ (bankmsg_bytes m ++ m.status)

-- `strlcpy` of `n` bytes, or of fewer with a null behind them, into `n + 1` bytes that are zero.
abbrev pub before_null : ℕ → Bytes → Bytes
before_null zero s = []
before_null (suc n) [] = []
before_null (suc n) (b ∷ s) = if b == 0 then [] else b ∷ before_null n s

abbrev pub terminated : ℕ → Bytes → Bytes
terminated n msg = let s = before_null n msg in s ++ replicate (n + 1 - length s) 0

-- `setupClientResponse` on the client; it writes to the event descriptor too.
unfoldable pub setup_client_response : ℕ → Bytes → ℕ → Client → Client
setup_client_response time msg msg_len c = record c {
  response = terminated msg_len msg;
  request = [];
  proc_stat = ct_resp_send;
  activity_time = time;
  events = pollout;
}

-- `setClientDisconnect` on the client.
unfoldable pub set_client_disconnect : Bytes → Client → Client
set_client_disconnect msg c = record c { discon_stat = now; discon_msg = take 99 msg }

abbrev pub is_connected : Client → Bool
is_connected c = elim c.fd [ none ↦ false | some n ↦ true ]

abbrev pub is_discon_init : DisconStat → Bool
is_discon_init discon_init = true
is_discon_init after_msg = false
is_discon_init now = false

abbrev pub is_after_msg : DisconStat → Bool
is_after_msg discon_init = false
is_after_msg after_msg = true
is_after_msg now = false

abbrev pub is_now : DisconStat → Bool
is_now discon_init = false
is_now after_msg = false
is_now now = true

-- `MainPoll[i].fd != -1 && ClientInfo[i].disconStat == DISCON_INIT`
abbrev pub is_served : Client → Bool
is_served c = is_connected c && is_discon_init c.discon_stat

abbrev pub stat_no : ProcStat → ℕ
stat_no stat_init = 0
stat_no ProcStat.ct_req_recv = 1
stat_no ProcStat.db_send = 2
stat_no ProcStat.db_recv = 3
stat_no ProcStat.bank_send = 4
stat_no ProcStat.bank_recv = 5
stat_no ct_resp_send = 6

-- A served client at a point of the processing.
abbrev pub is_at : ProcStat → Client → Bool
is_at stat c = is_served c && (stat_no c.proc_stat == stat_no stat)

abbrev pub is_iactive : ProcType → Bool
is_iactive type_init = false
is_iactive iactive = true
is_iactive bank = false

-- `MainPoll[mpx].fd != MainPoll[j].fd`
abbrev pub other_fd : ℕ → Option ℕ → Bool
other_fd n none = true
other_fd n (some k) = not (n == k)

module _ {ℓ} {A : Type ℓ} where
  unfoldable pub any : (A → Bool) → List A → Bool
  any p [] = false
  any p (x ∷ xs) = p x || any p xs

  unfoldable pub count : (A → Bool) → List A → ℕ
  count p [] = 0
  count p (x ∷ xs) = let n = count p xs in if p x then suc n else n

  -- The place of the first one that passes the test.
  unfoldable pub find : (A → Bool) → List A → Option ℕ
  find p [] = none
  find p (x ∷ xs) =
      let rest = find p xs in
      if p x then some 0 else elim rest [ none ↦ none | some i ↦ some (suc i) ]

  -- The place and the element that a thread's loop finds.
  unfoldable pub select : (A → Bool) → List A → Option (ℕ × A)
  select p [] = none
  select p (x ∷ xs) =
      let rest = select p xs in
      if p x then some (0, x) else elim rest [ none ↦ none | some (i, y) ↦ some (suc i, y) ]

  unfoldable pub modify : ℕ → (A → A) → List A → List A
  modify i f [] = []
  modify zero f (x ∷ xs) = f x ∷ xs
  modify (suc i) f (x ∷ xs) = x ∷ modify i f xs

-- `snprintf(..., "%06d", fd)` below 1000000.
abbrev pub six_digits : ℕ → Bytes
six_digits n =
    digit (n / 100000 % 10)
    ∷ digit (n / 10000 % 10)
    ∷ digit (n / 1000 % 10)
    ∷ digit (n / 100 % 10)
    ∷ digit (n / 10 % 10)
    ∷ digit (n % 10)
    ∷ []

-- `string_t dbIdStr`, the id under which the database server knows a client.
abbrev pub db_id : Client → Bytes
db_id c = elim c.fd [ none ↦ [] | some n ↦ six_digits n ]

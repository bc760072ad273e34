-- ===== src/Server/Core.antt =====
-- What holds of the server at all times, and how a change of one client keeps it.
use google_test_c_programs.Base.{
  ℕ, ◌+◌, ◌≤◌, ◌≡◌, ◌∙◌, true, false, some, List, ◌∷◌, arith, length, get_elem?, All, inl, inr,
  Bool-cases,
}
use google_test_c_programs.Base.CString.{Bytes}
use google_test_c_programs.Server.{
  db_send, bank_send, timer_lock, db_send_lock, bank_send_lock, Thread, main_thread, Client, Server,
}
use google_test_c_programs.Server.Locks.{
  locked, meets_held, set_server_work, set_db_send_work, set_bank_send_work,
}
use google_test_c_programs.Server.Clients.{
  init_client, is_connected, is_served, is_at, is_iactive, count, modify,
}
use google_test_c_programs.Server.Steps.{update_client, close_client}
use google_test_c_programs.Server.System.{slots}
use google_test_c_programs.Server.Invariant.{IsSound, IsSound-more}
use google_test_c_programs.Server.Updates.{Keeps, init_client-Keeps, served-is_connected}
use google_test_c_programs.Server.Slots.{
  All-get, All-modify, All-map, length-modify, count-modify, count_mono, count-modify_up,
}

-- All interactive clients use the one descriptor.
abbrev pub OneSession : List Client → Type 0
OneSession cs = (fd : ℕ) × All (λ c. is_iactive c.proc_type ≡ true → c.fd ≡ some fd) cs

-- The clients with what counts them: the messages of the database server and the limit of users.
pub record Sound (answers : List Bytes) (max_users : ℕ) (cs : List Client) : Type 0 where
  pub clients : All (IsSound answers) cs
  pub limit : count is_served cs ≤ max_users
  pub session : OneSession cs
  pub room : length cs ≡ slots max_users

abbrev pub Inv : Server → Type 0
Inv s = Sound s.db_answers s.max_users s.clients

module _ {answers : List Bytes} {max_users : ℕ} {cs : List Client}
    (inv : Sound answers max_users cs) where
  pub Sound-more : (m : Bytes) → Sound (m ∷ answers) max_users cs
  Sound-more m = record {
    clients =
        All-map (IsSound answers) (IsSound (m ∷ answers)) cs (IsSound-more answers m) inv.clients;
    limit = inv.limit;
    session = inv.session;
    room = inv.room;
  }

  module _ (i : ℕ) (c : Client) (at : get_elem? cs i ≡ some c) where
    pub Sound-get : IsSound answers c
    Sound-get = All-get (IsSound answers) cs i c inv.clients at

    pub OneSession-modify :
        (f : Client → Client)
        → (is_iactive (f c).proc_type ≡ true → (is_iactive c.proc_type ≡ true) × ((f c).fd ≡ c.fd))
        → OneSession (modify i f cs)
    OneSession-modify f k =
        let (fd, all) = inv.session in
        let P : Client → Type 0 = λ c. is_iactive c.proc_type ≡ true → c.fd ≡ some fd in
        let q = All-get P cs i c all at in
        (fd, All-modify P cs i c f all at (λ h. (k h).1 ∙ q (k h).0))

    pub Sound-modify :
        (f : Client → Client) → Keeps answers c (f c) → Sound answers max_users (modify i f cs)
    Sound-modify f k = record {
      clients = All-modify (IsSound answers) cs i c f inv.clients at k.sound;
      limit = let n = count-modify is_served cs i c f at k.served in omega (arith, inv.limit);
      session = OneSession-modify f k.session;
      room = length-modify i f cs ∙ inv.room;
    }

    -- A client that is the interactive one now.
    pub Sound-session :
        (f : Client → Client) (fd : ℕ)
        → IsSound answers (f c)
        → (is_served (f c) ≡ true → is_served c ≡ true)
        → (f c).fd ≡ some fd
        → All (λ c. is_iactive c.proc_type ≡ true → c.fd ≡ some fd) cs
        → Sound answers max_users (modify i f cs)
    Sound-session f fd sound served here all = record {
      clients = All-modify (IsSound answers) cs i c f inv.clients at sound;
      limit = let n = count-modify is_served cs i c f at served in omega (arith, inv.limit);
      session =
          let P : Client → Type 0 = λ c. is_iactive c.proc_type ≡ true → c.fd ≡ some fd in
          (fd, All-modify P cs i c f all at (λ h. here));
      room = length-modify i f cs ∙ inv.room;
    }

    -- A client that is served from now on.
    pub Sound-served :
        (f : Client → Client)
        → IsSound answers (f c)
        → count is_connected cs + 1 ≤ max_users
        → is_iactive (f c).proc_type ≡ false
        → Sound answers max_users (modify i f cs)
    Sound-served f sound below session = record {
      clients = All-modify (IsSound answers) cs i c f inv.clients at sound;
      limit =
          let n = count-modify_up is_served cs i f in
          let m = count_mono is_served is_connected cs served-is_connected in
          omega (arith, inv.limit);
      session = OneSession-modify f (λ h. absurd cc);
      room = length-modify i f cs ∙ inv.room;
    }

-- The search for work changes no client.
module _ (th : Thread) (s : Server) (inv : Inv s) where
  pub set_server_work-Inv : Inv (set_server_work th s)
  unfolding set_server_work
  set_server_work-Inv = elim (Bool-cases (locked timer_lock s.held)) [
    | inl h ↦ rw h inv
    | inr h ↦ elim (Bool-cases (meets_held is_served is_served s.held 0 s.clients)) [
      | inl g ↦ rw (h, g) inv
      | inr g ↦ rw (h, g) inv
    ]
  ]

  pub set_db_send_work-Inv : Inv (set_db_send_work th s)
  unfolding set_db_send_work
  set_db_send_work-Inv = elim (Bool-cases (locked db_send_lock s.held)) [
    | inl h ↦ rw h inv
    | inr h ↦ elim (Bool-cases (meets_held (is_at db_send) (is_at db_send) s.held 0 s.clients)) [
      | inl g ↦ rw (h, g) inv
      | inr g ↦ rw (h, g) inv
    ]
  ]

  pub set_bank_send_work-Inv : Inv (set_bank_send_work th s)
  unfolding set_bank_send_work
  set_bank_send_work-Inv = elim (Bool-cases (locked bank_send_lock s.held)) [
    | inl h ↦ rw h inv
    | inr h ↦ elim (Bool-cases (meets_held is_served (is_at bank_send) s.held 0 s.clients)) [
      | inl g ↦ rw (h, g) inv
      | inr g ↦ rw (h, g) inv
    ]
  ]

-- The slot `i` of a reachable server is freed.
pub close_client-Inv :
    (s : Server) (i : ℕ) (c : Client)
    → Inv s
    → get_elem? s.clients i ≡ some c
    → Inv (close_client i s)
close_client-Inv s i c inv at =
    set_server_work-Inv main_thread (update_client i (λ c. init_client) s)
      (Sound-modify inv i c at (λ c. init_client) (init_client-Keeps s.db_answers c))

-- ===== src/Server/Frozen.antt =====
-- The server while the main thread is blocked: the search for work and changes of a client leave the
-- descriptors as they are.
use google_test_c_programs.Base.{
  ℕ, zero, suc, ◌≡◌, refl, ◌∙◌, ap, Bool, true, false, ◌||◌, Option, List, [], ◌∷◌, map, inl, inr,
  Bool-cases,
}
use google_test_c_programs.Server.{
  db_send, bank_send, timer_lock, db_send_lock, bank_send_lock, Thread, main_thread, Client, Server,
}
use google_test_c_programs.Server.Clients.{is_served, is_at, any, modify}
use google_test_c_programs.Server.Locks.{
  locked, is_blocked, block, meets_held, set_server_work, set_db_send_work, set_bank_send_work,
}
use google_test_c_programs.Server.Steps.{update_client}

-- The descriptors of the slots.
abbrev pub fds : Server → List (Option ℕ)
fds s = map (λ c. c.fd) s.clients

-- The main thread is blocked, and the slots have the descriptors `fs`.
abbrev pub Frozen : List (Option ℕ) → Server → Type 0
Frozen fs s = (fds s ≡ fs) × (is_blocked main_thread s ≡ true)

pub modify-fds :
    (cs : List Client) (i : ℕ) (f : Client → Client)
    → ((c : Client) → (f c).fd ≡ c.fd)
    → map (λ c. c.fd) (modify i f cs) ≡ map (λ c. c.fd) cs
unfolding modify
modify-fds [] i f same = refl
modify-fds (c ∷ cs) zero f same = ap (λ o. o ∷ map (λ c. c.fd) cs) (same c)
modify-fds (c ∷ cs) (suc i) f same = ap (λ os. c.fd ∷ os) (modify-fds cs i f same)

or_true : (a b : Bool) → b ≡ true → (a || b) ≡ true
or_true true b h = refl
or_true false b h = h

module _ (fs : List (Option ℕ)) (s : Server) (frozen : Frozen fs s) where
  pub block-Frozen : (th : Thread) → Frozen fs (block th s)
  unfolding is_blocked any
  block-Frozen th = (frozen.0, or_true _ _ frozen.1)

  pub update_client-Frozen :
      (i : ℕ) (f : Client → Client)
      → ((c : Client) → (f c).fd ≡ c.fd)
      → Frozen fs (update_client i f s)
  unfolding is_blocked
  update_client-Frozen i f same = (modify-fds s.clients i f same ∙ frozen.0, frozen.1)

  pub set_server_work-Frozen : (th : Thread) → Frozen fs (set_server_work th s)
  unfolding set_server_work is_blocked any
  set_server_work-Frozen th = elim (Bool-cases (locked timer_lock s.held)) [
    | inl h ↦ rw h (frozen.0, or_true _ _ frozen.1)
    | inr h ↦ elim (Bool-cases (meets_held is_served is_served s.held 0 s.clients)) [
      | inl g ↦ rw (h, g) (frozen.0, or_true _ _ frozen.1)
      | inr g ↦ rw (h, g) frozen
    ]
  ]

  pub set_db_send_work-Frozen : (th : Thread) → Frozen fs (set_db_send_work th s)
  unfolding set_db_send_work is_blocked any
  set_db_send_work-Frozen th = elim (Bool-cases (locked db_send_lock s.held)) [
    | inl h ↦ rw h (frozen.0, or_true _ _ frozen.1)
    | inr h ↦ elim (Bool-cases (meets_held (is_at db_send) (is_at db_send) s.held 0 s.clients)) [
      | inl g ↦ rw (h, g) (frozen.0, or_true _ _ frozen.1)
      | inr g ↦ rw (h, g) frozen
    ]
  ]

  pub set_bank_send_work-Frozen : (th : Thread) → Frozen fs (set_bank_send_work th s)
  unfolding set_bank_send_work is_blocked any
  set_bank_send_work-Frozen th = elim (Bool-cases (locked bank_send_lock s.held)) [
    | inl h ↦ rw h (frozen.0, or_true _ _ frozen.1)
    | inr h ↦ elim (Bool-cases (meets_held is_served (is_at bank_send) s.held 0 s.clients)) [
      | inl g ↦ rw (h, g) (frozen.0, or_true _ _ frozen.1)
      | inr g ↦ rw (h, g) frozen
    ]
  ]

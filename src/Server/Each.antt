-- ===== src/Server/Each.antt =====
-- A change of all clients at once: what `poll` reports, and `disconnectClients`.
use google_test_c_programs.Base.{
  ℕ, zero, suc, ◌≤◌, ◌≡◌, refl, ◌∙◌, ap, Bool, true, false, not, ◌&&◌, some, List, [], ◌∷◌, arith,
  length, get_elem?, All, inl, inr, Bool-cases, Option-cases,
}
use google_test_c_programs.Base.CString.{Bytes}
use google_test_c_programs.Server.{no_events, main_thread, Client, Server}
use google_test_c_programs.Server.Clients.{is_served, is_iactive, count}
use google_test_c_programs.Server.Locks.{is_blocked}
use google_test_c_programs.Server.Steps.{
  poll_clients, poll, leaves, disconnect_at, disconnect_all, disconnect_clients,
}
use google_test_c_programs.Server.Invariant.{IsSound}
use google_test_c_programs.Server.Updates.{Keeps}
use google_test_c_programs.Server.Progress.{reported-Keeps}
use google_test_c_programs.Server.Core.{Inv, Sound, close_client-Inv}

abbrev KeepsEach : List Bytes → List Client → List Client → Type 0
KeepsEach answers [] [] = Unit
KeepsEach answers [] (d ∷ ds) = ⊥
KeepsEach answers (c ∷ cs) [] = ⊥
KeepsEach answers (c ∷ cs) (d ∷ ds) = Keeps answers c d × KeepsEach answers cs ds

module _ (p : Client → Bool) (answers : List Bytes)
    (keep : (c d : Client) → Keeps answers c d → p d ≡ true → p c ≡ true) where
  count-each : (cs ds : List Client) → KeepsEach answers cs ds → count p ds ≤ count p cs
  unfolding count
  count-each [] [] k = omega arith
  count-each [] (d ∷ ds) k = absurd k
  count-each (c ∷ cs) [] k = absurd k
  count-each (c ∷ cs) (d ∷ ds) k =
      let rest = count-each cs ds k.1 in
      elim (Bool-cases (p d)) [
        | inl h ↦ rw (h, keep c d k.0 h) (omega arith)
        | inr h ↦ rw h (elim (Bool-cases (p c)) [ inl g ↦ rw g (omega arith) | inr g ↦ rw g rest ])
      ]

module _ (answers : List Bytes) where
  IsSound-each : (cs ds : List Client) → KeepsEach answers cs ds → All (IsSound answers) ds
  IsSound-each [] [] k = tt
  IsSound-each [] (d ∷ ds) k = absurd k
  IsSound-each (c ∷ cs) [] k = absurd k
  IsSound-each (c ∷ cs) (d ∷ ds) k = (k.0.sound, IsSound-each cs ds k.1)

  length-each : (cs ds : List Client) → KeepsEach answers cs ds → length ds ≡ length cs
  length-each [] [] k = refl
  length-each [] (d ∷ ds) k = absurd k
  length-each (c ∷ cs) [] k = absurd k
  length-each (c ∷ cs) (d ∷ ds) k = ap suc (length-each cs ds k.1)

  session-each :
      (fd : ℕ) (cs ds : List Client)
      → KeepsEach answers cs ds
      → All (λ c. is_iactive c.proc_type ≡ true → c.fd ≡ some fd) cs
      → All (λ c. is_iactive c.proc_type ≡ true → c.fd ≡ some fd) ds
  session-each fd [] [] k a = tt
  session-each fd [] (d ∷ ds) k a = absurd k
  session-each fd (c ∷ cs) [] k a = absurd k
  session-each fd (c ∷ cs) (d ∷ ds) k a =
      ((λ h. (k.0.session h).1 ∙ a.0 (k.0.session h).0), session-each fd cs ds k.1 a.1)

  Sound-each :
      (max_users : ℕ) (cs ds : List Client)
      → Sound answers max_users cs
      → KeepsEach answers cs ds
      → Sound answers max_users ds
  Sound-each max_users cs ds inv k = record {
    clients = IsSound-each cs ds k;
    limit =
        let n = count-each is_served answers (λ c d k. k.served) cs ds k in
        omega (arith, inv.limit);
    session = (inv.session.0, session-each inv.session.0 cs ds k inv.session.1);
    room = length-each cs ds k ∙ inv.room;
  }

  poll-each :
      (ready : List Bool) (cs : List Client)
      → All (IsSound answers) cs
      → KeepsEach answers cs (poll_clients ready cs)
  unfolding poll_clients
  poll-each ready [] a = tt
  poll-each [] (c ∷ cs) a = (reported-Keeps answers c a.0 no_events (inr refl), poll-each [] cs a.1)
  poll-each (false ∷ ready) (c ∷ cs) a =
      (reported-Keeps answers c a.0 no_events (inr refl), poll-each ready cs a.1)
  poll-each (true ∷ ready) (c ∷ cs) a =
      (reported-Keeps answers c a.0 c.events (inl refl), poll-each ready cs a.1)

pub poll-Inv : (ready : List Bool) (s : Server) → Inv s → Inv (poll ready s)
poll-Inv ready s inv =
    Sound-each s.db_answers s.max_users s.clients (poll_clients ready s.clients) inv
      (poll-each s.db_answers ready s.clients inv.clients)

disconnect_at-Inv :
    (i : ℕ) (c : Client) (s : Server)
    → Inv s
    → get_elem? s.clients i ≡ some c
    → Inv (disconnect_at i c s)
unfolding disconnect_at
disconnect_at-Inv i c s inv at = elim (Bool-cases (leaves c && not (is_blocked main_thread s))) [
  | inl h ↦ rw h (close_client-Inv s i c inv at)
  | inr h ↦ rw h inv
]

disconnect_all-Inv : (n i : ℕ) (s : Server) → Inv s → Inv (disconnect_all n i s)
unfolding disconnect_all
disconnect_all-Inv zero i s inv = inv
disconnect_all-Inv (suc n) i s inv = elim (Option-cases (get_elem? s.clients i)) [
  | inl e ↦ rw (e, disconnect_all) inv
  | inr (c, at) ↦
      rw (at, disconnect_all)
        (disconnect_all-Inv n (suc i) (disconnect_at i c s) (disconnect_at-Inv i c s inv at))
]

pub disconnect_clients-Inv : (s : Server) → Inv s → Inv (disconnect_clients s)
unfolding disconnect_clients
disconnect_clients-Inv s inv =
    disconnect_all-Inv (length s.clients) 0 (record s { event_count = 0 }) inv

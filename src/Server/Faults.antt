-- ===== src/Server/Faults.antt =====
-- What goes wrong: the slots can run out.
use google_test_c_programs.Base.{
  ℕ, suc, ◌+◌, ◌≤◌, ◌≡◌, refl, ◌∙◌, ap, sym, not, none, List, [], ◌∷◌, arith, ltb, length, inl, inr,
  Bool-cases, Option-cases,
}
use google_test_c_programs.Base.Outcome.{fault}
use google_test_c_programs.MsgLen.Frames.{Kind}
use google_test_c_programs.Logging.{Logs}
use google_test_c_programs.Server.{Client, Server}
use google_test_c_programs.Server.Clients.{is_connected, count, find}
use google_test_c_programs.Server.Steps.{proc_new_client}
use google_test_c_programs.Server.System.{Reach}
use google_test_c_programs.Server.Safety.{server-limit}

count-full : (cs : List Client) → count is_connected cs ≤ length cs
unfolding count
count-full [] = omega arith
count-full (c ∷ cs) =
    let rest = count-full cs in
    elim (Bool-cases (is_connected c)) [ inl h ↦ rw h (omega arith) | inr h ↦ rw h (omega arith) ]

full-none :
    (cs : List Client)
    → (find (λ c. not (is_connected c)) cs ≡ none → count is_connected cs ≡ length cs)
      × (count is_connected cs ≡ length cs → find (λ c. not (is_connected c)) cs ≡ none)
unfolding find count
full-none [] = (λ h. refl, λ h. refl)
full-none (c ∷ cs) =
    let rest = full-none cs in
    let most = count-full cs in
    elim (Bool-cases (is_connected c)) [
      | inl h ↦ rw h (
        λ e. elim (Option-cases (find (λ c. not (is_connected c)) cs)) [
          | inl n ↦ ap suc (rest.0 n)
          | inr (i, found) ↦ absurd (let e' = rw found at e in cc)
        ],
        λ e. let n = rest.1 (omega arith) in rw n refl,
      )
      | inr h ↦ rw h (λ e. absurd cc, λ e. absurd (omega arith))
    ]

-- In every state that the server can reach, a new connection is written behind the end of the arrays
-- exactly when as many clients are connected as the limit of users and eight.
pub proc_new_client-fault :
    {kind : Kind} {max_users : ℕ} {logs : Logs} {s : Server} (r : Reach kind max_users logs s)
    (fd time : ℕ)
    → (proc_new_client fd time s ≡ fault → count is_connected s.clients ≡ s.max_users + 8)
      × (count is_connected s.clients ≡ s.max_users + 8 → proc_new_client fd time s ≡ fault)
unfolding proc_new_client
proc_new_client-fault {s} r fd time =
    let (room, limit) = server-limit r in
    let (full, none_free) = full-none s.clients in
    (
      λ h. elim (Option-cases (find (λ c. not (is_connected c)) s.clients)) [
        | inl n ↦ full n ∙ room
        | inr (j, found) ↦ elim (Bool-cases (ltb s.max_users (count is_connected s.clients + 1))) [
          | inl g ↦ absurd (let h' = rw (found, proc_new_client, g) at h in cc)
          | inr g ↦ absurd (let h' = rw (found, proc_new_client, g) at h in cc)
        ]
      ],
      λ h. rw (none_free (h ∙ sym room), proc_new_client) refl,
    )

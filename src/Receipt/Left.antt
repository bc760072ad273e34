-- ===== src/Receipt/Left.antt =====
-- What a receipt leaves behind, sent or not.
use google_test_c_programs.Base.{
  ℕ, ◌≡◌, refl, ◌∙◌, ap, sym, true, false, List, ◌∷◌, bytes_eq_refl, ◌⊎◌, inl, inr, Bool-cases,
}
use google_test_c_programs.Base.CString.{Bytes}
use google_test_c_programs.Receipt.{
  Recprm, Ret, Check, passed, refused, World, Outside, receipt_validate_db,
  receipt_validate_folders, file_exists, receipt_path, receipt_select_folder, file_delete,
  archive_command, receipt_file, select_and_send, receipt_main,
}

Check-cases :
    {A : Type 0} (x : Check A) → ((a : A) × (x ≡ passed a)) ⊎ ((r : Ret) × (x ≡ refused r))
Check-cases (passed a) = inl (a, refl)
Check-cases (refused r) = inr (r, refl)

-- A command that fails leaves the files as they were.
abbrev pub IsCareful : Outside → Type 0
IsCareful o =
    (cmd : Bytes) (files : List Bytes) → (o.run cmd files).0 ≡ true → (o.run cmd files).1 ≡ files

-- A receipt by the parameters `recprm` whose command does not fail is in the archive afterwards.
abbrev pub Archives : Outside → ℕ → ℕ → Recprm → Type 0
Archives o person_id pmttxn_seq_no recprm =
    (files : List Bytes)
    → (o.run
        (archive_command recprm (receipt_path recprm.email_folder_name person_id pmttxn_seq_no))
        files).0
      ≡ false
    → file_exists (receipt_path recprm.archive_folder_name person_id pmttxn_seq_no)
        (o.run
          (archive_command recprm (receipt_path recprm.email_folder_name person_id pmttxn_seq_no))
          files).1
      ≡ true

delete_created : (path : Bytes) (files : List Bytes) → file_delete path (path ∷ files) ≡ files
unfolding file_delete
delete_created path files = rw (bytes_eq_refl path) refl

receipt_file-refused :
    (o : Outside) (recprm : Recprm) (path : Bytes) (w : World) (r : Ret)
    → IsCareful o
    → (receipt_file o recprm path w).0 ≡ refused r
    → (receipt_file o recprm path w).1.files ≡ w.files
unfolding receipt_file
receipt_file-refused o recprm path w r careful h =
    let cmd = archive_command recprm path in
    elim (Bool-cases (o.run cmd (path ∷ w.files)).0) [
      | inl g ↦ rw (g, careful cmd (path ∷ w.files) g) (delete_created path w.files)
      | inr g ↦ absurd (let h' = rw g at h in cc)
    ]

module _ (o : Outside) (person_id pmttxn_seq_no : ℕ) (recprm_id : Bytes) (w : World) where
  send_refused :
      (recprm : Recprm) (r : Ret)
      → IsCareful o
      → (select_and_send o person_id pmttxn_seq_no recprm w).0 ≡ refused r
      → (select_and_send o person_id pmttxn_seq_no recprm w).1.files ≡ w.files
  send_refused recprm r careful h =
      elim (Check-cases (receipt_select_folder person_id pmttxn_seq_no recprm w.files)) [
        | inl ((path, create), e) ↦ elim (Bool-cases create) [
          | inl c ↦
              rw (e, select_and_send, c)
                (receipt_file-refused o recprm path w r careful (rw (e, select_and_send, c) at h))
          | inr c ↦ rw (e, select_and_send, c) refl
        ]
        | inr (r', e) ↦ rw (e, select_and_send) refl
      ]

  -- When a command that fails leaves the files as they were, a receipt that is refused for any reason,
  -- be it a record, a folder, another user or the command, leaves the files as they were.
  pub receipt_main-refused :
      (r : Ret)
      → IsCareful o
      → (receipt_main o person_id pmttxn_seq_no recprm_id w).0 ≡ refused r
      → (receipt_main o person_id pmttxn_seq_no recprm_id w).1.files ≡ w.files
  unfolding receipt_main
  receipt_main-refused r careful h =
      elim (Check-cases (receipt_validate_db o person_id pmttxn_seq_no recprm_id)) [
        | inl ((person, pmttxn, recprm, to), e) ↦
            elim (Check-cases (receipt_validate_folders o recprm)) [
              | inl (u, f) ↦
                  rw (e, receipt_main, f)
                    (send_refused recprm r careful (rw (e, receipt_main, f) at h))
              | inr (r', f) ↦ rw (e, receipt_main, f) refl
            ]
        | inr (r', e) ↦ rw (e, receipt_main) refl
      ]

  archived_again :
      (recprm : Recprm) (w' : World)
      → file_exists (receipt_path recprm.archive_folder_name person_id pmttxn_seq_no) w'.files
        ≡ true
      → select_and_send o person_id pmttxn_seq_no recprm w' ≡ (passed tt, w')
  unfolding receipt_select_folder
  archived_again recprm w' h = rw (h, select_and_send) refl

  send_stored :
      (recprm : Recprm) (w' : World)
      → Archives o person_id pmttxn_seq_no recprm
      → select_and_send o person_id pmttxn_seq_no recprm w ≡ (passed tt, w')
      → file_exists (receipt_path recprm.archive_folder_name person_id pmttxn_seq_no) w'.files
        ≡ true
  unfolding receipt_select_folder receipt_file
  send_stored recprm w' archives h =
      let archived = receipt_path recprm.archive_folder_name person_id pmttxn_seq_no in
      let pending = receipt_path recprm.email_folder_name person_id pmttxn_seq_no in
      elim (Bool-cases (file_exists archived w.files)) [
        | inl g ↦
            let h' = rw (g, select_and_send) at h in
            let same : w ≡ w' = ap (λ x. x.1) h' in
            ap (λ x. file_exists archived x.files) (sym same) ∙ g
        | inr g ↦ elim (Bool-cases (file_exists pending w.files)) [
          | inl k ↦
              absurd (let h' = rw (g, select_and_send, k) at h in let e = ap (λ x. x.0) h' in cc)
          | inr k ↦
              let h' = rw (g, select_and_send, k) at h in
              elim (Bool-cases (o.run (archive_command recprm pending) (pending ∷ w.files)).0) [
                | inl b ↦ absurd (let h'' = rw b at h' in let e = ap (λ x. x.0) h'' in cc)
                | inr b ↦
                    let h'' = rw b at h' in
                    let files = ap (λ x. x.1.files) h'' in
                    ap (file_exists archived) (sym files) ∙ archives (pending ∷ w.files) b
              ]
        ]
      ]

  -- When a command that does not fail puts the file into the archive, a receipt that was sent is not
  -- sent again: a second call with the same arguments succeeds, gives no command and changes no file.
  pub receipt_main-again :
      (w' : World)
      → ((person : o.Person) (pmttxn : o.Pmttxn) (recprm : Recprm) (to : Bytes)
          → receipt_validate_db o person_id pmttxn_seq_no recprm_id
            ≡ passed (person, pmttxn, recprm, to)
          → Archives o person_id pmttxn_seq_no recprm)
      → receipt_main o person_id pmttxn_seq_no recprm_id w ≡ (passed tt, w')
      → receipt_main o person_id pmttxn_seq_no recprm_id w' ≡ (passed tt, w')
  unfolding receipt_main
  receipt_main-again w' archives h =
      elim (Check-cases (receipt_validate_db o person_id pmttxn_seq_no recprm_id)) [
        | inl ((person, pmttxn, recprm, to), e) ↦
            elim (Check-cases (receipt_validate_folders o recprm)) [
              | inl (u, f) ↦
                  rw (e, receipt_main, f)
                    (archived_again recprm w' (
                      send_stored recprm w' (archives person pmttxn recprm to e)
                        (rw (e, receipt_main, f) at h)))
              | inr (r', f) ↦
                  absurd (let h' = rw (e, receipt_main, f) at h in let x = ap (λ x. x.0) h' in cc)
            ]
        | inr (r', e) ↦
            absurd (let h' = rw (e, receipt_main) at h in let x = ap (λ x. x.0) h' in cc)
      ]

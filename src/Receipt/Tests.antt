-- ===== src/Receipt/Tests.antt =====
-- A receipt with a command that moves the file, and with one that fails.
use mathlib.Core.Path.{subst}
use google_test_c_programs.Base.{◌≡◌, refl, ap, Bool, true, false, List, [], ◌∷◌}
use google_test_c_programs.Base.CString.{Bytes, codes}
use google_test_c_programs.ErrCodes.{ErrCode}
use google_test_c_programs.FmtAmt.{digits_of}
use google_test_c_programs.Receipt.{
  Recprm, error, Check, passed, refused, found, World, Outside, receipt_validate_db,
  receipt_validate_folders, file_exists, receipt_path, receipt_select_folder, archive_command,
  receipt_file, receipt_main,
}
use google_test_c_programs.Receipt.Left.{receipt_main-refused, receipt_main-again}

abbrev parameters : Recprm
parameters = record {
  archive_folder_name = codes "archive";
  email_folder_name = codes "email";
  archive_cmd = codes "mv";
}

abbrev archived : Bytes
archived = receipt_path (codes "archive") 1 7

-- Everything is found, and a command does what is given.
abbrev outside : Bool → (List Bytes → List Bytes) → Outside
outside wrong move = record {
  Person = Unit;
  Pmttxn = Unit;
  person_read_key = λ id. found tt;
  person_show_email = λ p. passed (codes "a@b.c");
  pmttxn_read_key = λ id seq. found tt;
  recprm_read_key = λ id. found parameters;
  folder_exists = λ name. true;
  run = λ cmd files. (wrong, move files);
}

abbrev empty : World
empty = record { files = []; commands = [] }

abbrev moving : Outside
moving = outside false (λ files. archived ∷ [])

abbrev sent : World
sent = record {
  files = archived ∷ [];
  commands = archive_command parameters (receipt_path (codes "email") 1 7) ∷ [];
}

receipt_main-refused_example :
    (receipt_main (outside true (λ files. files)) 1 7 (codes "R") empty).1.files ≡ []
unfolding receipt_main receipt_validate_db receipt_validate_folders receipt_select_folder
    receipt_file file_exists
receipt_main-refused_example =
    receipt_main-refused (outside true (λ files. files)) 1 7 (codes "R") empty
      (error ErrCode.syscmd_failed) (λ cmd files h. refl) refl

abbrev recprm_of : Check (Unit {0} × Unit {0} × Recprm × Bytes) → Recprm
recprm_of (passed x) = x.2
recprm_of (refused r) = parameters

receipt_main-again_example : receipt_main moving 1 7 (codes "R") sent ≡ (passed tt, sent)
unfolding receipt_main receipt_validate_db receipt_validate_folders receipt_select_folder
    receipt_file file_exists digits_of
receipt_main-again_example =
    receipt_main-again moving 1 7 (codes "R") empty sent
      (λ person pmttxn recprm to e files h.
        let same : parameters ≡ recprm = ap recprm_of e in
        subst (λ r. file_exists (receipt_path r.archive_folder_name 1 7) (archived ∷ []) ≡ true)
          same refl)
      refl

-- ===== src/Receipt.antt =====
-- master/src/programs/receipt.c and receiptval.c: the receipt of a payment is written to a file in the
-- folder for e-mails, and a command moves it to the archive. The database, the folders and the
-- command are parameters; what the program knows of the file system is the list of the files' names. Opening and writing a
-- file succeed, as the program exits otherwise. The text of the messages and of the receipt are left out.
pub mod Left
mod Tests
use google_test_c_programs.Base.{
  ℕ, Bool, true, false, not, ◌||◌, List, [], ◌∷◌, ◌++◌, if◌then◌else◌, bytes_eq,
}
use google_test_c_programs.Base.CString.{Bytes, codes}
use google_test_c_programs.ErrCodes.{ErrCode}
use google_test_c_programs.FmtAmt.{decimal, padded_to}

-- The fields of `recprm_r` that are used here.
pub record Recprm : Type 0 where
  pub archive_folder_name : Bytes
  pub email_folder_name : Bytes
  pub archive_cmd : Bytes

-- A return value that is not 0: 1 with the code of the message, or a number below 0, as its magnitude.
pub data Ret : Type 0 where
  error : ErrCode → Ret
  major : ℕ → Ret

pub data Check (A : Type 0) : Type 0 where
  passed : A → Check A
  refused : Ret → Check A

-- What reading a record by its key comes to.
pub data Read (A : Type 0) : Type 0 where
  found : A → Read A
  missing : Read A
  failed : ℕ → Read A

-- The names of the files, and the commands that were given, the last one first.
pub record World : Type 0 where
  pub files : List Bytes
  pub commands : List Bytes

-- What is outside: reading the database, whether a folder exists, and what a command does, which returns
-- whether it failed.
pub record Outside : Type 1 where
  pub Person : Type 0
  pub Pmttxn : Type 0
  pub person_read_key : ℕ → Read Person
  pub person_show_email : Person → Check Bytes
  pub pmttxn_read_key : ℕ → ℕ → Read Pmttxn
  pub recprm_read_key : Bytes → Read Recprm
  pub folder_exists : Bytes → Bool
  pub run : Bytes → List Bytes → Bool × List Bytes

abbrev pub and_then : {A B : Type 0} → Check A → (A → Check B) → Check B
and_then (passed a) f = f a
and_then (refused r) f = refused r

abbrev pub record_of : {A : Type 0} → ErrCode → Read A → Check A
record_of e (found a) = passed a
record_of e missing = refused (error e)
record_of e (failed n) = refused (major n)

abbrev pub require : Bool → ErrCode → Check (Unit {0})
require true e = passed tt
require false e = refused (error e)

unfoldable pub receipt_validate_db :
    (o : Outside) → ℕ → ℕ → Bytes → Check (o.Person × o.Pmttxn × Recprm × Bytes)
receipt_validate_db o person_id pmttxn_seq_no recprm_id =
    and_then (record_of ErrCode.invalid_person_rec (o.person_read_key person_id)) λ person.
      and_then (o.person_show_email person) λ to_email_address.
        and_then (record_of ErrCode.invalid_pmttxn_rec (o.pmttxn_read_key person_id pmttxn_seq_no))
          λ pmttxn.
            and_then (record_of ErrCode.invalid_recprm_rec (o.recprm_read_key recprm_id))
              λ recprm. passed (person, pmttxn, recprm, to_email_address)

unfoldable pub receipt_validate_folders : Outside → Recprm → Check (Unit {0})
receipt_validate_folders o recprm =
    and_then (require (o.folder_exists recprm.archive_folder_name) ErrCode.invalid_recprm_archive)
      λ u. require (o.folder_exists recprm.email_folder_name) ErrCode.invalid_recprm_email

-- `FileExists`
unfoldable pub file_exists : Bytes → List Bytes → Bool
file_exists name [] = false
file_exists name (f ∷ fs) = bytes_eq name f || file_exists name fs

-- `SetFileFullPath` of `%06d_%06d_receipt`
abbrev pub six_wide : ℕ → Bytes
six_wide n = padded_to 5 (decimal n)

abbrev pub receipt_path : Bytes → ℕ → ℕ → Bytes
receipt_path folder person_id pmttxn_seq_no =
    folder ++ (b'/' ∷ (six_wide person_id ++ (b'_' ∷ (six_wide pmttxn_seq_no ++ codes "_receipt"))))

-- `ReceiptSelectFolder`: the path, and whether the file is to be created there.
unfoldable pub receipt_select_folder : ℕ → ℕ → Recprm → List Bytes → Check (Bytes × Bool)
receipt_select_folder person_id pmttxn_seq_no recprm files =
    let archived = receipt_path recprm.archive_folder_name person_id pmttxn_seq_no in
    let pending = receipt_path recprm.email_folder_name person_id pmttxn_seq_no in
    if file_exists archived files
    then passed (archived, false)
    else if file_exists pending files
    then refused (error ErrCode.receipt_another_user)
    else passed (pending, true)

-- `FileDelete`
unfoldable pub file_delete : Bytes → List Bytes → List Bytes
file_delete name [] = []
file_delete name (f ∷ fs) =
    let rest = file_delete name fs in if bytes_eq name f then fs else f ∷ rest

abbrev pub archive_command : Recprm → Bytes → Bytes
archive_command recprm path =
    recprm.archive_cmd ++ (b' ' ∷ (path ++ (b' ' ∷ recprm.archive_folder_name)))

-- `receiptFile`: the file is written, and the command moves it; when it fails, the file is deleted.
unfoldable pub receipt_file : Outside → Recprm → Bytes → World → Check (Unit {0}) × World
receipt_file o recprm path w =
    let cmd = archive_command recprm path in
    let (wrong, files) = o.run cmd (path ∷ w.files) in
    if wrong
    then (
      refused (error ErrCode.syscmd_failed),
      record { files = file_delete path files; commands = cmd ∷ w.commands },
    )
    else (passed tt, record { files = files; commands = cmd ∷ w.commands })

abbrev pub select_and_send : Outside → ℕ → ℕ → Recprm → World → Check (Unit {0}) × World
select_and_send o person_id pmttxn_seq_no recprm w =
    elim (receipt_select_folder person_id pmttxn_seq_no recprm w.files) [
      | refused r ↦ (refused r, w)
      | passed (path, false) ↦ (passed tt, w)
      | passed (path, true) ↦ receipt_file o recprm path w
    ]

unfoldable pub receipt_main : Outside → ℕ → ℕ → Bytes → World → Check (Unit {0}) × World
receipt_main o person_id pmttxn_seq_no recprm_id w =
    elim (receipt_validate_db o person_id pmttxn_seq_no recprm_id) [
      | refused r ↦ (refused r, w)
      | passed (person, pmttxn, recprm, to_email_address) ↦
          elim (receipt_validate_folders o recprm) [
            | refused r ↦ (refused r, w)
            | passed u ↦ select_and_send o person_id pmttxn_seq_no recprm w
          ]
    ]

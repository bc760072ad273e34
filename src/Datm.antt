-- ===== src/Datm.antt =====
-- master/src/utils/datmutils.c: the time as a text, and back. What `localtime_r` returns is an
-- argument; its fields are in their ranges, so that each is printed with the digits of its width.
pub mod Parse
mod Tests
use google_test_c_programs.Base.{
  ℕ, zero, suc, ◌+◌, ◌/◌, ◌%◌, Bool, true, false, none, some, List, [], ◌∷◌, ◌++◌, take,
  if◌then◌else◌, ◌==◌,
}
use google_test_c_programs.Base.Int.{ℤ}
use google_test_c_programs.Base.Outcome.{Outcome, ok, fault, ◌>>=◌}
use google_test_c_programs.Base.CString.{Bytes, codes, atoi}
use google_test_c_programs.CyclicStr.{Cyclic, fmt_str}
use google_test_c_programs.MergeGcov.{split_at}

-- The fields of `struct tm` that are printed: years since 1900 and months from 0 on.
pub record Tm : Type 0 where
  pub tm_year : ℕ
  pub tm_mon : ℕ
  pub tm_mday : ℕ
  pub tm_hour : ℕ
  pub tm_min : ℕ
  pub tm_sec : ℕ

abbrev pub digit : ℕ → ℕ
digit d = b'0' + d

-- `%02hd` below 100 and `%04hd` below 10000.
abbrev pub two_digits : ℕ → Bytes
two_digits n = digit (n / 10 % 10) ∷ digit (n % 10) ∷ []

abbrev pub four_digits : ℕ → Bytes
four_digits n =
    digit (n / 1000 % 10) ∷ digit (n / 100 % 10) ∷ digit (n / 10 % 10) ∷ digit (n % 10) ∷ []

abbrev pub sz_datetime_hms : ℕ
sz_datetime_hms = 19

-- What `snprintf` is to print.
unfoldable pub datm_text : Bool → Tm → Bytes
datm_text is_filename tm =
    let gap = if is_filename then b'_' else b' ' in
    let colon = if is_filename then [] else b':' ∷ [] in
    four_digits (tm.tm_year + 1900)
    ++ (b'-'
        ∷ (two_digits (tm.tm_mon + 1)
            ++ (b'-'
                ∷ (two_digits tm.tm_mday
                    ++ (gap
                        ∷ (two_digits tm.tm_hour
                            ++ (colon
                                ++ (two_digits tm.tm_min ++ (colon ++ two_digits tm.tm_sec)))))))))

-- `datmNowHms`, which `DatmNowHms` and `DatmNowHmsFilename` call.
unfoldable pub datm_now_hms : Bool → Tm → Cyclic → Outcome (ℕ × Cyclic)
datm_now_hms is_filename tm c = fmt_str (some (take sz_datetime_hms (datm_text is_filename tm))) c

-- The loop of `DatmHmsParse` at the separators that are left: the fields that it sets, in order. A
-- missing separator writes through NULL, and a seventh field lies outside the array.
parse_loop : List ℕ → Bytes → Outcome (List ℤ)
parse_loop seps [] = ok []
parse_loop [] (b ∷ s) = fault
parse_loop (zero ∷ seps) (b ∷ s) = ok (atoi (b ∷ s) ∷ [])
parse_loop (suc sep ∷ seps) (b ∷ s) = elim (split_at (suc sep) (b ∷ s)) [
  | none ↦ fault
  | some (field, rest) ↦ parse_loop seps rest >>= λ fields. ok (atoi field ∷ fields)
]

unfoldable pub datm_hms_parse : Bytes → Outcome (List ℤ)
unfolding parse_loop
datm_hms_parse in_date =
    parse_loop (b'-' ∷ b'-' ∷ b' ' ∷ b':' ∷ b':' ∷ 0 ∷ []) (take sz_datetime_hms in_date)

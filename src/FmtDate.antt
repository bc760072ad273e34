-- ===== src/FmtDate.antt =====
-- master/src/utils/fmtdate.c: a date as a text with the name of its month.
pub mod Shown
mod Tests
use google_test_c_programs.Base.{
  ℕ, zero, suc, Option, none, some, List, [], ◌∷◌, ◌++◌, take, get_elem?,
}
use google_test_c_programs.Base.Int.{ℤ, pos, negsuc}
use google_test_c_programs.Base.Outcome.{Outcome, ok, fault, deref, ◌>>=◌}
use google_test_c_programs.Base.CString.{Bytes, codes}
use google_test_c_programs.CyclicStr.{Cyclic, cyclic_str_add}
use google_test_c_programs.Datm.{datm_hms_parse}
use google_test_c_programs.FmtAmt.{magnitude, sign_of, decimal}

-- The short names in `mthArray`.
abbrev pub mth_array : List Bytes
mth_array =
    codes "Jan"
    ∷ codes "Feb"
    ∷ codes "Mar"
    ∷ codes "Apr"
    ∷ codes "May"
    ∷ codes "Jun"
    ∷ codes "Jul"
    ∷ codes "Aug"
    ∷ codes "Sep"
    ∷ codes "Oct"
    ∷ codes "Nov"
    ∷ codes "Dec"
    ∷ []

-- `mthArray[datm.tm_mon - 1].shortDesc`; an index outside the array is none.
unfoldable pub mth_name : ℤ → Option Bytes
mth_name (negsuc n) = none
mth_name (pos zero) = none
mth_name (pos (suc n)) = get_elem? mth_array n

-- `%d`
abbrev pub int_text : ℤ → Bytes
int_text n = sign_of n ++ decimal (magnitude n)

-- What `snprintf` leaves in ten bytes; a field that `DatmHmsParse` did not set is read as it is.
unfoldable pub date_text : List ℤ → Outcome Bytes
date_text (year ∷ mon ∷ mday ∷ rest) =
    deref (mth_name mon) >>= λ name. ok (take 9 (int_text mday ++ (name ++ int_text year)))
date_text (year ∷ mon ∷ []) = fault
date_text (year ∷ []) = fault
date_text [] = fault

unfoldable pub fmt_date_dd_mon_yyyy : Bytes → Cyclic → Outcome (ℕ × Cyclic)
fmt_date_dd_mon_yyyy in_date c =
    datm_hms_parse in_date >>= λ fields. date_text fields >>= λ s. cyclic_str_add s c

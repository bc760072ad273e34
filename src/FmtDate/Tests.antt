-- ===== src/FmtDate/Tests.antt =====
-- A date as a text.
use google_test_c_programs.Base.{◌≡◌, refl, false, some, ◌++◌, arith, get_elem?, replicate, none}
use google_test_c_programs.Base.CString.{Bytes, codes}
use google_test_c_programs.CyclicStr.{Cyclic, sz_cyclic_str, cyclic_str_add}
use google_test_c_programs.Datm.{Tm, datm_text}
use google_test_c_programs.FmtAmt.{digits_of, decimal}
use google_test_c_programs.FmtDate.{mth_array, fmt_date_dd_mon_yyyy}
use google_test_c_programs.FmtDate.Shown.{fmt_date-datm_text}

abbrev ring : Cyclic
ring = record { cyclic_str = replicate sz_cyclic_str 0; cyclic_ptr = none }

abbrev leap_day : Tm
leap_day = record { tm_year = 124; tm_mon = 1; tm_mday = 29; tm_hour = 8; tm_min = 5; tm_sec = 0 }

shown : decimal 29 ++ (codes "Feb" ++ decimal 2024) ≡ codes "29Feb2024"
unfolding digits_of
shown = refl

fmt_date-datm_text_example :
    (name : Bytes) × (get_elem? mth_array 1 ≡ some name)
    × (fmt_date_dd_mon_yyyy (datm_text false leap_day) ring
        ≡ cyclic_str_add (decimal 29 ++ (name ++ decimal 2024)) ring)
fmt_date-datm_text_example =
    fmt_date-datm_text leap_day ring (omega arith) (omega arith) (omega arith) (omega arith)
      (omega arith) (omega arith)

-- ===== src/Datm/Tests.antt =====
-- A time printed and parsed.
use google_test_c_programs.Base.{◌≡◌, refl, true, false, [], ◌∷◌, arith}
use google_test_c_programs.Base.Int.{pos}
use google_test_c_programs.Base.Outcome.{ok}
use google_test_c_programs.Base.CString.{codes}
use google_test_c_programs.Datm.{Tm, datm_text, datm_hms_parse}
use google_test_c_programs.Datm.Parse.{datm_hms_parse-datm_text}

abbrev noon : Tm
noon = record { tm_year = 123; tm_mon = 4; tm_mday = 7; tm_hour = 12; tm_min = 5; tm_sec = 9 }

printed : datm_text false noon ≡ codes "2023-05-07 12:05:09"
unfolding datm_text
printed = refl

file_name : datm_text true noon ≡ codes "2023-05-07_120509"
unfolding datm_text
file_name = refl

datm_hms_parse-datm_text_example :
    datm_hms_parse (codes "2023-05-07 12:05:09")
    ≡ ok (pos 2023 ∷ pos 5 ∷ pos 7 ∷ pos 12 ∷ pos 5 ∷ pos 9 ∷ [])
unfolding datm_text
datm_hms_parse-datm_text_example =
    datm_hms_parse-datm_text noon (omega arith) (omega arith) (omega arith) (omega arith)
      (omega arith) (omega arith)

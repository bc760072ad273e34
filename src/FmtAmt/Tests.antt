-- ===== src/FmtAmt/Tests.antt =====
-- Amounts as texts.
use google_test_c_programs.Base.{◌<◌, ◌≤◌, ◌≡◌, refl, ◌∷◌, ◌++◌, arith, length}
use google_test_c_programs.Base.Int.{pos, negsuc}
use google_test_c_programs.Base.Outcome.{ok, fault}
use google_test_c_programs.Base.CString.{Bytes, codes}
use google_test_c_programs.FmtAmt.{digits_of, fmt_amt_text}
use google_test_c_programs.FmtAmt.Digits.{value_from, fmt_amt_text-value}

five_cents : fmt_amt_text (negsuc 4) (pos 2) ≡ ok (codes "-0.05")
unfolding fmt_amt_text digits_of
five_cents = refl

whole_amount : fmt_amt_text (pos 1250) (pos 0) ≡ ok (codes "1250")
unfolding fmt_amt_text digits_of
whole_amount = refl

fmt_amt_text-value_example :
    (1 < 27
      → (whole frac : Bytes) × (fmt_amt_text (pos 1250) (pos 2) ≡ ok (whole ++ (b'.' ∷ frac)))
        × (length frac ≡ 2)
        × (0 < length whole)
        × (value_from 0 (whole ++ frac) ≡ 1250))
    × (30 ≤ 1 → fmt_amt_text (pos 1250) (pos 2) ≡ fault)
fmt_amt_text-value_example = fmt_amt_text-value (pos 1250) 1 (omega arith)

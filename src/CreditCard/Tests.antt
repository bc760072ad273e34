-- ===== src/CreditCard/Tests.antt =====
-- Card numbers: runs, and the theorems at concrete numbers.
use google_test_c_programs.Base.{◌%◌, ◌≡◌, refl, inl, true, false, [], reverse, arith, ◌==◌}
use google_test_c_programs.Base.Int.{◌+ℤ◌}
use google_test_c_programs.Base.Outcome.{ok}
use google_test_c_programs.Base.CString.{Bytes, codes}
use google_test_c_programs.StrUtils.{is_valid_str_len_min_max}
use google_test_c_programs.CreditCard.{
  digit_of, doubled, is_valid_credit_card_check_sum, is_valid_credit_card_no,
}
use google_test_c_programs.CreditCard.Luhn.{luhn_sum, is_valid_credit_card_check_sum-luhn_sum}
use google_test_c_programs.CreditCard.Detects.{check_sum_one_digit, check_sum_swap}

-- The number in the comment of ccchecksum.c.
sample_card : is_valid_credit_card_no (codes "4417123456789113") ≡ ok true
unfolding is_valid_credit_card_no is_valid_credit_card_check_sum is_valid_str_len_min_max ◌+ℤ◌
    digit_of doubled
sample_card = refl

short_card : is_valid_credit_card_no (codes "0") ≡ ok false
unfolding is_valid_credit_card_no is_valid_str_len_min_max
short_card = refl

-- A letter is not refused: `A` counts as 17.
letters_accepted : is_valid_credit_card_check_sum (codes "A3") ≡ ok false
unfolding is_valid_credit_card_check_sum ◌+ℤ◌ digit_of doubled
letters_accepted = refl

is_valid_credit_card_check_sum-luhn_sum_example :
    is_valid_credit_card_check_sum (reverse (codes "81"))
    ≡ ok (luhn_sum false (codes "81") % 10 == 0)
is_valid_credit_card_check_sum-luhn_sum_example =
    is_valid_credit_card_check_sum-luhn_sum (codes "1") b'8' (omega arith)

abbrev card : Bytes
card = codes "3119876543217144"

eighteen : is_valid_credit_card_check_sum (reverse (codes "81")) ≡ ok true
unfolding is_valid_credit_card_check_sum ◌+ℤ◌ digit_of doubled
eighteen = refl

check_sum_one_digit_example : is_valid_credit_card_check_sum (reverse (codes "82")) ≡ ok false
check_sum_one_digit_example =
    check_sum_one_digit (codes "8") b'1' b'2' [] (omega arith) (omega arith) (omega arith) eighteen

check_sum_swap_example :
    (is_valid_credit_card_check_sum (reverse (codes "18")) ≡ ok true
      → is_valid_credit_card_check_sum (reverse (codes "81")) ≡ ok false)
    × (is_valid_credit_card_check_sum (reverse (codes "81")) ≡ ok true
        → is_valid_credit_card_check_sum (reverse (codes "18")) ≡ ok false)
check_sum_swap_example =
    check_sum_swap [] b'1' b'8' [] (omega arith) (omega arith) (inl (omega arith))

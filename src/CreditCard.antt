-- ===== src/CreditCard.antt =====
-- master/src/library/ccchecksum.c and master/src/library/ccrtns.c: credit card numbers.
pub mod Luhn
pub mod Detects
mod Tests
use google_test_c_programs.Base.{
  ℕ, zero, suc, ◌+◌, ◌-◌, ◌*◌, ◌%◌, Bool, true, false, not, ltb, ◌==◌, if◌then◌else◌, length,
  get_elem?,
}
use google_test_c_programs.Base.Int.{ℤ, pos, negsuc, ◌+ℤ◌, ◌-ℤ◌, ltb_ℤ, abs}
use google_test_c_programs.Base.Outcome.{Outcome, ok, fault, ◌>>=◌, deref}
use google_test_c_programs.Base.CString.{Bytes}
use google_test_c_programs.StrUtils.{is_valid_str_len_min_max}

-- A `char`, which is signed, as an `int`.
unfoldable pub char_to_int : ℕ → ℤ
char_to_int b = if ltb b 128 then pos b else negsuc (255 - b)

-- `ccNo[i] - '0'`
unfoldable pub digit_of : ℕ → ℤ
unfolding char_to_int ◌-ℤ◌
digit_of b = char_to_int b -ℤ pos b'0'

-- `value *= 2; if (value > 9) value -= 9;`
unfoldable pub doubled : ℤ → ℤ
unfolding ◌+ℤ◌ ◌-ℤ◌
doubled v = let twice = v +ℤ v in if ltb_ℤ (pos 9) twice then twice -ℤ pos 9 else twice

-- `for (i = ccLen - 2; i >= 0; i--)`; the first argument is i + 1.
sum_loop : ℕ → Bytes → Bool → ℤ → Outcome ℤ
sum_loop zero cc_no dbl sum = ok sum
sum_loop (suc i) cc_no dbl sum = do
  c ← deref (get_elem? cc_no i)
  sum_loop i cc_no (not dbl) (sum +ℤ (if dbl then doubled (digit_of c) else digit_of c))

-- In an empty string the last character lies outside the array.
unfoldable pub is_valid_credit_card_check_sum : Bytes → Outcome Bool
unfolding sum_loop
is_valid_credit_card_check_sum cc_no = do
  last ← deref (get_elem? cc_no (length cc_no - 1))
  sum ← sum_loop (length cc_no - 1) cc_no true (digit_of last)
  ok (abs sum % 10 == 0)

abbrev pub sz_cc_no_min_len : ℕ
sz_cc_no_min_len = 13

abbrev pub sz_cc_no_max_len : ℕ
sz_cc_no_max_len = 19

unfoldable pub is_valid_credit_card_no : Bytes → Outcome Bool
is_valid_credit_card_no cc_no = do
  in_range ← is_valid_str_len_min_max cc_no (pos sz_cc_no_min_len) (pos sz_cc_no_max_len)
  if in_range then is_valid_credit_card_check_sum cc_no else ok false

-- ===== src/StrUtils/Tests.antt =====
-- Runs of the string routines on concrete inputs, and the theorems at concrete inputs.
use google_test_c_programs.Base.{◌≡◌, refl, arith, true}
use google_test_c_programs.Base.Int.{pos, negsuc}
use google_test_c_programs.Base.Outcome.{ok, exited, ◌>>=◌}
use google_test_c_programs.Base.CString.{Bytes, codes, strchr}
use google_test_c_programs.ErrCodes.{ErrCode}
use google_test_c_programs.StrUtils.{
  is_valid_str_len_min_max, email_address_user_hide, short_to_buf, buf_to_str, str_to_buf, memset,
}
use google_test_c_programs.StrUtils.Buffers.{buf_to_str-str_to_buf}

hide_email : email_address_user_hide (codes "john@x.com") ≡ ok (codes "j***@x.com")
unfolding email_address_user_hide memset strchr
hide_email = refl

length_limits :
    is_valid_str_len_min_max (codes "abc") (pos 3) (pos 2) ≡ exited ErrCode.length_invalid
unfolding is_valid_str_len_min_max
length_limits = refl

length_in_range : is_valid_str_len_min_max (codes "abc") (pos 1) (pos 3) ≡ ok true
unfolding is_valid_str_len_min_max
length_in_range = refl

negative_short : short_to_buf (negsuc 1) ≡ (255, 254)
unfolding short_to_buf
negative_short = refl

abbrev padded : Bytes
padded = codes "ab  "

buf_to_str-str_to_buf_example :
    (str_to_buf (codes "a b") (pos 5) >>= λ r. buf_to_str (r.1) (pos 5)) ≡ ok (3, codes "a b")
buf_to_str-str_to_buf_example =
    buf_to_str-str_to_buf (codes "a b") 4 (omega arith) (omega arith) (omega arith)

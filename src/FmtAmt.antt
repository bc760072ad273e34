-- ===== src/FmtAmt.antt =====
-- master/src/utils/fmtamt.c: an amount as a text, with a decimal point in front of the last places. Amounts
-- are 64 bits wide, so that their digits are at most 19.
pub mod Digits
mod Tests
use google_test_c_programs.Base.{
  ℕ, zero, suc, ◌+◌, ◌-◌, ◌/◌, ◌%◌, Bool, true, false, List, [], ◌∷◌, ◌++◌, ltb, if◌then◌else◌,
  length, take, drop, replicate,
}
use google_test_c_programs.Base.Int.{ℤ, pos, negsuc}
use google_test_c_programs.Base.Outcome.{Outcome, ok, fault, ◌>>=◌}
use google_test_c_programs.Base.CString.{Bytes}
use google_test_c_programs.CyclicStr.{Cyclic, cyclic_str_add}
use google_test_c_programs.Datm.{digit}

abbrev pub sz_amt_str : ℕ
sz_amt_str = 32

-- `llabs`
abbrev pub magnitude : ℤ → ℕ
magnitude (pos n) = n
magnitude (negsuc n) = n + 1

abbrev pub sign_of : ℤ → Bytes
sign_of (pos n) = []
sign_of (negsuc n) = b'-' ∷ []

-- `%lld`, for numbers of at most `fuel` digits.
unfoldable pub digits_of : ℕ → ℕ → Bytes
digits_of zero n = []
digits_of (suc fuel) n =
    let front = digits_of fuel (n / 10) in
    if ltb n 10 then digit n ∷ [] else front ++ digit (n % 10) ∷ []

abbrev pub decimal : ℕ → Bytes
decimal n = digits_of 20 n

-- `%.*lld` with at least `places` + 1 digits.
abbrev pub padded_to : ℕ → Bytes → Bytes
padded_to places s = replicate (places + 1 - length s) b'0' ++ s

abbrev pub with_point : ℕ → Bytes → Bytes
with_point places t = take (length t - places) t ++ b'.' ∷ drop (length t - places) t

-- The text that `FmtAmt` puts into its array of `SZ_AMT_STR` bytes.
unfoldable pub fmt_amt_text : ℤ → ℤ → Outcome Bytes
fmt_amt_text amt (negsuc places) = ok (sign_of amt ++ decimal (magnitude amt))
fmt_amt_text amt (pos zero) = ok (sign_of amt ++ decimal (magnitude amt))
fmt_amt_text amt (pos (suc k)) =
    let t = padded_to (suc k) (decimal (magnitude amt)) in
    if ltb sz_amt_str (length (sign_of amt) + length t + 2)
    then fault
    else ok (sign_of amt ++ with_point (suc k) t)

unfoldable pub fmt_amt : ℤ → ℤ → Cyclic → Outcome (ℕ × Cyclic)
fmt_amt amt places c = fmt_amt_text amt places >>= λ s. cyclic_str_add s c

-- ===== src/Backend/Verdict.antt =====
-- What the bank server says of a credit card number.
use mathlib.Core.Path.{subst}
use google_test_c_programs.Base.{
  ℕ, ◌-◌, ◌%◌, ◌≤◌, ◌≡◌, ◌∙◌, ap, sym, false, ◌&&◌, [], ◌∷◌, ◌++◌, reverse, reverse-append,
  length-reverse, arith, leb, ◌==◌, if◌then◌else◌, length, length-append, take, drop, replicate,
  length-replicate, append_assoc, All, All-append,
}
use google_test_c_programs.Base.Int.{pos}
use google_test_c_programs.Base.Outcome.{ok}
use google_test_c_programs.Base.CString.{Bytes, codes, Lacks}
use google_test_c_programs.StrUtils.{buf_to_str}
use google_test_c_programs.StrUtils.Buffers.{EndsInk, str_to_buf_lem, buf_to_str-str_to_buf}
use google_test_c_programs.CreditCard.Luhn.{IsDigit, luhn_sum, is_valid_credit_card_no_lem}
use google_test_c_programs.Server.Transaction.{take_of, drop_of}
use google_test_c_programs.Backend.Requests.{responds, bank_answer}

-- A card number as it stands in a message: with spaces behind it up to 19 bytes.
abbrev pub padded : Bytes → Bytes
padded cc = cc ++ replicate (19 - length cc) b' '

-- The status for a number of digits given from the last one on.
abbrev pub verdict : Bytes → Bytes
verdict s =
    if (leb 13 (length s) && leb (length s) 19) && (luhn_sum false s % 10 == 0)
    then codes "00"
    else codes "02"

All-reverse {κ} : (P : ℕ → Type κ) (s : Bytes) → All P s → All P (reverse s)
All-reverse P [] h = tt
All-reverse P (x ∷ s) h =
    subst (All P) (sym (reverse-append (x ∷ []) s))
      (All-append P (reverse s) (x ∷ []) (All-reverse P s h.1) (h.0, tt))

digits-EndsInk : (s : Bytes) → All IsDigit s → EndsInk s
digits-EndsInk [] h = tt
digits-EndsInk (c ∷ []) h = λ e. let d = h.0 in omega arith
digits-EndsInk (c ∷ d ∷ s) h = digits-EndsInk (d ∷ s) h.1

digits-Lacks : (s : Bytes) → All IsDigit s → Lacks 0 s
digits-Lacks [] h = tt
digits-Lacks (c ∷ s) h = ((λ e. let d = h.0 in omega arith), digits-Lacks s h.1)

pub length-padded : (cc : Bytes) → length cc ≤ 19 → length (padded cc) ≡ 19
length-padded cc h = omega (
  arith,
  length-append cc (replicate (19 - length cc) b' '),
  length-replicate {A = ℕ} (19 - length cc) b' ',
)

padded_back :
    (cc : Bytes)
    → All IsDigit cc
    → length cc ≤ 19
    → buf_to_str (padded cc) (pos 19) ≡ ok (length cc, cc)
padded_back cc h fits =
    let back = buf_to_str-str_to_buf cc 18 (digits-Lacks cc h) (digits-EndsInk cc h) fits in
    rw ((str_to_buf_lem cc 18).0 fits) at back

module _ (audit s st : Bytes) (l : length audit ≡ 6) (digits : All IsDigit s)
    (fits : length s ≤ 19) where
  abbrev number : Bytes
  number = reverse s

  fits' : length number ≤ 19
  fits' = let e = length-reverse s in omega arith

  number_in : take 19 (drop 6 (audit ++ (padded number ++ st))) ≡ padded number
  number_in =
      ap (take 19) (drop_of 6 audit (padded number ++ st) l)
      ∙ take_of 19 (padded number) st (length-padded number fits')

  front : take 25 (audit ++ (padded number ++ st)) ≡ audit ++ padded number
  front =
      let n : length (audit ++ padded number) ≡ 25 =
        let p = length-padded number fits' in omega (arith, length-append audit (padded number)) in
      ap (take 25) (sym (append_assoc audit (padded number) st))
      ∙ take_of 25 (audit ++ padded number) st n

  -- A message with an audit number, a card number of up to 19 digits with spaces behind it, and any
  -- status comes back from the bank server with the same audit number and card number, and with the status
  -- `00` if the number has 13 digits or more and its Luhn sum is divisible by 10, else with `02`.
  pub bank_answer-verdict :
      bank_answer (audit ++ (padded number ++ st)) (pos 27)
      ≡ ok (responds (audit ++ (padded number ++ verdict s)))
  unfolding bank_answer
  bank_answer-verdict =
      let said = padded_back number (All-reverse IsDigit s digits) fits' in
      let valid = is_valid_credit_card_no_lem s digits in
      rw (number_in, said, valid, front)
        (ap (λ z. ok (responds z)) (append_assoc audit (padded number) (verdict s)))

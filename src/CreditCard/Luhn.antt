-- ===== src/CreditCard/Luhn.antt =====
-- The check sum against its definition, and the whole test of a card number.
use google_test_c_programs.Base.{
  ℕ, suc, ◌+◌, ◌-◌, ◌*◌, ◌/◌, ◌%◌, ◌<◌, ◌≤◌, ◌≡◌, refl, ◌∙◌, ap, sym, Bool, true, false, not, ◌&&◌,
  some, [], ◌∷◌, ◌++◌, reverse, reverse-append, append_assoc, arith, ltb, leb, ◌==◌, if◌then◌else◌,
  length, length-reverse, length-append, get_elem?, All,
}
use google_test_c_programs.Base.Int.{ℤ, pos, ◌+ℤ◌}
use google_test_c_programs.Base.Outcome.{ok}
use google_test_c_programs.Base.CString.{Bytes}
use google_test_c_programs.StrUtils.{is_valid_str_len_min_max}
use google_test_c_programs.CreditCard.{
  digit_of, doubled, sum_loop, is_valid_credit_card_check_sum, is_valid_credit_card_no,
}

abbrev pub IsDigit : ℕ → Type 0
IsDigit c = (b'0' ≤ c) × (c ≤ b'9')

-- The contribution of a digit: itself, or its double with the digits of the double added up.
abbrev pub weight : Bool → ℕ → ℕ
weight dbl c =
    let d = c - b'0' in if dbl then (if ltb d 5 then d * 2 else d * 2 / 10 + d * 2 % 10) else d

-- The Luhn sum of digits listed from the right: every second one is doubled.
unfoldable pub luhn_sum : Bool → Bytes → ℕ
luhn_sum dbl [] = 0
luhn_sum dbl (c ∷ cs) = weight dbl c + luhn_sum (not dbl) cs

digit_of_digit : (c : ℕ) → IsDigit c → digit_of c ≡ pos (c - b'0')
unfolding digit_of
digit_of_digit c h = ground arith

doubled_digit :
    (d : ℕ) → d < 10 → doubled (pos d) ≡ pos (if ltb d 5 then d * 2 else d * 2 / 10 + d * 2 % 10)
unfolding doubled
doubled_digit d h = ground arith

+ℤ-pos : (a b : ℕ) → pos a +ℤ pos b ≡ pos (a + b)
unfolding ◌+ℤ◌
+ℤ-pos a b = ground arith

digit_weight :
    (c n : ℕ) (dbl : Bool)
    → IsDigit c
    → pos n +ℤ (if dbl then doubled (digit_of c) else digit_of c) ≡ pos (n + weight dbl c)
digit_weight c n true h =
    rw (digit_of_digit c h, doubled_digit (c - b'0') (omega arith)) (+ℤ-pos n (weight true c))
digit_weight c n false h = rw (digit_of_digit c h) (+ℤ-pos n (weight false c))

get_elem?_behind : (r ys : Bytes) (c : ℕ) → get_elem? (r ++ c ∷ ys) (length r) ≡ some c
get_elem?_behind [] ys c = refl
get_elem?_behind (x ∷ r) ys c = get_elem?_behind r ys c

reverse_front : (r ys : Bytes) (c : ℕ) → reverse (c ∷ r) ++ ys ≡ reverse r ++ c ∷ ys
reverse_front r ys c = rw (reverse-append (c ∷ []) r, append_assoc)

get_elem?-reverse : (r ys : Bytes) (c : ℕ) → get_elem? (reverse r ++ c ∷ ys) (length r) ≡ some c
get_elem?-reverse r ys c =
    ap (get_elem? (reverse r ++ c ∷ ys)) (sym (length-reverse r))
    ∙ get_elem?_behind (reverse r) ys c

sum_loop_step :
    (i : ℕ) (cc_no : Bytes) (dbl : Bool) (sum : ℤ) (c : ℕ)
    → get_elem? cc_no i ≡ some c
    → sum_loop (suc i) cc_no dbl sum
      ≡ sum_loop i cc_no (not dbl) (sum +ℤ (if dbl then doubled (digit_of c) else digit_of c))
unfolding sum_loop
sum_loop_step i cc_no dbl sum c e = rw e

-- The loop over the digits in front of `ys`, from the right.
sum_loop-luhn_sum :
    (r ys : Bytes) (dbl : Bool) (n : ℕ)
    → All IsDigit r
    → sum_loop (length r) (reverse r ++ ys) dbl (pos n) ≡ ok (pos (n + luhn_sum dbl r))
unfolding sum_loop luhn_sum
sum_loop-luhn_sum [] ys dbl n h = let e : n + 0 ≡ n = omega arith in rw e
sum_loop-luhn_sum (c ∷ r) ys dbl n (hc, hr) =
    let e : n + weight dbl c + luhn_sum (not dbl) r ≡ n + (weight dbl c + luhn_sum (not dbl) r) =
      omega arith in
    ap (λ a. sum_loop (suc (length r)) a dbl (pos n)) (reverse_front r ys c)
    ∙ sum_loop_step (length r) (reverse r ++ c ∷ ys) dbl (pos n) c (get_elem?-reverse r ys c)
    ∙ ap (sum_loop (length r) (reverse r ++ c ∷ ys) (not dbl)) (digit_weight c n dbl hc)
    ∙ sum_loop-luhn_sum r (c ∷ ys) (not dbl) (n + weight dbl c) hr
    ∙ ap (λ k. ok (pos k)) e

-- For a string of digits that is not empty the check sum is valid exactly if the Luhn sum from the
-- right is divisible by ten.
pub is_valid_credit_card_check_sum-luhn_sum :
    (s : Bytes) (c : ℕ)
    → All IsDigit (c ∷ s)
    → is_valid_credit_card_check_sum (reverse (c ∷ s)) ≡ ok (luhn_sum false (c ∷ s) % 10 == 0)
unfolding is_valid_credit_card_check_sum luhn_sum
is_valid_credit_card_check_sum-luhn_sum s c (hc, hs) =
    let last : length (reverse s ++ c ∷ []) - 1 ≡ length s =
      omega (arith, length-append (reverse s) (c ∷ []), length-reverse s) in
    let sum : sum_loop (length s) (reverse s ++ c ∷ []) true (pos (c - b'0'))
        ≡ ok (pos (c - b'0' + luhn_sum true s)) =
      sum_loop-luhn_sum s (c ∷ []) true (c - b'0') hs in
    let e : c - b'0' + luhn_sum true s + 0 ≡ c - b'0' + luhn_sum true s = omega arith in
    ap is_valid_credit_card_check_sum (reverse-append (c ∷ []) s)
    ∙ rw (last, get_elem?-reverse s [] c, digit_of_digit c hc, sum, e)

-- The length test of `IsValidCreditCardNo`, which neither exits nor faults.
length_test :
    (s : Bytes)
    → is_valid_str_len_min_max s (pos 13) (pos 19) ≡ ok (leb 13 (length s) && leb (length s) 19)
unfolding is_valid_str_len_min_max
length_test s = ground arith

-- A string of digits, listed from the right, is a valid card number exactly if it has 13 to 19 digits
-- and its Luhn sum is divisible by ten; no string of digits makes the test exit or fault.
pub is_valid_credit_card_no_lem :
    (s : Bytes)
    → All IsDigit s
    → is_valid_credit_card_no (reverse s)
      ≡ ok ((leb 13 (length s) && leb (length s) 19) && (luhn_sum false s % 10 == 0))
unfolding is_valid_credit_card_no
is_valid_credit_card_no_lem s h = rw (length_test, length-reverse s) (by_length s h)
  where
    by_length :
        (s : Bytes)
        → All IsDigit s
        → (if leb 13 (length s) && leb (length s) 19
            then is_valid_credit_card_check_sum (reverse s)
            else ok false)
          ≡ ok ((leb 13 (length s) && leb (length s) 19) && (luhn_sum false s % 10 == 0))
    by_length [] h = refl
    by_length (c ∷ s) h = rw (is_valid_credit_card_check_sum-luhn_sum s c h) (ground arith)

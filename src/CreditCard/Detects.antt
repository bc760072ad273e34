-- ===== src/CreditCard/Detects.antt =====
-- What the check sum detects.
use google_test_c_programs.Base.{
  ℕ, ◌+◌, ◌%◌, ◌<◌, ◌≡◌, ◌≢◌, refl, ◌∙◌, ap, sym, Bool, true, false, not, [], ◌∷◌, ◌++◌, reverse,
  arith, ◌==◌, ==_iff, length, All, ◌⊎◌,
}
use google_test_c_programs.Base.Outcome.{ok, ok-injective}
use google_test_c_programs.Base.CString.{Bytes}
use google_test_c_programs.CreditCard.{is_valid_credit_card_check_sum}
use google_test_c_programs.CreditCard.Luhn.{
  IsDigit, weight, luhn_sum, is_valid_credit_card_check_sum-luhn_sum,
}

-- Two different digits contribute differently modulo ten.
weight_ne :
    (dbl : Bool) (a b m : ℕ)
    → IsDigit a
    → IsDigit b
    → a ≢ b
    → (weight dbl a + m) % 10 ≡ 0
    → (weight dbl b + m) % 10 ≢ 0
weight_ne true a b m ha hb ne = ground arith
weight_ne false a b m ha hb ne = ground arith

luhn_sum_one :
    (dbl : Bool) (xs : Bytes) (a b : ℕ) (ys : Bytes) (m : ℕ)
    → IsDigit a
    → IsDigit b
    → a ≢ b
    → (luhn_sum dbl (xs ++ a ∷ ys) + m) % 10 ≡ 0
    → (luhn_sum dbl (xs ++ b ∷ ys) + m) % 10 ≢ 0
unfolding luhn_sum
luhn_sum_one dbl [] a b ys m ha hb ne h =
    λ k. weight_ne dbl a b (luhn_sum (not dbl) ys + m) ha hb ne (omega arith) (omega arith)
luhn_sum_one dbl (x ∷ xs) a b ys m ha hb ne h =
    λ k. luhn_sum_one (not dbl) xs a b ys (weight dbl x + m) ha hb ne (omega arith) (omega arith)

-- Two neighbours contribute differently when swapped, unless they are 0 and 9.
weight_swap :
    (dbl : Bool) (a b m : ℕ)
    → IsDigit a
    → IsDigit b
    → a < b
    → (a ≢ b'0') ⊎ (b ≢ b'9')
    → (weight dbl a + weight (not dbl) b + m) % 10 ≢ (weight dbl b + weight (not dbl) a + m) % 10
weight_swap true a b m ha hb lt other = ground arith
weight_swap false a b m ha hb lt other = ground arith

luhn_sum_swap :
    (dbl : Bool) (xs : Bytes) (a b : ℕ) (ys : Bytes) (m : ℕ)
    → IsDigit a
    → IsDigit b
    → a < b
    → (a ≢ b'0') ⊎ (b ≢ b'9')
    → (luhn_sum dbl (xs ++ a ∷ b ∷ ys) + m) % 10 ≢ (luhn_sum dbl (xs ++ b ∷ a ∷ ys) + m) % 10
unfolding luhn_sum
luhn_sum_swap true [] a b ys m ha hb lt other =
    λ k. weight_swap true a b (luhn_sum true ys + m) ha hb lt other (omega arith)
luhn_sum_swap false [] a b ys m ha hb lt other =
    λ k. weight_swap false a b (luhn_sum false ys + m) ha hb lt other (omega arith)
luhn_sum_swap dbl (x ∷ xs) a b ys m ha hb lt other =
    λ k. luhn_sum_swap (not dbl) xs a b ys (weight dbl x + m) ha hb lt other (omega arith)

-- The verdict on a string of digits, listed from the right.
verdict :
    (s : Bytes)
    → All IsDigit s
    → length s ≢ 0
    → is_valid_credit_card_check_sum (reverse s) ≡ ok ((luhn_sum false s + 0) % 10 == 0)
verdict [] h ne = absurd (ne refl)
verdict (c ∷ s) h ne =
    is_valid_credit_card_check_sum-luhn_sum s c h ∙ ap (λ k. ok (k % 10 == 0)) (omega arith)

digits_with :
    (xs : Bytes) (b : ℕ) (ys : Bytes) (a : ℕ)
    → IsDigit b
    → All IsDigit (xs ++ a ∷ ys)
    → All IsDigit (xs ++ b ∷ ys)
digits_with [] b ys a hb h = (hb, h.1)
digits_with (x ∷ xs) b ys a hb h = (h.0, digits_with xs b ys a hb h.1)

IsDigit-at :
    (xs : Bytes) (a : ℕ) (ys : Bytes) → All IsDigit (xs ++ a ∷ ys) → IsDigit a × All IsDigit ys
IsDigit-at [] a ys h = h
IsDigit-at (x ∷ xs) a ys h = IsDigit-at xs a ys h.1

not_empty : (xs : Bytes) (a : ℕ) (ys : Bytes) → length (xs ++ a ∷ ys) ≢ 0
not_empty [] a ys = omega arith
not_empty (x ∷ xs) a ys = omega arith

valid_iff :
    (s : Bytes)
    → All IsDigit s
    → length s ≢ 0
    → is_valid_credit_card_check_sum (reverse s) ≡ ok true
    → (luhn_sum false s + 0) % 10 ≡ 0
valid_iff s h ne v = (==_iff _ 0).0 (ok-injective (sym (verdict s h ne) ∙ v))

ne_test : (n : ℕ) → n ≢ 0 → (n == 0) ≡ false
ne_test n h = ground arith

swap_digits :
    (xs : Bytes) (a b : ℕ) (ys : Bytes)
    → All IsDigit (xs ++ a ∷ b ∷ ys)
    → All IsDigit (xs ++ b ∷ a ∷ ys)
swap_digits [] a b ys h = (h.1.0, (h.0, h.1.1))
swap_digits (x ∷ xs) a b ys h = (h.0, swap_digits xs a b ys h.1)

-- Changing one digit of a card number with a valid check sum, at any place, makes the check sum
-- invalid.
pub check_sum_one_digit :
    (xs : Bytes) (a b : ℕ) (ys : Bytes)
    → All IsDigit (xs ++ a ∷ ys)
    → IsDigit b
    → a ≢ b
    → is_valid_credit_card_check_sum (reverse (xs ++ a ∷ ys)) ≡ ok true
    → is_valid_credit_card_check_sum (reverse (xs ++ b ∷ ys)) ≡ ok false
check_sum_one_digit xs a b ys h hb ne v =
    let h' = digits_with xs b ys a hb h in
    verdict (xs ++ b ∷ ys) h' (not_empty xs b ys)
    ∙ ap ok (
        ne_test _ (
          luhn_sum_one false xs a b ys 0 (IsDigit-at xs a ys h).0 hb ne
            (valid_iff (xs ++ a ∷ ys) h (not_empty xs a ys) v)))

-- Swapping two different neighbouring digits, other than 0 and 9, makes a valid check sum invalid,
-- whichever of them stands first.
pub check_sum_swap :
    (xs : Bytes) (a b : ℕ) (ys : Bytes)
    → All IsDigit (xs ++ a ∷ b ∷ ys)
    → a < b
    → (a ≢ b'0') ⊎ (b ≢ b'9')
    → (is_valid_credit_card_check_sum (reverse (xs ++ a ∷ b ∷ ys)) ≡ ok true
        → is_valid_credit_card_check_sum (reverse (xs ++ b ∷ a ∷ ys)) ≡ ok false)
      × (is_valid_credit_card_check_sum (reverse (xs ++ b ∷ a ∷ ys)) ≡ ok true
          → is_valid_credit_card_check_sum (reverse (xs ++ a ∷ b ∷ ys)) ≡ ok false)
check_sum_swap xs a b ys h lt other =
    let (ha, hbs) = IsDigit-at xs a (b ∷ ys) h in
    let hb = hbs.0 in
    let h' = swap_digits xs a b ys h in
    let differ = luhn_sum_swap false xs a b ys 0 ha hb lt other in
    (
      λ v.
          let z = valid_iff (xs ++ a ∷ b ∷ ys) h (not_empty xs a (b ∷ ys)) v in
          verdict (xs ++ b ∷ a ∷ ys) h' (not_empty xs b (a ∷ ys))
          ∙ ap ok (ne_test _ (λ k. differ (z ∙ sym k))),
      λ v.
          let z = valid_iff (xs ++ b ∷ a ∷ ys) h' (not_empty xs b (a ∷ ys)) v in
          verdict (xs ++ a ∷ b ∷ ys) h (not_empty xs a (b ∷ ys))
          ∙ ap ok (ne_test _ (λ k. differ (k ∙ sym z))),
    )

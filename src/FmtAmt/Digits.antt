-- ===== src/FmtAmt/Digits.antt =====
-- The digits of a formatted amount stand for the amount.
use google_test_c_programs.Base.{
  ℕ, zero, suc, ◌+◌, ◌-◌, ◌*◌, ◌/◌, ◌%◌, ◌<◌, ◌≤◌, ◌≡◌, refl, ◌∙◌, ap, sym, true, false, [], ◌∷◌,
  ◌++◌, arith, ltb, length, length-append, length-replicate, length-drop, take, drop,
  take-append-drop, replicate, inl, inr, Bool-cases,
}
use google_test_c_programs.Base.Int.{ℤ, pos, negsuc}
use google_test_c_programs.Base.Outcome.{ok, fault}
use google_test_c_programs.Base.CString.{Bytes}
use google_test_c_programs.Datm.{digit}
use google_test_c_programs.FmtAmt.{magnitude, sign_of, digits_of, decimal, padded_to, fmt_amt_text}

-- The number that digits stand for, behind the number `n`.
unfoldable pub value_from : ℕ → Bytes → ℕ
value_from n [] = n
value_from n (d ∷ ds) = value_from (10 * n + (d - b'0')) ds

unfoldable pub ten_to : ℕ → ℕ
ten_to zero = 1
ten_to (suc k) = 10 * ten_to k

value_from-append :
    (n d : ℕ) (xs : Bytes) → value_from n (xs ++ d ∷ []) ≡ 10 * value_from n xs + (d - b'0')
unfolding value_from
value_from-append n d [] = refl
value_from-append n d (x ∷ xs) = value_from-append (10 * n + (x - b'0')) d xs

value_from-zeros : (k : ℕ) (xs : Bytes) → value_from 0 (replicate k b'0' ++ xs) ≡ value_from 0 xs
unfolding value_from
value_from-zeros zero xs = refl
value_from-zeros (suc k) xs = value_from-zeros k xs

pub digits_of-value : (fuel n : ℕ) → n < ten_to fuel → value_from 0 (digits_of fuel n) ≡ n
unfolding digits_of value_from ten_to
digits_of-value zero n h = omega arith
digits_of-value (suc fuel) n h = elim (Bool-cases (ltb n 10)) [
  | inl g ↦ rw g (ground arith)
  | inr g ↦
      let small : n / 10 < ten_to fuel = omega arith in
      let rest = digits_of-value fuel (n / 10) small in
      let last = value_from-append 0 (digit (n % 10)) (digits_of fuel (n / 10)) in
      rw g (last ∙ omega (arith, rest))
]

digits_of-length : (fuel n : ℕ) → length (digits_of fuel n) ≤ fuel
unfolding digits_of
digits_of-length zero n = omega arith
digits_of-length (suc fuel) n =
    let rest = digits_of-length fuel (n / 10) in
    elim (Bool-cases (ltb n 10)) [
      | inl g ↦ rw g (omega arith)
      | inr g ↦
          rw g (omega (arith, rest, length-append (digits_of fuel (n / 10)) (digit (n % 10) ∷ [])))
    ]

sign_of-length : (amt : ℤ) → length (sign_of amt) ≤ 1
sign_of-length (pos n) = omega arith
sign_of-length (negsuc n) = omega arith

length-padded_to :
    (k : ℕ) (s : Bytes)
    → (k + 1 ≤ length (padded_to k s)) × (length (padded_to k s) ≤ k + 1 + length s)
length-padded_to k s =
    let l = length-append (replicate (k + 1 - length s) b'0') s in
    let r = length-replicate {A = ℕ} (k + 1 - length s) b'0' in
    (omega (arith, l, r), omega (arith, l, r))

padded_to-room : (k : ℕ) (s : Bytes) (m : ℕ) → length s ≤ m → k + 1 ≤ m → length (padded_to k s) ≤ m
padded_to-room k s m h h' =
    let l = length-append (replicate (k + 1 - length s) b'0') s in
    let r = length-replicate {A = ℕ} (k + 1 - length s) b'0' in omega (arith, l, r)

-- An amount of 64 bits but the least one, with between 1 and 27 places, is formatted as its sign, a
-- whole part that is not empty, a decimal point and exactly so many digits, which with those of the whole part
-- stand for its magnitude; with 31 places or more the array overflows.
pub fmt_amt_text-value :
    (amt : ℤ) (k : ℕ)
    → magnitude amt < 9223372036854775808
    → (k < 27
        → (whole frac : Bytes) × (fmt_amt_text amt (pos (suc k))
            ≡ ok (sign_of amt ++ (whole ++ b'.' ∷ frac)))
          × (length frac ≡ suc k)
          × (0 < length whole)
          × (value_from 0 (whole ++ frac) ≡ magnitude amt))
      × (30 ≤ k → fmt_amt_text amt (pos (suc k)) ≡ fault)
unfolding fmt_amt_text ten_to
fmt_amt_text-value amt k range =
    let n = magnitude amt in
    let s = decimal n in
    let t = padded_to (suc k) s in
    let short = digits_of-length 20 n in
    let sign = sign_of-length amt in
    let (least, most) = length-padded_to (suc k) s in
    let whole = take (length t - suc k) t in
    let frac = drop (length t - suc k) t in
    let parts : whole ++ frac ≡ t = take-append-drop (length t - suc k) t in
    let size = length-drop (length t - suc k) t in
    let both : length whole + length frac ≡ length t =
      sym (length-append whole frac) ∙ ap length parts in
    (
      λ room.
          let fits = padded_to-room (suc k) s 28 (omega arith) (omega arith) in
          let test : ltb 32 (length (sign_of amt) + length t + 2) ≡ false =
            ground (arith, fits, sign) in
          (
            whole,
            frac,
            rw test refl,
            omega (arith, size, least),
            omega (arith, size, least, both),
            ap (value_from 0) parts
                ∙ value_from-zeros (suc k + 1 - length s) s
                ∙ digits_of-value 20 n (omega arith),
          ),
      λ more.
          let test : ltb 32 (length (sign_of amt) + length t + 2) ≡ true = ground (arith, least) in
          rw test refl,
    )

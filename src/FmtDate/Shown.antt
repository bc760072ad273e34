-- ===== src/FmtDate/Shown.antt =====
-- A date that `DatmNowHms` has printed, shown with the name of its month.
use google_test_c_programs.Base.{
  ℕ, zero, suc, ◌+◌, ◌/◌, ◌%◌, ◌<◌, ◌≤◌, ◌≡◌, refl, ap, true, false, some, List, [], ◌∷◌, ◌++◌,
  arith, ltb, length, length-append, take_all, get_elem?, All, inl, inr, Bool-cases,
}
use google_test_c_programs.Base.Int.{pos}
use google_test_c_programs.Base.CString.{Bytes}
use google_test_c_programs.CyclicStr.{Cyclic, cyclic_str_add}
use google_test_c_programs.Datm.{Tm, digit, datm_text}
use google_test_c_programs.Datm.Parse.{datm_hms_parse-datm_text}
use google_test_c_programs.FmtAmt.{digits_of, decimal}
use google_test_c_programs.FmtAmt.Digits.{ten_to}
use google_test_c_programs.FmtDate.{mth_array, mth_name, date_text, fmt_date_dd_mon_yyyy}

-- A number has no more digits than its size asks for.
length-digits_of : (fuel k n : ℕ) → n < ten_to (suc k) → length (digits_of fuel n) ≤ suc k
unfolding digits_of ten_to
length-digits_of zero k n h = omega arith
length-digits_of (suc fuel) zero n h = let e : ltb n 10 ≡ true = ground arith in rw e (omega arith)
length-digits_of (suc fuel) (suc k) n h =
    let rest = length-digits_of fuel k (n / 10) (omega arith) in
    elim (Bool-cases (ltb n 10)) [
      | inl g ↦ rw g (omega arith)
      | inr g ↦
          rw g (omega (arith, rest, length-append (digits_of fuel (n / 10)) (digit (n % 10) ∷ [])))
    ]

named :
    (xs : List Bytes) (m : ℕ)
    → m < length xs
    → All (λ s. length s ≡ 3) xs
    → (name : Bytes) × (get_elem? xs m ≡ some name) × (length name ≡ 3)
named [] m h a = absurd (omega arith)
named (x ∷ xs) zero h a = (x, refl, a.0)
named (x ∷ xs) (suc m) h a = named xs m (omega arith) a.1

month_of : (m : ℕ) → mth_name (pos (m + 1)) ≡ get_elem? mth_array m
unfolding mth_name
month_of m = let e : m + 1 ≡ suc m = omega arith in ap (λ n. mth_name (pos n)) e

-- A time up to the year 9999 that was printed by `DatmNowHms` is shown as its day without a leading zero, the short name of
-- its month and its year, in full; the string is put into the ring.
pub fmt_date-datm_text :
    (tm : Tm) (c : Cyclic)
    → tm.tm_year + 1900 < 10000
    → tm.tm_mon < 12
    → tm.tm_mday < 100
    → tm.tm_hour < 100
    → tm.tm_min < 100
    → tm.tm_sec < 100
    → (name : Bytes) × (get_elem? mth_array tm.tm_mon ≡ some name)
      × (fmt_date_dd_mon_yyyy (datm_text false tm) c
          ≡ cyclic_str_add (decimal tm.tm_mday ++ (name ++ decimal (tm.tm_year + 1900))) c)
unfolding fmt_date_dd_mon_yyyy date_text ten_to
fmt_date-datm_text tm c y mo d h mi s =
    let (name, at, three) = named mth_array tm.tm_mon mo (omega arith) in
    let parsed = datm_hms_parse-datm_text tm y (omega arith) d h mi s in
    let day = decimal tm.tm_mday in
    let year = decimal (tm.tm_year + 1900) in
    let l = length-digits_of 20 1 tm.tm_mday (omega arith) in
    let l' = length-digits_of 20 3 (tm.tm_year + 1900) (omega arith) in
    let fits : length (day ++ (name ++ year)) ≤ 9 =
      omega (arith, l, l', three, length-append day (name ++ year), length-append name year) in
    (name, at, rw (parsed, month_of tm.tm_mon, at, take_all 9 (day ++ (name ++ year)) fits) refl)

-- ===== src/Datm/Parse.antt =====
-- A printed time is read back.
use google_test_c_programs.Base.{
  ℕ, suc, ◌+◌, ◌-◌, ◌*◌, ◌/◌, ◌%◌, ◌<◌, ◌≡◌, refl, ◌∙◌, ap, true, false, ◌&&◌, ◌⊎◌, inl, inr, List,
  [], ◌∷◌, ◌++◌, arith, leb, ◌==◌,
}
use google_test_c_programs.Base.Int.{ℤ, pos}
use google_test_c_programs.Base.Outcome.{ok, ◌>>=◌}
use google_test_c_programs.Base.CString.{Bytes, Lacks, atoi, read_digits, is_space}
use google_test_c_programs.MergeGcov.Lines.{split_here}
use google_test_c_programs.Datm.{
  Tm, digit, two_digits, four_digits, datm_text, parse_loop, datm_hms_parse,
}

read_digit :
    (n d : ℕ) (s : Bytes) → d < 10 → read_digits n (digit d ∷ s) ≡ read_digits (n * 10 + d) s
unfolding read_digits
read_digit n d s h =
    let t : (leb b'0' (digit d) && leb (digit d) b'9') ≡ true = ground arith in
    let e : digit d - b'0' ≡ d = omega arith in rw (t, e) refl

atoi-digit : (d : ℕ) (s : Bytes) → d < 10 → atoi (digit d ∷ s) ≡ pos (read_digits d s)
unfolding atoi
atoi-digit d s h =
    let sp : is_space (digit d) ≡ false = ground arith in
    let minus : (digit d == b'-') ≡ false = ground arith in
    let plus : (digit d == b'+') ≡ false = ground arith in
    rw (sp, minus, plus) (ap pos (read_digit 0 d s h ∙ ap (λ n. read_digits n s) (omega arith)))

atoi-two_digits : (n : ℕ) → n < 100 → atoi (two_digits n) ≡ pos n
unfolding read_digits
atoi-two_digits n h =
    atoi-digit (n / 10 % 10) _ (omega arith)
    ∙ ap pos (read_digit (n / 10 % 10) (n % 10) [] (omega arith) ∙ omega arith)

atoi-four_digits : (n : ℕ) → n < 10000 → atoi (four_digits n) ≡ pos n
unfolding read_digits
atoi-four_digits n h =
    atoi-digit (n / 1000 % 10) _ (omega arith)
    ∙ ap pos (
        read_digit (n / 1000 % 10) (n / 100 % 10) (two_digits n) (omega arith)
        ∙ read_digit (n / 1000 % 10 * 10 + n / 100 % 10) (n / 10 % 10) (digit (n % 10) ∷ [])
            (omega arith)
        ∙ read_digit ((n / 1000 % 10 * 10 + n / 100 % 10) * 10 + n / 10 % 10) (n % 10) []
            (omega arith)
        ∙ omega arith)

-- A separator is no digit.
abbrev IsSeparator : ℕ → Type 0
IsSeparator c = (c < b'0') ⊎ (b'9' < c)

two_digits-Lacks : (n c : ℕ) → IsSeparator c → Lacks c (two_digits n)
two_digits-Lacks n c h = (ground arith, (ground arith, tt))

four_digits-Lacks : (n c : ℕ) → IsSeparator c → Lacks c (four_digits n)
four_digits-Lacks n c h = (ground arith, (ground arith, (ground arith, (ground arith, tt))))

parse_step :
    (sep : ℕ) (seps : List ℕ) (b : ℕ) (field rest : Bytes)
    → Lacks (suc sep) (b ∷ field)
    → parse_loop (suc sep ∷ seps) ((b ∷ field) ++ suc sep ∷ rest)
      ≡ (parse_loop seps rest >>= λ fields. ok (atoi (b ∷ field) ∷ fields))
unfolding parse_loop
parse_step sep seps b field rest h = rw (split_here (suc sep) (b ∷ field) rest h, parse_loop) refl

parse_last : (b : ℕ) (field : Bytes) → parse_loop (0 ∷ []) (b ∷ field) ≡ ok (atoi (b ∷ field) ∷ [])
unfolding parse_loop
parse_last b field = refl

next_field :
    (sep : ℕ) (seps : List ℕ) (n : ℕ) (rest : Bytes) (fields : List ℤ)
    → IsSeparator (suc sep)
    → n < 100
    → parse_loop seps rest ≡ ok fields
    → parse_loop (suc sep ∷ seps) (two_digits n ++ suc sep ∷ rest) ≡ ok (pos n ∷ fields)
next_field sep seps n rest fields is small tail =
    parse_step sep seps (digit (n / 10 % 10)) (digit (n % 10) ∷ []) rest
      (two_digits-Lacks n (suc sep) is)
    ∙ rw (tail, atoi-two_digits n small) refl

year_field :
    (seps : List ℕ) (n : ℕ) (rest : Bytes) (fields : List ℤ)
    → n < 10000
    → parse_loop seps rest ≡ ok fields
    → parse_loop (b'-' ∷ seps) (four_digits n ++ b'-' ∷ rest) ≡ ok (pos n ∷ fields)
year_field seps n rest fields small tail =
    parse_step 44 seps (digit (n / 1000 % 10))
      (digit (n / 100 % 10) ∷ digit (n / 10 % 10) ∷ digit (n % 10) ∷ []) rest
      (four_digits-Lacks n b'-' (inl (omega arith)))
    ∙ rw (tail, atoi-four_digits n small) refl

-- A time up to the year 9999 that `DatmNowHms` prints is parsed by `DatmHmsParse` into the year, the
-- month from 1 on, the day, the hour, the minute and the second that were printed.
pub datm_hms_parse-datm_text :
    (tm : Tm)
    → tm.tm_year + 1900 < 10000
    → tm.tm_mon < 99
    → tm.tm_mday < 100
    → tm.tm_hour < 100
    → tm.tm_min < 100
    → tm.tm_sec < 100
    → datm_hms_parse (datm_text false tm)
      ≡ ok (
          pos (tm.tm_year + 1900)
          ∷ pos (tm.tm_mon + 1)
          ∷ pos tm.tm_mday
          ∷ pos tm.tm_hour
          ∷ pos tm.tm_min
          ∷ pos tm.tm_sec
          ∷ [])
unfolding datm_hms_parse datm_text
datm_hms_parse-datm_text tm y mo d h mi s =
    let r₅ = two_digits tm.tm_sec in
    let r₄ = two_digits tm.tm_min ++ b':' ∷ r₅ in
    let r₃ = two_digits tm.tm_hour ++ b':' ∷ r₄ in
    let r₂ = two_digits tm.tm_mday ++ b' ' ∷ r₃ in
    let r₁ = two_digits (tm.tm_mon + 1) ++ b'-' ∷ r₂ in
    let last =
      parse_last (digit (tm.tm_sec / 10 % 10)) (digit (tm.tm_sec % 10) ∷ [])
      ∙ ap (λ v. ok (v ∷ [])) (atoi-two_digits tm.tm_sec s) in
    let minute = next_field 57 (0 ∷ []) tm.tm_min r₅ _ (inr (omega arith)) mi last in
    let hour = next_field 57 (b':' ∷ 0 ∷ []) tm.tm_hour r₄ _ (inr (omega arith)) h minute in
    let day = next_field 31 (b':' ∷ b':' ∷ 0 ∷ []) tm.tm_mday r₃ _ (inl (omega arith)) d hour in
    let month =
      next_field 44 (b' ' ∷ b':' ∷ b':' ∷ 0 ∷ []) (tm.tm_mon + 1) r₂ _ (inl (omega arith))
        (omega arith) day in
    year_field (b'-' ∷ b' ' ∷ b':' ∷ b':' ∷ 0 ∷ []) (tm.tm_year + 1900) r₁ _ y month

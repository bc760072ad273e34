-- ===== src/MergeGcov/Reports.antt =====
-- Two whole reports of the same lines.
use google_test_c_programs.Base.{
  ℕ, zero, suc, ◌+◌, ◌-◌, ◌<◌, ◌≡◌, refl, ◌∙◌, Bool, true, false, ◌&&◌, ◌||◌, inl, inr, List, [],
  ◌∷◌, ◌++◌, map, append-nil, append_assoc, arith, ◌==◌, Bool-cases, if◌then◌else◌, length, take,
  All, bytes_eq,
}
use google_test_c_programs.Base.Int.{ℤ, pos, ltb_ℤ, ◌+ℤ◌}
use google_test_c_programs.Base.Outcome.{ok}
use google_test_c_programs.Base.CString.{Bytes, Lacks, atoi}
use google_test_c_programs.MergeGcov.{
  Filen, Printed, copied, counted, Merging, again, stop, is_zero, is_int, readline, merge_line,
  compare_lines, read_second, merge_turn, merge_loop,
}
use google_test_c_programs.MergeGcov.Lines.{readline-fields}

-- A line as the two reports have it: what is before the first colon in each (ending in a byte `k`), the
-- line number, and the text in each.
pub record Row : Type 0 where
  pub u1 : Bytes
  pub k1 : ℕ
  pub u2 : Bytes
  pub k2 : ℕ
  pub n : ℕ
  pub num : Bytes
  pub text1 : Bytes
  pub text2 : Bytes

abbrev pub line_of : Bytes → ℕ → ℕ → Bytes → Bytes → Bytes
line_of u k n num text = (u ++ k ∷ []) ++ (b':' ∷ ((n ∷ num) ++ (b':' ∷ text)))

abbrev pub line1 : Row → Bytes
line1 r = line_of r.u1 r.k1 r.n r.num r.text1

abbrev pub line2 : Row → Bytes
line2 r = line_of r.u2 r.k2 r.n r.num r.text2

-- The hits that a count stands for.
abbrev pub hits : Bytes → ℕ → ℤ
hits u k = if k == b'-' || k == b'#' then pos 0 else atoi (if k == b'*' then u else u ++ k ∷ [])

-- What `fgets` can put into `inbuf`: at most 254 bytes and no null, with a new-line at the end only.
abbrev pub IsRead : Bytes → Type 0
IsRead s = (length s < 255) × Lacks 0 s × Lacks 10 (take (length s - 1) s)

abbrev pub FitsInt : ℤ → Type 0
FitsInt n = is_int n ≡ true

-- The line number is positive, the fields have no colon, and the numbers and the sum of the hits are
-- `int`s.
pub record IsRow (r : Row) : Type 0 where
  pub no_colon1 : Lacks b':' (r.u1 ++ r.k1 ∷ [])
  pub no_colon2 : Lacks b':' (r.u2 ++ r.k2 ∷ [])
  pub no_colon : Lacks b':' (r.n ∷ r.num)
  pub positive : (j : ℕ) × (atoi (r.n ∷ r.num) ≡ pos (suc j))
  pub read1 : IsRead (line1 r)
  pub read2 : IsRead (line2 r)
  pub number_fits : FitsInt (atoi (r.n ∷ r.num))
  pub hits1_fit : FitsInt (hits r.u1 r.k1)
  pub hits2_fit : FitsInt (hits r.u2 r.k2)
  pub sum_fits : FitsInt (hits r.u1 r.k1 +ℤ hits r.u2 r.k2)

abbrev unchanged : Row → Bool
unchanged r = bytes_eq (line1 r) (line2 r) && is_zero (hits r.u1 r.k1) && is_zero (hits r.u2 r.k2)

-- What is to be printed for a line: the line itself if both have it alike without hits, and else the sum
-- of the hits, with a star if both have one.
unfoldable pub merged : Row → Printed
merged r =
    if unchanged r
    then copied (line1 r)
    else counted (r.k1 == b'*' && r.k2 == b'*') (hits r.u1 r.k1 +ℤ hits r.u2 r.k2)
        (atoi (r.n ∷ r.num)) r.text1

-- A file that is to read `lines`.
abbrev pub at_lines : List Bytes → Filen → Filen
at_lines lines f = record f { lines = lines; read = true; eof = false; skipline = false }

abbrev pub merging : Filen → Filen → List Printed → Bytes → ℕ → Merging
merging f1 f2 out src ex = record {
  file1 = f1;
  file2 = f2;
  out = out;
  srcfilename = src;
  execlinecnt = ex;
}

-- A file that has read a line.
abbrev after : Filen → List Bytes → Bytes → ℕ → ℕ → Bytes → Bytes → Filen
after f rest u k n num text = record (at_lines rest f) {
  inbuf = line_of u k n num text;
  hitcnt = hits u k;
  hitstar = k == b'*';
  lineno = atoi (n ∷ num);
  totallinecnt = if k == b'-' then f.totallinecnt else f.totallinecnt + 1;
  outbuf = text;
}

same_number : (j : ℕ) → ltb_ℤ (pos (suc j)) (pos (suc j)) ≡ false
same_number j = ground arith

not_zero : (j : ℕ) → is_zero (pos (suc j)) ≡ false
not_zero j = ground arith

-- Both files with a line of the same number.
abbrev read_both :
    Row → Filen → Filen → List Bytes → List Bytes → List Printed → Bytes → ℕ → Merging
read_both r f1 f2 rest1 rest2 out src ex =
    merging (after f1 rest1 r.u1 r.k1 r.n r.num r.text1)
      (after f2 rest2 r.u2 r.k2 r.n r.num r.text2) out src ex

compare_same :
    (r : Row) (f1 f2 : Filen) (rest1 rest2 : List Bytes) (out : List Printed) (src : Bytes) (ex : ℕ)
    (j : ℕ)
    → atoi (r.n ∷ r.num) ≡ pos (suc j)
    → compare_lines (read_both r f1 f2 rest1 rest2 out src ex)
      ≡ merge_line (read_both r f1 f2 rest1 rest2 out src ex)
unfolding compare_lines
compare_same r f1 f2 rest1 rest2 out src ex j e = rw (e, same_number j, not_zero j) refl

merge_line-merged :
    (r : Row) (f1 f2 : Filen) (rest1 rest2 : List Bytes) (out : List Printed) (src : Bytes) (ex : ℕ)
    → FitsInt (hits r.u1 r.k1 +ℤ hits r.u2 r.k2)
    → let g1 = after f1 rest1 r.u1 r.k1 r.n r.num r.text1 in
      let g2 = after f2 rest2 r.u2 r.k2 r.n r.num r.text2 in
      (ex' : ℕ) × (merge_line (merging g1 g2 out src ex)
        ≡ ok (again (merging g1 g2 (out ++ merged r ∷ []) src ex')))
unfolding merge_line merged
merge_line-merged r f1 f2 rest1 rest2 out src ex fits = elim (Bool-cases (unchanged r)) [
  | inl h ↦ (ex, rw h refl)
  | inr h ↦ (if r.k1 == b'*' && r.k2 == b'*' then ex + 5 else ex + 10, rw (h, fits) refl)
]

-- A round of the loop at a line of both reports.
merge_turn-merged :
    (r : Row) (f1 f2 : Filen) (rest1 rest2 : List Bytes) (out : List Printed) (src : Bytes) (ex : ℕ)
    → IsRow r
    → merge_turn
        (merging (at_lines (line1 r ∷ rest1) f1) (at_lines (line2 r ∷ rest2) f2) out src ex)
      ≡ merge_line (read_both r f1 f2 rest1 rest2 out src ex)
unfolding merge_turn read_second
merge_turn-merged r f1 f2 rest1 rest2 out src ex is =
    let (j, e) = is.positive in
    rw
      (
        readline-fields (at_lines [] f1) rest1 r.u1 r.k1 r.n r.num r.text1 is.no_colon1 is.no_colon,
        readline-fields (at_lines [] f2) rest2 r.u2 r.k2 r.n r.num r.text2 is.no_colon2 is.no_colon,
        compare_same r f1 f2 rest1 rest2 out src ex j e,
      )
      refl

ended :
    (f1 f2 : Filen) (out : List Printed) (src : Bytes) (ex : ℕ)
    → (m' : Merging) × (merge_turn (merging (at_lines [] f1) (at_lines [] f2) out src ex)
        ≡ ok (stop 0 m'))
      × (m'.out ≡ out)
unfolding merge_turn read_second readline compare_lines
ended f1 f2 out src ex = (_, refl, refl)

-- Two reports of the same lines, as `fgets` reads them, all with a positive number and with hits whose
-- sum is an `int`, are merged line by line: the loop of
-- `main` ends without an error, and behind what was printed it prints one line for each, with the sum
-- of the hits, or the line itself where neither has hits and both have it alike. One round more than
-- there are lines is enough.
pub merge_loop-merged :
    (fuel : ℕ) (rows : List Row) (f1 f2 : Filen) (out : List Printed) (src : Bytes) (ex : ℕ)
    → All IsRow rows
    → length rows < fuel
    → (m' : Merging) × (merge_loop fuel
          (merging (at_lines (map line1 rows) f1) (at_lines (map line2 rows) f2) out src ex)
        ≡ ok (0, m'))
      × (m'.out ≡ out ++ map merged rows)
unfolding merge_loop
merge_loop-merged zero rows f1 f2 out src ex is enough = absurd (omega arith)
merge_loop-merged (suc fuel) [] f1 f2 out src ex is enough =
    let (m', run, same) = ended f1 f2 out src ex in (m', rw run refl, rw (append-nil out) same)
merge_loop-merged (suc fuel) (r ∷ rows) f1 f2 out src ex is enough =
    let rest1 = map line1 rows in
    let rest2 = map line2 rows in
    let (ex', step) = merge_line-merged r f1 f2 rest1 rest2 out src ex is.0.sum_fits in
    let (m', run, printed) =
      merge_loop-merged fuel rows (after f1 rest1 r.u1 r.k1 r.n r.num r.text1)
        (after f2 rest2 r.u2 r.k2 r.n r.num r.text2) (out ++ merged r ∷ []) src ex' is.1
        (omega arith) in
    (
      m',
      rw (merge_turn-merged r f1 f2 rest1 rest2 out src ex is.0, step) run,
      printed ∙ append_assoc out (merged r ∷ []) (map merged rows),
    )

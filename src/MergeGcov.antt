-- ===== src/MergeGcov.antt =====
-- src/mergegcov/mergegcov.c: two coverage reports of one source file are merged line by line. A file
-- is the list of the lines that `fgets` returns, each with its new-line, and a read does not
-- fail. The counts of lines have no bound, and `atoi` reads what fits an `int`. The loop of `main` runs
-- on fuel; what it prints to the output file is the list of texts.
pub mod Loop
pub mod Lines
pub mod Reports
mod Tests
use google_test_c_programs.Base.{
  ℕ, zero, suc, ◌+◌, ◌-◌, Bool, true, false, not, ◌&&◌, ◌||◌, Option, none, some, List, [], ◌∷◌,
  ◌++◌, ltb, ◌==◌, if◌then◌else◌, length, get_elem?, take, drop, bytes_eq,
}
use google_test_c_programs.Base.Int.{ℤ, pos, negsuc, ◌+ℤ◌, ltb_ℤ, leb_ℤ}
use google_test_c_programs.Base.Outcome.{Outcome, ok, fault, out_of_fuel, ◌>>=◌, deref}
use google_test_c_programs.Base.CString.{Bytes, codes, strchr, atoi}

-- `filen_t`; `lines` are those that `fptr` has not read yet.
pub record Filen : Type 0 where
  pub lines : List Bytes
  pub inbuf : Bytes
  pub outbuf : Bytes
  pub read : Bool
  pub skipline : Bool
  pub eof : Bool
  pub hitcnt : ℤ
  pub hitstar : Bool
  pub lineno : ℤ
  pub totallinecnt : ℕ

-- The part of a line before the first colon, what is between the two colons, and what is behind them.
unfoldable pub split_at : ℕ → Bytes → Option (Bytes × Bytes)
split_at c [] = none
split_at c (b ∷ s) =
    if b == c
    then some ([], s)
    else elim (split_at c s) [ none ↦ none | some (u, v) ↦ some (b ∷ u, v) ]

-- The fields of a line; a line that begins with a colon has no byte before it.
unfoldable pub read_fields : Filen → Bytes → Bytes → Bytes → Outcome Filen
read_fields f count num text = deref (get_elem? count (length count - 1)) >>= λ c.
    let hyphen = c == b'-' in
    let hash = c == b'#' in
    let star = c == b'*' in
    let digits = if star then take (length count - 1) count else count in
    ok (record f {
      hitcnt = if hyphen || hash then pos 0 else atoi digits;
      hitstar = star;
      lineno = atoi num;
      totallinecnt = if hyphen then f.totallinecnt else f.totallinecnt + 1;
      outbuf = text;
    })

abbrev pub skipped : Filen → Outcome Filen
skipped f = ok (record f { skipline = true })

-- What follows the first colon.
unfoldable pub after_colon : Filen → Bytes → Bytes → Outcome Filen
after_colon f count [] = skipped f
after_colon f count (b ∷ behind) = elim (split_at b':' (b ∷ behind)) [
  | none ↦ skipped f
  | some (num, text) ↦ read_fields f count num text
]

unfoldable pub read_text : Filen → Bytes → Outcome Filen
read_text f line = elim (split_at b':' line) [
  | none ↦ skipped f
  | some (count, behind) ↦ after_colon f count behind
]

unfoldable pub readline : Filen → Outcome Filen
readline f = elim f.lines [
  | [] ↦ ok (record f { skipline = false; eof = true })
  | line ∷ rest ↦ read_text (record f { skipline = false; lines = rest; inbuf = line }) line
]

-- What is printed: a line of the first file, or counts (with a star or not), a line number and a text.
pub data Printed : Type 0 where
  copied : Bytes → Printed
  counted : Bool → ℤ → ℤ → Bytes → Printed

-- The variables of `main` that its loop changes.
pub record Merging : Type 0 where
  pub file1 : Filen
  pub file2 : Filen
  pub out : List Printed
  pub srcfilename : Bytes
  pub execlinecnt : ℕ

-- The loop goes round again, or ends with `exitcode`.
pub data Turn : Type 0 where
  again : Merging → Turn
  stop : ℕ → Merging → Turn

abbrev is_zero : ℤ → Bool
is_zero n = not (ltb_ℤ n (pos 0)) && not (ltb_ℤ (pos 0) n)

-- The part of a name before its new-line.
abbrev to_newline : Bytes → Bytes
to_newline s = elim (split_at 10 s) [ none ↦ s | some (name, rest) ↦ name ]

-- Lines with the number 0: only the one that names the source file counts.
unfoldable pub source_line : Merging → Turn
source_line m =
    let text1 = m.file1.outbuf in
    if bytes_eq (take 4 text1) (codes "Sour")
    then if not (bytes_eq text1 m.file2.outbuf)
      then stop 1 m
      else again (record m {
        out = m.out ++ copied m.file1.inbuf ∷ [];
        srcfilename = to_newline (drop 7 text1);
      })
    else again m

-- Whether a number is an `int`.
abbrev pub is_int : ℤ → Bool
is_int n = leb_ℤ (negsuc 2147483647) n && leb_ℤ n (pos 2147483647)

-- `outhitcnt` is an `int`: a sum that is none overflows, which is undefined behaviour.
unfoldable pub merge_line : Merging → Outcome Turn
merge_line m =
    let file1 = m.file1 in
    let file2 = m.file2 in
    if bytes_eq file1.inbuf file2.inbuf && is_zero file1.hitcnt && is_zero file2.hitcnt
    then ok (again (record m { out = m.out ++ copied file1.inbuf ∷ [] }))
    else if not (is_int (file1.hitcnt +ℤ file2.hitcnt))
    then fault
    else let addstar = file1.hitstar && file2.hitstar in
      ok (
        again (record m {
          out =
              m.out
              ++ counted addstar (file1.hitcnt +ℤ file2.hitcnt) file1.lineno file1.outbuf ∷ [];
          execlinecnt = if addstar then m.execlinecnt + 5 else m.execlinecnt + 10;
        }))

abbrev set_read : Bool → Bool → Merging → Merging
set_read r1 r2 m = record m {
  file1 = record m.file1 { read = r1 };
  file2 = record m.file2 { read = r2 };
}

-- From `if (file1.eof && file2.eof)` on.
unfoldable pub compare_lines : Merging → Outcome Turn
compare_lines m =
    if m.file1.eof && m.file2.eof
    then ok (stop 0 m)
    else if ltb_ℤ m.file1.lineno m.file2.lineno
    then ok (again (set_read true false m))
    else if ltb_ℤ m.file2.lineno m.file1.lineno
    then ok (again (set_read false true m))
    else if is_zero m.file1.lineno
    then ok (source_line (set_read true true m))
    else merge_line (set_read true true m)

abbrev reads : Filen → Bool
reads f = not f.eof && f.read

unfoldable pub read_second : Merging → Outcome Turn
read_second m =
    if reads m.file2
    then (readline m.file2 >>= λ f.
        let m' = record m { file2 = f } in if f.skipline then ok (again m') else compare_lines m')
    else compare_lines m

-- One round of the loop.
unfoldable pub merge_turn : Merging → Outcome Turn
merge_turn m =
    if reads m.file1
    then (readline m.file1 >>= λ f.
        let m' = record m { file1 = f } in if f.skipline then ok (again m') else read_second m')
    else read_second m

unfoldable pub merge_loop : ℕ → Merging → Outcome (ℕ × Merging)
merge_loop zero m = out_of_fuel
merge_loop (suc fuel) m = merge_turn m >>= λ turn. elim turn [
  | again m' ↦ merge_loop fuel m'
  | stop exitcode m' ↦ ok (exitcode, m')
]

-- What follows the loop; with no countable line the percentage divides by 0.
unfoldable pub exit_code : ℕ × Merging → Outcome ℕ
exit_code (suc code, m) = ok (suc code)
exit_code (zero, m) =
    if length m.srcfilename == 0
    then ok 1
    else if not (m.file1.totallinecnt == m.file2.totallinecnt)
    then ok 1
    else if m.file1.totallinecnt == 0
    then fault
    else ok 0

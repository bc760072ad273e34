-- ===== src/MergeGcov/Tests.antt =====
-- Lines of a report, and two reports on which the merge does not end.
use google_test_c_programs.Base.{◌≡◌, refl, true, false, [], ◌∷◌, arith}
use google_test_c_programs.Base.Int.{pos, ◌+ℤ◌}
use google_test_c_programs.Base.Outcome.{ok, out_of_fuel}
use google_test_c_programs.Base.CString.{codes, atoi}
use google_test_c_programs.MergeGcov.{
  Filen, Merging, counted, merge_loop, merge_turn, read_second, compare_lines, merge_line,
  source_line, readline, read_text, after_colon, read_fields, split_at,
}
use google_test_c_programs.MergeGcov.Reports.{
  Row, IsRow, merging, at_lines, merged, merge_loop-merged,
}
use google_test_c_programs.MergeGcov.Loop.{merge_loop-IsStuck}

abbrev file : Filen
file = record {
  lines = [];
  inbuf = [];
  outbuf = [];
  read = true;
  skipline = false;
  eof = false;
  hitcnt = pos 0;
  hitstar = false;
  lineno = pos 0;
  totallinecnt = 0;
}

-- The first file has ended after line 7, the second is at line 8.
abbrev apart : Merging
apart = record {
  file1 = record file { eof = true; lineno = pos 7 };
  file2 = record file { lines = codes "1:9:y" ∷ []; read = false; lineno = pos 8 };
  out = [];
  srcfilename = [];
  execlinecnt = 0;
}

merge_loop-IsStuck_example : merge_loop 1000 apart ≡ out_of_fuel
merge_loop-IsStuck_example =
    merge_loop-IsStuck 1000 apart
      (record { ended = refl; has_more = refl; waits = refl; behind = refl })

-- Two reports of one line are merged.
one_line :
    merge_loop 3 (record {
      file1 = record file { lines = codes "2:1:x" ∷ [] };
      file2 = record file { lines = codes "3:1:x" ∷ [] };
      out = [];
      srcfilename = codes "x.c";
      execlinecnt = 0;
    })
    ≡ ok (
      0,
      record {
        file1 = record file {
          inbuf = codes "2:1:x";
          outbuf = codes "x";
          hitcnt = pos 2;
          lineno = pos 1;
          totallinecnt = 1;
          eof = true;
        };
        file2 = record file {
          inbuf = codes "3:1:x";
          outbuf = codes "x";
          hitcnt = pos 3;
          lineno = pos 1;
          totallinecnt = 1;
          eof = true;
        };
        out = counted false (pos 5) (pos 1) (codes "x") ∷ [];
        srcfilename = codes "x.c";
        execlinecnt = 10;
      },
    )
unfolding merge_loop merge_turn read_second compare_lines merge_line source_line readline read_text
    after_colon read_fields split_at atoi ◌+ℤ◌
one_line = refl

-- Line 7 with two hits in one report and three in the other.
abbrev row : Row
row = record {
  u1 = codes " ";
  k1 = b'2';
  u2 = codes " ";
  k2 = b'3';
  n = b'7';
  num = [];
  text1 = codes "x";
  text2 = codes "x";
}

row-IsRow : IsRow row
unfolding atoi ◌+ℤ◌
row-IsRow = record {
  no_colon1 = omega arith;
  no_colon2 = omega arith;
  no_colon = omega arith;
  positive = (6, refl);
  read1 = (omega arith, omega arith, omega arith);
  read2 = (omega arith, omega arith, omega arith);
  number_fits = refl;
  hits1_fit = refl;
  hits2_fit = refl;
  sum_fits = refl;
}

merge_loop-merged_example :
    (m' : Merging) × (merge_loop 2 (
        merging
          (at_lines (codes " 2:7:x" ∷ []) file)
          (at_lines (codes " 3:7:x" ∷ []) file)
          []
          (codes "x.c")
          0)
      ≡ ok (0, m'))
    × (m'.out ≡ counted false (pos 5) (pos 7) (codes "x") ∷ [])
unfolding merged atoi ◌+ℤ◌
merge_loop-merged_example =
    merge_loop-merged 2 (row ∷ []) file file [] (codes "x.c") 0 (row-IsRow, tt) (omega arith)

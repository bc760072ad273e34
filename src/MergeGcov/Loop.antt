-- ===== src/MergeGcov/Loop.antt =====
-- When the loop of `main` ends.
use google_test_c_programs.Base.{ℕ, zero, suc, ◌≡◌, refl, true, false}
use google_test_c_programs.Base.Int.{ltb_ℤ}
use google_test_c_programs.Base.Outcome.{ok, out_of_fuel}
use google_test_c_programs.MergeGcov.{
  Merging, again, compare_lines, read_second, merge_turn, merge_loop,
}

-- The first file is at its end and the second, which is further on, waits for it.
pub record IsStuck (m : Merging) : Type 0 where
  pub ended : m.file1.eof ≡ true
  pub has_more : m.file2.eof ≡ false
  pub waits : m.file2.read ≡ false
  pub behind : ltb_ℤ m.file1.lineno m.file2.lineno ≡ true

-- The state that a round leads to.
waiting : Merging → Merging
waiting m = record m {
  file1 = record m.file1 { read = true };
  file2 = record m.file2 { read = false };
}

waiting-IsStuck : (m : Merging) → IsStuck m → IsStuck (waiting m)
unfolding waiting
waiting-IsStuck m s = record {
  ended = s.ended;
  has_more = s.has_more;
  waits = refl;
  behind = s.behind;
}

stuck_turn : (m : Merging) → IsStuck m → merge_turn m ≡ ok (again (waiting m))
unfolding merge_turn read_second compare_lines waiting
stuck_turn m s = rw (s.ended, s.waits, s.has_more, s.behind) refl

-- Once the first file has ended and the second has been read further, with lines still to come, the
-- loop never ends: however many rounds it is given, it has not ended then. Each round asks
-- for a line of the first file, which has none.
pub merge_loop-IsStuck : (fuel : ℕ) (m : Merging) → IsStuck m → merge_loop fuel m ≡ out_of_fuel
unfolding merge_loop
merge_loop-IsStuck zero m s = refl
merge_loop-IsStuck (suc fuel) m s =
    rw (stuck_turn m s) (merge_loop-IsStuck fuel (waiting m) (waiting-IsStuck m s))

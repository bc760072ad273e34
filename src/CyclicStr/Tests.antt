-- ===== src/CyclicStr/Tests.antt =====
-- Runs of the string ring, and the theorems at concrete inputs.
use google_test_c_programs.Base.{◌≡◌, refl, inl, none, arith, replicate}
use google_test_c_programs.Base.Outcome.{ok}
use google_test_c_programs.Base.CString.{codes}
use google_test_c_programs.CyclicStr.{Cyclic, cyclic_str_add, string_at, IsValid}
use google_test_c_programs.CyclicStr.Keeps.{added, cyclic_str_add_kept}

abbrev start : Cyclic
start = record { cyclic_str = replicate 1024 0; cyclic_ptr = none }

start-IsValid : IsValid start
start-IsValid = record { size = refl; within = λ p e. ground arith }

abbrev one : Cyclic
one = added (codes "one") start

abbrev two : Cyclic
two = added (codes "two") one

first_at : cyclic_str_add (codes "one") start ≡ ok (0, one)
unfolding cyclic_str_add
first_at = refl

second_at : cyclic_str_add (codes "two") one ≡ ok (4, two)
unfolding cyclic_str_add
second_at = refl

cyclic_str_add_kept_example : string_at two 0 ≡ codes "one"
cyclic_str_add_kept_example =
    cyclic_str_add_kept (codes "one") (codes "two") start one two 0 4 start-IsValid (omega arith)
      first_at second_at (inl (omega arith))

-- ===== src/ErrCodes/Tests.antt =====
-- A number that the code knows and one that it does not.
use mathlib.Core.Path.{◌≡◌, refl}
use mathlib.Core.Option.{none}
use google_test_c_programs.ErrCodes.{err_no, print_err_code}

unknown_code : print_err_code 7 ≡ none
unfolding print_err_code err_no
unknown_code = refl

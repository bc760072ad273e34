-- ===== src/Logging/Tests.antt =====
-- The theorems on levels and packages at concrete states.
use google_test_c_programs.Base.{some, ℕ, true, false, none, [], replicate, length-replicate}
use google_test_c_programs.CyclicStr.{Cyclic, IsValid, sz_cyclic_str}
use google_test_c_programs.Base.CString.{codes}
use google_test_c_programs.Logging.{levels, packages, Logs}

-- No string has been returned yet.
abbrev pub fresh : Cyclic
fresh = record { cyclic_str = replicate sz_cyclic_str 0; cyclic_ptr = none }

pub fresh-IsValid : IsValid fresh
fresh-IsValid = record { size = length-replicate {A = ℕ} sz_cyclic_str 0; within = λ p h. cc }

abbrev pub start : Logs
start = record {
  log_write = levels true true false false;
  pkg_write = packages false false false;
  mem_text = λ n. some (codes "malloc");
  cyclic = fresh;
  log = [];
}

-- ===== src/ThrInfo/Tests.antt =====
-- Two threads, and the theorems at them.
use google_test_c_programs.Base.{
  ℕ, ◌≡◌, refl, none, some, inr, List, [], ◌∷◌, arith, ◌==◌, if◌then◌else◌,
}
use google_test_c_programs.Base.Outcome.{ok}
use google_test_c_programs.Base.CString.{codes}
use google_test_c_programs.LnkLst.{Memory, null}
use google_test_c_programs.ThrInfo.{ThrInfo, thr_info_remove}
use google_test_c_programs.ThrInfo.Names.{IsThrInfo, entries, others, thr_info_remove-others}

abbrev cells : Memory
cells a = if a == 1 then some 5 else if a == 5 then some 7 else if a == 7 then some null else none

-- The threads 100 and 200, at the addresses 5 and 7.
abbrev threads : ThrInfo
threads = record {
  mem = cells;
  id = λ a. if a == 5 then 100 else 200;
  name = λ a. if a == 5 then codes "SERVER" else codes "CLIENT";
  head = 1;
  tail = 7;
}

threads-IsThrInfo : IsThrInfo threads (5 ∷ 7 ∷ [])
threads-IsThrInfo = record {
  list = record {
    linked = (omega arith, refl, (omega arith, refl, (omega arith, refl, tt)));
    distinct = (refl, (refl, (refl, tt)));
  };
  tail = inr refl;
}

thr_info_remove-others_example :
    (t' : ThrInfo) × (ws : List ℕ) × (thr_info_remove 4 100 threads ≡ ok t')
    × IsThrInfo t' ws
    × (entries t' ws ≡ (200, codes "CLIENT") ∷ [])
unfolding others
thr_info_remove-others_example =
    thr_info_remove-others 4 threads (5 ∷ 7 ∷ []) 100 threads-IsThrInfo (omega arith)

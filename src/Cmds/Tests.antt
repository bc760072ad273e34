-- ===== src/Cmds/Tests.antt =====
-- Commands and requests on concrete bytes.
use google_test_c_programs.Base.{
  ℕ, ◌≡◌, refl, true, false, none, some, List, [], ◌∷◌, arith, replicate, length-replicate,
}
use google_test_c_programs.Base.Int.{pos}
use google_test_c_programs.Base.Outcome.{ok}
use google_test_c_programs.Base.CString.{codes, toupper}
use google_test_c_programs.CyclicStr.{Cyclic, IsValid, sz_cyclic_str}
use google_test_c_programs.StrUtils.{buf_to_str, buf_len, buf_to_upper_case}
use google_test_c_programs.Logging.{levels, packages, Logs, mem_trace, log_pkg_trace_f}
use google_test_c_programs.Cmds.{log_cmds_proc, cmd_proc, dispatch, fmt_response}
use google_test_c_programs.Cmds.Levels.{Level, LevelCmd, wanted, log_cmds_proc-wanted}
use google_test_c_programs.Cmds.Requests.{levels_text, cmd_proc-levels}

abbrev start : Logs
start = record {
  log_write = levels true true false false;
  pkg_write = packages false false false;
  cyclic = record { cyclic_str = replicate sz_cyclic_str 0; cyclic_ptr = none };
  log = [];
  mem_text = λ n. some (codes "malloc");
}

start-IsValid : IsValid start.cyclic
start-IsValid = record { size = length-replicate {A = ℕ} sz_cyclic_str 0; within = λ p h. cc }

abbrev cmds : List LevelCmd
cmds =
    LevelCmd.turn_on Level.info ∷ LevelCmd.turn_off Level.error ∷ LevelCmd.turn_off Level.info ∷ []

-- A query with a space behind it is not known.
padded_query :
    cmd_proc (codes "?LOG ") (pos 5) (replicate 6 1) start
    ≡ ok ((32, codes "ERROR: Invalid request (unknown)"), start)
unfolding cmd_proc dispatch fmt_response mem_trace log_pkg_trace_f packages buf_to_str buf_len
    buf_to_upper_case toupper
padded_query = refl

log_cmds_proc-wanted_example :
    log_cmds_proc (codes "+I,-E,-I") start
    ≡ ok (record start { log_write = levels false true false false })
unfolding wanted packages
log_cmds_proc-wanted_example = log_cmds_proc-wanted cmds true true false false start refl

cmd_proc-levels_example :
    (c' : Cyclic) × (cmd_proc (codes "?log:+i,-e,-i  ") (pos 15) (replicate 16 1) start
      ≡ ok (
        (34, levels_text false true false false),
        record start { log_write = levels false true false false; cyclic = c' },
      ))
unfolding wanted toupper packages
cmd_proc-levels_example =
    cmd_proc-levels (codes "?log:+i,-e,-i") 14 (replicate 16 1) cmds true true false false start
      start-IsValid refl (omega arith) (omega arith) (omega arith) (omega arith) refl

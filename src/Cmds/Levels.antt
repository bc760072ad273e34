-- ===== src/Cmds/Levels.antt =====
-- Commands on log levels, written out and carried out.
use google_test_c_programs.Base.{
  ℕ, ◌≡◌, ◌≢◌, refl, Bool, true, false, List, [], ◌∷◌, ◌++◌, map, arith, ltb, ◌==◌, if◌then◌else◌,
  length, All,
}
use google_test_c_programs.Base.Bits.{bits_and}
use google_test_c_programs.Base.Outcome.{ok}
use google_test_c_programs.Base.CString.{Bytes, codes, toupper}
use google_test_c_programs.Csv.Split.{IsItem, join, csv_str_lst-join}
use google_test_c_programs.Logging.{
  levels, Logs, log_lvl_enable, log_lvl_disable, loglvl_from_char, IsMemoryOff, mem_traces_off,
}
use google_test_c_programs.Cmds.{
  warn, is_sign, call_loglvlfn, log_cmd, each_elem, nothing_to_do, log_cmds_proc,
}

pub data Level : Type 0 where
  error : Level
  warning : Level
  info : Level
  trace : Level

-- A command, and how it is written.
pub data LevelCmd : Type 0 where
  turn_on : Level → LevelCmd
  turn_off : Level → LevelCmd

abbrev pub letter : Level → ℕ
letter Level.error = b'E'
letter Level.warning = b'W'
letter Level.info = b'I'
letter Level.trace = b'T'

abbrev pub written : LevelCmd → Bytes
written (LevelCmd.turn_on u) = b'+' ∷ letter u ∷ []
written (LevelCmd.turn_off u) = b'-' ∷ letter u ∷ []

abbrev pub same : Level → Level → Bool
same u v = letter u == letter v

-- Whether level `v` is enabled behind a command, and behind commands, where the last one on it tells.
abbrev pub wanted_once : LevelCmd → Level → Bool → Bool
wanted_once (LevelCmd.turn_on u) v old = if same u v then true else old
wanted_once (LevelCmd.turn_off u) v old = if same u v then false else old

unfoldable pub wanted : List LevelCmd → Level → Bool → Bool
wanted [] v old = old
wanted (c ∷ cs) v old = wanted cs v (wanted_once c v old)

written-IsItem : (c : LevelCmd) → IsItem (written c)
written-IsItem (LevelCmd.turn_on Level.error) = record {
  ink = omega arith;
  no_comma = omega arith;
  no_quote = omega arith;
}
written-IsItem (LevelCmd.turn_on Level.warning) = record {
  ink = omega arith;
  no_comma = omega arith;
  no_quote = omega arith;
}
written-IsItem (LevelCmd.turn_on Level.info) = record {
  ink = omega arith;
  no_comma = omega arith;
  no_quote = omega arith;
}
written-IsItem (LevelCmd.turn_on Level.trace) = record {
  ink = omega arith;
  no_comma = omega arith;
  no_quote = omega arith;
}
written-IsItem (LevelCmd.turn_off Level.error) = record {
  ink = omega arith;
  no_comma = omega arith;
  no_quote = omega arith;
}
written-IsItem (LevelCmd.turn_off Level.warning) = record {
  ink = omega arith;
  no_comma = omega arith;
  no_quote = omega arith;
}
written-IsItem (LevelCmd.turn_off Level.info) = record {
  ink = omega arith;
  no_comma = omega arith;
  no_quote = omega arith;
}
written-IsItem (LevelCmd.turn_off Level.trace) = record {
  ink = omega arith;
  no_comma = omega arith;
  no_quote = omega arith;
}

-- The table behind a command.
log_cmd-written :
    (c : LevelCmd) (e w i t : Bool) (l : Logs)
    → log_cmd (written c) (record l { log_write = levels e w i t })
      ≡ ok (record l {
        log_write =
            levels
              (wanted_once c Level.error e)
              (wanted_once c Level.warning w)
              (wanted_once c Level.info i)
              (wanted_once c Level.trace t);
      })
unfolding log_cmd call_loglvlfn log_lvl_enable log_lvl_disable loglvl_from_char toupper levels
    bits_and
log_cmd-written (LevelCmd.turn_on Level.error) e w i t l = refl
log_cmd-written (LevelCmd.turn_on Level.warning) e w i t l = refl
log_cmd-written (LevelCmd.turn_on Level.info) e w i t l = refl
log_cmd-written (LevelCmd.turn_on Level.trace) e w i t l = refl
log_cmd-written (LevelCmd.turn_off Level.error) e w i t l = refl
log_cmd-written (LevelCmd.turn_off Level.warning) e w i t l = refl
log_cmd-written (LevelCmd.turn_off Level.info) e w i t l = refl
log_cmd-written (LevelCmd.turn_off Level.trace) e w i t l = refl

All-IsItem : (cs : List LevelCmd) → All IsItem (map written cs)
All-IsItem [] = tt
All-IsItem (c ∷ cs) = (written-IsItem c, All-IsItem cs)

each_elem-written :
    (cs : List LevelCmd) (e w i t : Bool) (l : Logs)
    → each_elem log_cmd (map written cs) (record l { log_write = levels e w i t })
      ≡ ok (record l {
        log_write =
            levels
              (wanted cs Level.error e)
              (wanted cs Level.warning w)
              (wanted cs Level.info i)
              (wanted cs Level.trace t);
      })
unfolding each_elem wanted
each_elem-written [] e w i t l = refl
each_elem-written (c ∷ cs) e w i t l = rw (log_cmd-written c e w i t l) (
    each_elem-written cs (wanted_once c Level.error e) (wanted_once c Level.warning w)
      (wanted_once c Level.info i) (wanted_once c Level.trace t) l)

first_sign :
    (c : LevelCmd) (cs : List LevelCmd) → nothing_to_do (join (map written (c ∷ cs))) ≡ false
first_sign (LevelCmd.turn_on u) [] = refl
first_sign (LevelCmd.turn_on u) (d ∷ cs) = refl
first_sign (LevelCmd.turn_off u) [] = refl
first_sign (LevelCmd.turn_off u) (d ∷ cs) = refl

-- Commands that are joined with commas are carried out in order, with the memory package switched
-- off: a level is then enabled or not as the last command on it says, and as before if there is none;
-- nothing else of the state of the log changes.
pub log_cmds_proc-wanted :
    (cs : List LevelCmd) (e w i t : Bool) (l : Logs)
    → IsMemoryOff l
    → log_cmds_proc (join (map written cs)) (record l { log_write = levels e w i t })
      ≡ ok (record l {
        log_write =
            levels
              (wanted cs Level.error e)
              (wanted cs Level.warning w)
              (wanted cs Level.info i)
              (wanted cs Level.trace t);
      })
unfolding log_cmds_proc wanted
log_cmds_proc-wanted [] e w i t l off = refl
log_cmds_proc-wanted (c ∷ cs) e w i t l off =
    rw
      (
        first_sign c cs,
        (csv_str_lst-join (map written (c ∷ cs)) (All-IsItem (c ∷ cs))).0,
        mem_traces_off (length (map written (c ∷ cs))) (record l { log_write = levels e w i t })
            off,
        each_elem-written (c ∷ cs) e w i t l,
      )
      (mem_traces_off (length (map written (c ∷ cs))) (record l { log_write = _ }) off)

-- What is no command changes no level: an item that is too long, has no sign, or has a letter of no
-- level at its second place is only warned of.
pub log_cmd-ignored :
    (sign c : ℕ) (rest : Bytes) (l : Logs)
    → (length rest ≢ 0
        → log_cmd (sign ∷ c ∷ rest) l
          ≡ warn ((sign ∷ c ∷ rest) ++ codes " ignored: Length must be 2") l)
      × (is_sign sign ≡ false
          → log_cmd (sign ∷ c ∷ []) l
            ≡ warn ((sign ∷ c ∷ []) ++ codes " ignored: First character must be '+' or '-'") l)
      × (is_sign sign ≡ true
          → loglvl_from_char c l.log_write ≡ 0
          → log_cmd (sign ∷ c ∷ []) l
            ≡ warn ((sign ∷ c ∷ []) ++ codes " ignored: Log level is invalid") l)
unfolding log_cmd
log_cmd-ignored sign c rest l = (
  λ h. let long : ltb 2 (length (sign ∷ c ∷ rest)) ≡ true = ground arith in rw long refl,
  λ h. rw h refl,
  λ h k. rw (h, k) refl,
)

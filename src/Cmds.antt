-- ===== src/Cmds.antt =====
-- master/src/utils/logcmds.c, master/src/utils/logpkgcmds.c and master/src/utils/cmdrtns.c: the
-- commands that change what is logged, and the text that answers them.
pub mod Levels
pub mod Requests
mod Tests
use google_test_c_programs.Base.{
  ℕ, zero, suc, ◌+◌, Bool, true, false, not, ◌&&◌, ◌||◌, Option, none, some, List, [], ◌∷◌, ◌++◌,
  ltb, ◌==◌, if◌then◌else◌, length, get_elem?, take, drop, bytes_eq,
}
use google_test_c_programs.Base.Int.{ℤ, pos, negsuc, ltb_ℤ}
use google_test_c_programs.Base.Outcome.{Outcome, ok, ◌>>=◌, deref}
use google_test_c_programs.Base.CString.{Bytes, codes, c_str}
use google_test_c_programs.StrUtils.{buf_to_str, buf_to_upper_case}
use google_test_c_programs.CyclicStr.{string_at}
use google_test_c_programs.Csv.{csv_str_lst}
use google_test_c_programs.Logging.{
  LogPkg, Logs, log_lvl_enable, log_lvl_disable, log_lvls_info, loglvl_from_char, log_str_f,
  log_pkg_info, log_pkg_enable, log_pkg_disable, log_pkg_from_str, mem_trace, mem_traces,
}

-- The character at a position of a string, or its null byte.
abbrev pub char_at : Bytes → ℕ → Outcome ℕ
char_at s i = deref (get_elem? (s ++ 0 ∷ []) i)

abbrev pub warn : Bytes → Logs → Outcome Logs
warn text l = log_str_f (codes "WARN") (some text) l

abbrev pub is_sign : ℕ → Bool
is_sign c = c == b'+' || c == b'-'

-- `loglvlfn(loglvl)`
unfoldable pub call_loglvlfn : ℕ → ℕ → Logs → Logs
call_loglvlfn sign loglvl l =
    if sign == b'+'
    then record l { log_write = (log_lvl_enable loglvl l.log_write).1 }
    else record l { log_write = (log_lvl_disable loglvl l.log_write).1 }

-- The body of the loop of `procLogCmds`.
unfoldable pub log_cmd : Bytes → Logs → Outcome Logs
log_cmd str l = char_at str 0 >>= λ sign.
    if ltb 2 (length str)
    then warn (str ++ codes " ignored: Length must be 2") l
    else if not (is_sign sign)
    then warn (str ++ codes " ignored: First character must be '+' or '-'") l
    else char_at str 1 >>= λ c.
        let loglvl = loglvl_from_char c l.log_write in
        if loglvl == 0
        then warn (str ++ codes " ignored: Log level is invalid") l
        else ok (call_loglvlfn sign loglvl l)

-- `for (strlst_t * elem = *head; elem; elem = elem->next)`
each_elem : (Bytes → Logs → Outcome Logs) → List Bytes → Logs → Outcome Logs
each_elem f [] l = ok l
each_elem f (s ∷ ss) l = f s l >>= λ l'. each_elem f ss l'

-- The elements are allocated before the loop and released behind it.
abbrev pub with_traces : ℕ → (Logs → Outcome Logs) → Logs → Outcome Logs
with_traces items body l =
    mem_traces items l >>= λ allocated. body allocated >>= λ done. mem_traces items done

-- `if (!*cmd || *cmd == '\n')`
abbrev nothing_to_do : Bytes → Bool
nothing_to_do [] = true
nothing_to_do (c ∷ cmd) = c == 10

unfoldable pub log_cmds_proc : Bytes → Logs → Outcome Logs
unfolding each_elem
log_cmds_proc cmd l =
    if nothing_to_do cmd
    then ok l
    else csv_str_lst cmd [] >>= λ (items, strlst). with_traces items (each_elem log_cmd strlst) l

-- `LogPkg(logpkg)`, whose text is not used.
unfoldable pub call_log_pkg : ℕ → LogPkg → Logs → Outcome Logs
call_log_pkg sign logpkg l =
    (if sign == b'+' then log_pkg_enable logpkg l else log_pkg_disable logpkg l) >>= λ (p, l').
    ok l'

-- The body of the loop of `procPkgCmds`.
unfoldable pub pkg_cmd : Bytes → Logs → Outcome Logs
pkg_cmd str l = char_at str 0 >>= λ sign.
    if not (is_sign sign)
    then warn (str ++ codes " ignored: First character must be '+' or '-'") l
    else elim (log_pkg_from_str (drop 1 str) l.pkg_write) [
      | LogPkg.no_pkg ↦ warn (codes "Invalid package " ++ drop 1 str) l
      | LogPkg.memory ↦ call_log_pkg sign LogPkg.memory l
      | LogPkg.wire ↦ call_log_pkg sign LogPkg.wire l
    ]

unfoldable pub log_pkg_cmds_proc : Bytes → Logs → Outcome Logs
unfolding each_elem
log_pkg_cmds_proc cmd l =
    if nothing_to_do cmd
    then ok l
    else csv_str_lst cmd [] >>= λ (items, strlst). with_traces items (each_elem pkg_cmd strlst) l

-- The length of the response and the response, which is allocated.
unfoldable pub fmt_response : Bytes → Logs → Outcome ((ℕ × Bytes) × Logs)
fmt_response str l = mem_trace l >>= λ l'. ok ((length str, str), l')

abbrev levels_response : Logs → Outcome ((ℕ × Bytes) × Logs)
levels_response l = log_lvls_info l.log_write l.cyclic >>= λ (p, c).
    fmt_response (string_at c p) (record l { cyclic = c })

abbrev packages_response : Logs → Outcome ((ℕ × Bytes) × Logs)
packages_response l = log_pkg_info l.pkg_write l.cyclic >>= λ (p, c).
    fmt_response (string_at c p) (record l { cyclic = c })

-- `memcmp(wkCmd, s, n)` at equality, where `n` is the length of `s`.
abbrev starts_with : Bytes → Bytes → Bool
starts_with s wk_cmd = bytes_eq (take (length s) wk_cmd) s

-- `cmdLen == 4`
abbrev is_4 : ℤ → Bool
is_4 (pos n) = n == 4
is_4 (negsuc n) = false

-- The tests of `CmdProc` on the command in upper case.
unfoldable pub dispatch : Bytes → ℤ → Logs → Outcome ((ℕ × Bytes) × Logs)
dispatch wk_cmd cmd_len l =
    if starts_with (codes "?LOG:") wk_cmd
    then (log_cmds_proc (c_str (drop 5 wk_cmd)) l >>= levels_response)
    else if is_4 cmd_len && starts_with (codes "?LOG") wk_cmd
    then levels_response l
    else if starts_with (codes "?PKG:") wk_cmd
    then (log_pkg_cmds_proc (c_str (drop 5 wk_cmd)) l >>= packages_response)
    else if is_4 cmd_len && starts_with (codes "?PKG") wk_cmd
    then packages_response l
    else fmt_response (codes "ERROR: Invalid request (unknown)") l

-- `stack` is what stands in the array `wkCmd` of `cmd_len + 1` bytes before it is written.
unfoldable pub cmd_proc : Bytes → ℤ → Bytes → Logs → Outcome ((ℕ × Bytes) × Logs)
cmd_proc cmd cmd_len stack l =
    if ltb_ℤ cmd_len (pos 4)
    then fmt_response (codes "ERROR: Invalid request (length)") l
    else buf_to_str cmd cmd_len >>= λ (len, str).
        buf_to_upper_case (str ++ 0 ∷ drop (len + 1) stack) cmd_len >>= λ wk_cmd.
        dispatch wk_cmd cmd_len l

-- ===== src/Logging.antt =====
-- master/src/utils/logrtns.c and master/src/utils/logpkgrtns.c: which levels and packages are
-- logged, and what is written. The tables `LogWrite` and `PkgWrite` and the log are one state, with
-- the ring of `FmtStr`; a written line is its level and text, without the columns of time and thread.
pub mod Levels
pub mod Packages
mod Tests
use google_test_c_programs.Base.{
  ℕ, zero, suc, ◌+◌, Bool, true, false, not, ◌||◌, Option, none, some, List, [], ◌∷◌, ◌++◌, map,
  ◌==◌, ◌≡◌, refl, if◌then◌else◌, length, bytes_eq,
}
use google_test_c_programs.Base.Bits.{int_or, int_test}
use google_test_c_programs.Base.Outcome.{Outcome, ok, exited, ◌>>=◌}
use google_test_c_programs.Base.CString.{Bytes, codes, toupper, strlcpy}
use google_test_c_programs.ErrCodes.{ErrCode}
use google_test_c_programs.CyclicStr.{Cyclic, fmt_str}

abbrev pub sz_logmsg_str : ℕ
sz_logmsg_str = 1024

-- `logwrite_t`
pub record LogWrite : Type 0 where
  pub loglvl_str : Bytes
  pub loglvl_char : ℕ
  pub loglvl : ℕ
  pub enabled : Bool

-- `LogWrite[]` with the levels that are enabled.
unfoldable pub levels : Bool → Bool → Bool → Bool → List LogWrite
levels e w i t =
    record { loglvl_str = codes "ERROR"; loglvl_char = b'E'; loglvl = 1; enabled = e }
    ∷ record { loglvl_str = codes "WARN"; loglvl_char = b'W'; loglvl = 2; enabled = w }
    ∷ record { loglvl_str = codes "INFO"; loglvl_char = b'I'; loglvl = 4; enabled = i }
    ∷ record { loglvl_str = codes "TRACE"; loglvl_char = b'T'; loglvl = 8; enabled = t }
    ∷ []

pub data LogPkg : Type 0 where
  memory : LogPkg
  wire : LogPkg
  no_pkg : LogPkg

-- `pkgwrite_t`; the row that ends the table has no name.
pub record PkgWrite : Type 0 where
  pub logpkg_str : Option Bytes
  pub logpkg : LogPkg
  pub enabled : Bool

-- `PkgWrite[]` with the packages that are enabled.
unfoldable pub packages : Bool → Bool → Bool → List PkgWrite
packages m w last =
    record { logpkg_str = some (codes "MEMORY"); logpkg = LogPkg.memory; enabled = m }
    ∷ record { logpkg_str = some (codes "WIRE"); logpkg = LogPkg.wire; enabled = w }
    ∷ record { logpkg_str = none; logpkg = LogPkg.memory; enabled = last }
    ∷ []

pub record Logs : Type 0 where
  pub log_write : List LogWrite
  pub pkg_write : List PkgWrite
  pub cyclic : Cyclic
  pub log : List (Bytes × Bytes)
  -- What `vsnprintf` gives for the line of an allocation or a release, which holds an address, at
  -- the number of lines already written.
  pub mem_text : ℕ → Option Bytes

enabled_loop : ℕ → List LogWrite → ℕ
enabled_loop mask [] = mask
enabled_loop mask (lw ∷ lws) = enabled_loop (if lw.enabled then int_or mask lw.loglvl else mask) lws

unfoldable pub log_lvls_enabled : List LogWrite → ℕ
unfolding enabled_loop
log_lvls_enabled lws = enabled_loop 0 lws

-- The loops of `LogLvlEnable` and `LogLvlDisable`: the mask and the table.
enable_loop : ℕ → ℕ → List LogWrite → ℕ × List LogWrite
enable_loop loglvl mask [] = (mask, [])
enable_loop loglvl mask (lw ∷ lws) =
    let now = if int_test lw.loglvl loglvl then true else lw.enabled in
    let rest = enable_loop loglvl (if now then int_or mask lw.loglvl else mask) lws in
    (rest.0, record lw { enabled = now } ∷ rest.1)

unfoldable pub log_lvl_enable : ℕ → List LogWrite → ℕ × List LogWrite
unfolding enable_loop
log_lvl_enable loglvl lws = enable_loop loglvl 0 lws

disable_loop : ℕ → ℕ → List LogWrite → ℕ × List LogWrite
disable_loop loglvl mask [] = (mask, [])
disable_loop loglvl mask (lw ∷ lws) =
    let now = if int_test lw.loglvl loglvl then false else lw.enabled in
    let rest = disable_loop loglvl (if now then mask else int_or mask lw.loglvl) lws in
    (rest.0, record lw { enabled = now } ∷ rest.1)

unfoldable pub log_lvl_disable : ℕ → List LogWrite → ℕ × List LogWrite
unfolding disable_loop
log_lvl_disable loglvl lws = disable_loop loglvl 0 lws

-- A comma, unless nothing is written before it.
abbrev separator : Bytes → Bytes
separator [] = []
separator (b ∷ bs) = b',' ∷ []

-- The array that `LogLvlsInfo` fills: `written` is what stands in it.
info_loop : Bytes → List LogWrite → Bytes
info_loop written [] = written
info_loop written (lw ∷ lws) =
    let sign = if lw.enabled then b'+' else b'-' in
    info_loop (written ++ separator written ++ sign ∷ lw.loglvl_char ∷ []) lws

unfoldable pub log_lvls_info : List LogWrite → Cyclic → Outcome (ℕ × Cyclic)
unfolding info_loop
log_lvls_info lws c = fmt_str (some (codes "Current log levels are " ++ info_loop [] lws)) c

unfoldable pub loglvl_from_char : ℕ → List LogWrite → ℕ
loglvl_from_char c [] = 0
loglvl_from_char c (lw ∷ lws) =
    if lw.loglvl_char == toupper c then lw.loglvl else loglvl_from_char c lws

unfoldable pub loglvl_enabled : Bytes → List LogWrite → Bool
loglvl_enabled s [] = false
loglvl_enabled s (lw ∷ lws) = if bytes_eq s lw.loglvl_str then lw.enabled else loglvl_enabled s lws

abbrev logmsg : Bytes → Bytes → Logs → Logs
logmsg level str l = record l { log = l.log ++ (level, str) ∷ [] }

-- `LogError`, `LogWarn`, `LogInfo` and `LogTrace`, by the name of their level.
unfoldable pub log_str : Bytes → Bytes → Logs → Logs
log_str level str l = if loglvl_enabled level l.log_write then logmsg level str l else l

-- `LogErrorF`, `LogWarnF`, `LogInfoF` and `LogTraceF`; `formatted` is what `vsnprintf` gives at a
-- large enough array, none where it fails.
unfoldable pub log_str_f : Bytes → Option Bytes → Logs → Outcome Logs
log_str_f level formatted l =
    if not (loglvl_enabled level l.log_write) then ok l else elim formatted [
      | none ↦ exited ErrCode.syscall_vsnprintf
      | some text ↦ ok (log_str level (strlcpy text sz_logmsg_str) l)
    ]

abbrev pkg_no : LogPkg → ℕ
pkg_no LogPkg.memory = 0
pkg_no LogPkg.wire = 1
pkg_no LogPkg.no_pkg = 2

-- `PkgWrite[logpkg].enabled = b` and `PkgWrite[logpkg].enabled`
abbrev set_enabled : ℕ → Bool → List PkgWrite → List PkgWrite
set_enabled n b [] = []
set_enabled zero b (pw ∷ pws) = record pw { enabled = b } ∷ pws
set_enabled (suc n) b (pw ∷ pws) = pw ∷ set_enabled n b pws

abbrev enabled_at : ℕ → List PkgWrite → Bool
enabled_at n [] = false
enabled_at zero (pw ∷ pws) = pw.enabled
enabled_at (suc n) (pw ∷ pws) = enabled_at n pws

pkg_info_loop : Bytes → List PkgWrite → Bytes
pkg_info_loop written [] = written
pkg_info_loop written (pw ∷ pws) =
    let sign = if pw.enabled then b'+' else b'-' in
    elim pw.logpkg_str [
      | none ↦ written
      | some name ↦ pkg_info_loop (written ++ separator written ++ sign ∷ name) pws
    ]

-- The text is given to `FmtStr` as the format; it has no `%`.
unfoldable pub log_pkg_info : List PkgWrite → Cyclic → Outcome (ℕ × Cyclic)
unfolding pkg_info_loop
log_pkg_info pws c = fmt_str (some (pkg_info_loop [] pws)) c

unfoldable pub log_pkg_enable : LogPkg → Logs → Outcome (ℕ × Logs)
log_pkg_enable logpkg l = do
  let pws = set_enabled (pkg_no logpkg) true l.pkg_write
  (p, c) ← log_pkg_info pws l.cyclic
  ok (p, record l { pkg_write = pws; cyclic = c })

unfoldable pub log_pkg_disable : LogPkg → Logs → Outcome (ℕ × Logs)
log_pkg_disable logpkg l = do
  let pws = set_enabled (pkg_no logpkg) false l.pkg_write
  (p, c) ← log_pkg_info pws l.cyclic
  ok (p, record l { pkg_write = pws; cyclic = c })

-- `strcasecmp` at equality.
abbrev case_eq : Bytes → Bytes → Bool
case_eq a b = bytes_eq (map toupper a) (map toupper b)

unfoldable pub log_pkg_from_str : Bytes → List PkgWrite → LogPkg
log_pkg_from_str s [] = LogPkg.no_pkg
log_pkg_from_str s (pw ∷ pws) = elim pw.logpkg_str [
  | none ↦ LogPkg.no_pkg
  | some name ↦ if case_eq s name then pw.logpkg else log_pkg_from_str s pws
]

unfoldable pub log_pkg_trace : LogPkg → Bytes → Logs → Logs
log_pkg_trace logpkg str l =
    if not (enabled_at (pkg_no logpkg) l.pkg_write) then l else log_str (codes "TRACE") str l

unfoldable pub log_pkg_trace_f : LogPkg → Option Bytes → Logs → Outcome Logs
log_pkg_trace_f logpkg formatted l =
    if not (enabled_at (pkg_no logpkg) l.pkg_write) then ok l else elim formatted [
      | none ↦ exited ErrCode.syscall_vsnprintf
      | some text ↦ ok (log_str (codes "TRACE") (strlcpy text sz_logmsg_str) l)
    ]

-- The line that `MemAlloc` and `MemFree` write.
unfoldable pub mem_trace : Logs → Outcome Logs
mem_trace l = log_pkg_trace_f LogPkg.memory (l.mem_text (length l.log)) l

-- The lines of `n` allocations or releases.
unfoldable pub mem_traces : ℕ → Logs → Outcome Logs
mem_traces zero l = ok l
mem_traces (suc n) l = mem_trace l >>= λ l'. mem_traces n l'

-- Whether the package of these lines is switched off.
abbrev pub IsMemoryOff : Logs → Type 0
IsMemoryOff l = enabled_at (pkg_no LogPkg.memory) l.pkg_write ≡ false

pub mem_trace_off : (l : Logs) → IsMemoryOff l → mem_trace l ≡ ok l
unfolding mem_trace log_pkg_trace_f
mem_trace_off l off = rw off refl

pub mem_traces_off : (n : ℕ) (l : Logs) → IsMemoryOff l → mem_traces n l ≡ ok l
unfolding mem_traces
mem_traces_off zero l off = refl
mem_traces_off (suc n) l off = rw (mem_trace_off l off) (mem_traces_off n l off)

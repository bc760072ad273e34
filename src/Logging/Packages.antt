-- ===== src/Logging/Packages.antt =====
-- The packages: names, switches and what is traced.
use google_test_c_programs.Base.{
  ℕ, ◌≡◌, ◌≢◌, refl, ◌∙◌, Bool, true, false, ◌&&◌, some, List, [], ◌∷◌, ◌++◌, map, arith, inl, inr,
  if◌then◌else◌, All-append, bytes_eq, eq_of_bytes_eq, Bool-cases,
}
use google_test_c_programs.Base.Outcome.{ok}
use google_test_c_programs.Base.CString.{Bytes, codes, Lacks, toupper}
use google_test_c_programs.CyclicStr.{Cyclic, IsValid, string_at, fmt_str}
use google_test_c_programs.CyclicStr.Keeps.{fmt_str_lem}
use google_test_c_programs.Logging.{
  LogPkg, PkgWrite, packages, Logs, loglvl_enabled, log_str, log_pkg_info, log_pkg_enable,
  log_pkg_disable, log_pkg_from_str, log_pkg_trace,
}

differs : (s name : Bytes) → map toupper s ≢ name → bytes_eq (map toupper s) name ≡ false
differs s name h = elim (Bool-cases (bytes_eq (map toupper s) name)) [
  | inl e ↦ absurd (h (eq_of_bytes_eq _ name e))
  | inr e ↦ e
]

-- A name in upper or lower case is found; any other string is no package.
pub log_pkg_from_str_lem :
    (s : Bytes) (m w last : Bool)
    → (map toupper s ≡ codes "MEMORY" → log_pkg_from_str s (packages m w last) ≡ LogPkg.memory)
      × (map toupper s ≡ codes "WIRE" → log_pkg_from_str s (packages m w last) ≡ LogPkg.wire)
      × (map toupper s ≢ codes "MEMORY"
          → map toupper s ≢ codes "WIRE"
          → log_pkg_from_str s (packages m w last) ≡ LogPkg.no_pkg)
unfolding log_pkg_from_str packages toupper
log_pkg_from_str_lem s m w last =
    (λ h. rw h refl, λ h. rw h refl, λ h k. rw (differs s _ h, differs s _ k) refl)

-- Whether a package is logged, by the table.
abbrev pub logged : LogPkg → Bool → Bool → Bool → Bool
logged LogPkg.memory m w last = m
logged LogPkg.wire m w last = w
logged LogPkg.no_pkg m w last = last

-- A message of a package is written, as a TRACE line, if the package and the TRACE level are both
-- enabled, and otherwise the state is as it was.
pub log_pkg_trace_lem :
    (pkg : LogPkg) (str : Bytes) (m w last : Bool) (l : Logs)
    → let l₀ = record l { pkg_write = packages m w last } in
      log_pkg_trace pkg str l₀ ≡ (
        if logged pkg m w last && loglvl_enabled (codes "TRACE") l.log_write
        then record l₀ { log = l.log ++ (codes "TRACE", str) ∷ [] }
        else l₀)
unfolding log_pkg_trace log_str packages
log_pkg_trace_lem LogPkg.memory str true w last l = refl
log_pkg_trace_lem LogPkg.memory str false w last l = refl
log_pkg_trace_lem LogPkg.wire str m true last l = refl
log_pkg_trace_lem LogPkg.wire str m false last l = refl
log_pkg_trace_lem LogPkg.no_pkg str m w true l = refl
log_pkg_trace_lem LogPkg.no_pkg str m w false l = refl

-- What `LogPkgInfo` says.
abbrev sign : Bool → ℕ
sign on = if on then b'+' else b'-'

unfoldable pub packages_text : Bool → Bool → Bytes
packages_text m w = sign m ∷ codes "MEMORY," ++ sign w ∷ codes "WIRE"

sign_ne : (on : Bool) → sign on ≢ 0
sign_ne true = omega arith
sign_ne false = omega arith

packages_text-Lacks : (m w : Bool) → Lacks 0 (packages_text m w)
unfolding packages_text
packages_text-Lacks m w = (
  sign_ne m,
  All-append (λ b. b ≢ 0) (codes "MEMORY,") (sign w ∷ codes "WIRE") (omega arith)
      (sign_ne w, omega arith),
)

log_pkg_info-packages_text :
    (m w last : Bool) (c : Cyclic)
    → log_pkg_info (packages m w last) c ≡ fmt_str (some (packages_text m w)) c
unfolding log_pkg_info packages packages_text
log_pkg_info-packages_text m w last c = refl

info_run :
    (m w last : Bool) (c : Cyclic)
    → IsValid c
    → (p : ℕ) × (c' : Cyclic) × (log_pkg_info (packages m w last) c ≡ ok (p, c'))
      × (string_at c' p ≡ packages_text m w)
unfolding packages_text
info_run m w last c v =
    let (p, c', run, read) =
      (fmt_str_lem (packages_text m w) c v (packages_text-Lacks m w)).2 (omega arith) in
    (p, c', log_pkg_info-packages_text m w last c ∙ run, read)

-- The switch for one package, as `on` says, in the table.
abbrev pub switched : LogPkg → Bool → Bool → Bool → Bool → List PkgWrite
switched LogPkg.memory on m w last = packages on w last
switched LogPkg.wire on m w last = packages m on last
switched LogPkg.no_pkg on m w last = packages m w on

abbrev pub switched_text : LogPkg → Bool → Bool → Bool → Bytes
switched_text LogPkg.memory on m w = packages_text on w
switched_text LogPkg.wire on m w = packages_text m on
switched_text LogPkg.no_pkg on m w = packages_text m w

-- `LogPkgEnable` and `LogPkgDisable` change the switch of their package only, and return the text that
-- tells the switches of both packages.
pub log_pkg_enable_lem :
    (pkg : LogPkg) (m w last : Bool) (l : Logs)
    → IsValid l.cyclic
    → let l₀ = record l { pkg_write = packages m w last } in
      ((p : ℕ) × (c' : Cyclic) × (log_pkg_enable pkg l₀
          ≡ ok (p, record l { pkg_write = switched pkg true m w last; cyclic = c' }))
        × (string_at c' p ≡ switched_text pkg true m w))
      × ((p : ℕ) × (c' : Cyclic) × (log_pkg_disable pkg l₀
            ≡ ok (p, record l { pkg_write = switched pkg false m w last; cyclic = c' }))
          × (string_at c' p ≡ switched_text pkg false m w))
unfolding log_pkg_enable log_pkg_disable packages
log_pkg_enable_lem LogPkg.memory m w last l v =
    let (p, c, run, read) = info_run true w last l.cyclic v in
    let (p', c', run', read') = info_run false w last l.cyclic v in
    ((p, c, rw run refl, read), (p', c', rw run' refl, read'))
log_pkg_enable_lem LogPkg.wire m w last l v =
    let (p, c, run, read) = info_run m true last l.cyclic v in
    let (p', c', run', read') = info_run m false last l.cyclic v in
    ((p, c, rw run refl, read), (p', c', rw run' refl, read'))
log_pkg_enable_lem LogPkg.no_pkg m w last l v =
    let (p, c, run, read) = info_run m w true l.cyclic v in
    let (p', c', run', read') = info_run m w false l.cyclic v in
    ((p, c, rw run refl, read), (p', c', rw run' refl, read'))

-- ===== src/Logging/Levels.antt =====
-- What `LogLvlEnable` and `LogLvlDisable` do to the table of levels, and what is logged.
use google_test_c_programs.Base.{
  ℕ, zero, suc, ◌+◌, ◌/◌, ◌%◌, ◌^◌, ◌≡◌, refl, ◌∙◌, ap, Bool, true, false, not, ◌&&◌, ◌||◌, Option,
  none, some, List, [], ◌∷◌, ◌++◌, map, arith, ◌==◌, if◌then◌else◌, take,
}
use google_test_c_programs.Base.Bits.{bits_and, bits_or, int_or, int_test}
use google_test_c_programs.Base.Outcome.{ok, exited}
use google_test_c_programs.Base.CString.{Bytes}
use google_test_c_programs.ErrCodes.{ErrCode}
use google_test_c_programs.Logging.{
  LogWrite, levels, Logs, enabled_loop, log_lvls_enabled, enable_loop, log_lvl_enable, disable_loop,
  log_lvl_disable, loglvl_enabled, log_str, log_str_f,
}

-- Bit `k` of a mask.
abbrev pub bit : ℕ → ℕ → Bool
bit k mask = mask / 2 ^ k % 2 == 1

-- The mask of four levels.
abbrev flag : Bool → ℕ → ℕ
flag true n = n
flag false n = 0

abbrev pub mask_of : Bool → Bool → Bool → Bool → ℕ
mask_of e w i t = flag e 1 + flag w 2 + flag i 4 + flag t 8

bits_and_zero : (w b : ℕ) → bits_and w 0 b ≡ 0
unfolding bits_and
bits_and_zero zero b = refl
bits_and_zero (suc w) b = omega (arith, bits_and_zero w (b / 2))

test_1 : (n : ℕ) → int_test 1 n ≡ bit 0 n
unfolding bits_and
test_1 n = ground (arith, bits_and_zero 31 (n / 2))

test_2 : (n : ℕ) → int_test 2 n ≡ bit 1 n
unfolding bits_and
test_2 n = ground (arith, bits_and_zero 30 (n / 2 / 2))

test_4 : (n : ℕ) → int_test 4 n ≡ bit 2 n
unfolding bits_and
test_4 n = ground (arith, bits_and_zero 29 (n / 2 / 2 / 2))

test_8 : (n : ℕ) → int_test 8 n ≡ bit 3 n
unfolding bits_and
test_8 n = ground (arith, bits_and_zero 28 (n / 2 / 2 / 2 / 2))

-- What happens to a row.
enable : ℕ → LogWrite → LogWrite
enable n lw = record lw { enabled = if int_test lw.loglvl n then true else lw.enabled }

disable : ℕ → LogWrite → LogWrite
disable n lw = record lw { enabled = if int_test lw.loglvl n then false else lw.enabled }

-- The mask of the levels that are not enabled.
disabled_mask : ℕ → List LogWrite → ℕ
disabled_mask mask [] = mask
disabled_mask mask (lw ∷ lws) =
    disabled_mask (if lw.enabled then mask else int_or mask lw.loglvl) lws

enable_loop-ok :
    (n : ℕ) (lws : List LogWrite) (mask : ℕ)
    → enable_loop n mask lws ≡ (enabled_loop mask (map (enable n) lws), map (enable n) lws)
unfolding enable_loop enabled_loop enable
enable_loop-ok n [] mask = refl
enable_loop-ok n (lw ∷ lws) mask = ap (λ r. (r.0, enable n lw ∷ r.1)) (enable_loop-ok n lws _)

disable_loop-ok :
    (n : ℕ) (lws : List LogWrite) (mask : ℕ)
    → disable_loop n mask lws ≡ (disabled_mask mask (map (disable n) lws), map (disable n) lws)
unfolding disable_loop disabled_mask disable
disable_loop-ok n [] mask = refl
disable_loop-ok n (lw ∷ lws) mask = ap (λ r. (r.0, disable n lw ∷ r.1)) (disable_loop-ok n lws _)

enabled_mask : (e w i t : Bool) → enabled_loop 0 (levels e w i t) ≡ mask_of e w i t
unfolding enabled_loop levels bits_or
enabled_mask true true true true = refl
enabled_mask true true true false = refl
enabled_mask true true false true = refl
enabled_mask true true false false = refl
enabled_mask true false true true = refl
enabled_mask true false true false = refl
enabled_mask true false false true = refl
enabled_mask true false false false = refl
enabled_mask false true true true = refl
enabled_mask false true true false = refl
enabled_mask false true false true = refl
enabled_mask false true false false = refl
enabled_mask false false true true = refl
enabled_mask false false true false = refl
enabled_mask false false false true = refl
enabled_mask false false false false = refl

disabled_mask-levels :
    (e w i t : Bool) → disabled_mask 0 (levels e w i t) ≡ mask_of (not e) (not w) (not i) (not t)
unfolding disabled_mask levels bits_or
disabled_mask-levels true true true true = refl
disabled_mask-levels true true true false = refl
disabled_mask-levels true true false true = refl
disabled_mask-levels true true false false = refl
disabled_mask-levels true false true true = refl
disabled_mask-levels true false true false = refl
disabled_mask-levels true false false true = refl
disabled_mask-levels true false false false = refl
disabled_mask-levels false true true true = refl
disabled_mask-levels false true true false = refl
disabled_mask-levels false true false true = refl
disabled_mask-levels false true false false = refl
disabled_mask-levels false false true true = refl
disabled_mask-levels false false true false = refl
disabled_mask-levels false false false true = refl
disabled_mask-levels false false false false = refl

if_or : (b e : Bool) → (if b then true else e) ≡ (b || e)
if_or true e = refl
if_or false e = refl

if_and : (b e : Bool) → (if b then false else e) ≡ (not b && e)
if_and true e = refl
if_and false e = refl

enable-levels :
    (e w i t : Bool) (n : ℕ)
    → map (enable n) (levels e w i t)
      ≡ levels (bit 0 n || e) (bit 1 n || w) (bit 2 n || i) (bit 3 n || t)
unfolding enable levels
enable-levels e w i t n =
    rw
      (
        test_1 n,
        test_2 n,
        test_4 n,
        test_8 n,
        if_or (bit 0 n) e,
        if_or (bit 1 n) w,
        if_or (bit 2 n) i,
        if_or (bit 3 n) t,
      )
      refl

disable-levels :
    (e w i t : Bool) (n : ℕ)
    → map (disable n) (levels e w i t)
      ≡ levels (not (bit 0 n) && e) (not (bit 1 n) && w) (not (bit 2 n) && i) (not (bit 3 n) && t)
unfolding disable levels
disable-levels e w i t n =
    rw
      (
        test_1 n,
        test_2 n,
        test_4 n,
        test_8 n,
        if_and (bit 0 n) e,
        if_and (bit 1 n) w,
        if_and (bit 2 n) i,
        if_and (bit 3 n) t,
      )
      refl

-- `LogLvlEnable` enables the levels whose bits are set in its argument, leaves the others, and returns
-- the mask of the levels that are then enabled, which is what `LogLvlsEnabled` returns.
pub log_lvl_enable_lem :
    (e w i t : Bool) (n : ℕ)
    → let lws = levels (bit 0 n || e) (bit 1 n || w) (bit 2 n || i) (bit 3 n || t) in
      (log_lvl_enable n (levels e w i t)
        ≡ (mask_of (bit 0 n || e) (bit 1 n || w) (bit 2 n || i) (bit 3 n || t), lws))
      × (log_lvls_enabled lws ≡ mask_of (bit 0 n || e) (bit 1 n || w) (bit 2 n || i) (bit 3 n || t))
unfolding log_lvl_enable log_lvls_enabled
log_lvl_enable_lem e w i t n = (
  enable_loop-ok n (levels e w i t) 0
      ∙ ap (λ lws. (enabled_loop 0 lws, lws)) (enable-levels e w i t n)
      ∙ ap (λ m. (m, levels (bit 0 n || e) (bit 1 n || w) (bit 2 n || i) (bit 3 n || t)))
          (enabled_mask (bit 0 n || e) (bit 1 n || w) (bit 2 n || i) (bit 3 n || t)),
  enabled_mask (bit 0 n || e) (bit 1 n || w) (bit 2 n || i) (bit 3 n || t),
)

-- `LogLvlDisable` disables the levels whose bits are set in its argument, leaves the others, and
-- returns the mask of the levels that are then disabled.
pub log_lvl_disable_lem :
    (e w i t : Bool) (n : ℕ)
    → log_lvl_disable n (levels e w i t) ≡ (
      mask_of
          (not (not (bit 0 n) && e))
          (not (not (bit 1 n) && w))
          (not (not (bit 2 n) && i))
          (not (not (bit 3 n) && t)),
      levels (not (bit 0 n) && e) (not (bit 1 n) && w) (not (bit 2 n) && i) (not (bit 3 n) && t),
    )
unfolding log_lvl_disable
log_lvl_disable_lem e w i t n =
    disable_loop-ok n (levels e w i t) 0
    ∙ ap (λ lws. (disabled_mask 0 lws, lws)) (disable-levels e w i t n)
    ∙ ap
        (λ m. (
          m,
          levels (not (bit 0 n) && e) (not (bit 1 n) && w) (not (bit 2 n) && i)
              (not (bit 3 n) && t),
        ))
        (disabled_mask-levels (not (bit 0 n) && e) (not (bit 1 n) && w) (not (bit 2 n) && i)
          (not (bit 3 n) && t))

-- A message of a level that is not enabled is dropped before it is formatted. If the level is enabled,
-- the message is written behind the lines of the log, cut to the 1023 bytes that fit the array, and a
-- message that cannot be formatted ends the process.
pub log_str_f_lem :
    (level text : Bytes) (formatted : Option Bytes) (l : Logs)
    → (loglvl_enabled level l.log_write ≡ false → log_str_f level formatted l ≡ ok l)
      × (loglvl_enabled level l.log_write ≡ true
          → (log_str_f level none l ≡ exited ErrCode.syscall_vsnprintf)
            × (log_str_f level (some text) l
                ≡ ok (record l { log = l.log ++ (level, take 1023 text) ∷ [] })))
unfolding log_str_f log_str
log_str_f_lem level text formatted l = (λ h. rw h refl, λ h. (rw h refl, rw h refl))

-- ===== src/Cmds/Requests.antt =====
-- Whole requests: from the bytes that come in to the response.
use google_test_c_programs.Base.{
  ℕ, zero, suc, ◌+◌, ◌-◌, ◌≤◌, ◌≡◌, ◌≢◌, refl, ◌∙◌, ap, sym, Bool, true, false, some, List, [], ◌∷◌,
  ◌++◌, map, arith, if◌then◌else◌, length, take, drop, replicate, All, All-append, length-append,
  length-drop, append-nil,
}
use google_test_c_programs.Base.Int.{pos, ltb_ℤ}
use google_test_c_programs.Base.Outcome.{ok, ◌>>=◌}
use google_test_c_programs.Base.CString.{Bytes, codes, Lacks, c_str-append, toupper}
use google_test_c_programs.StrUtils.{space, buf_to_str}
use google_test_c_programs.StrUtils.Buffers.{
  EndsInk, str_to_buf_lem, buf_to_str-str_to_buf, buf_to_upper_case_lem,
}
use google_test_c_programs.CyclicStr.{Cyclic, IsValid, fmt_str}
use google_test_c_programs.CyclicStr.Keeps.{fmt_str_lem}
use google_test_c_programs.Csv.Split.{join, Lacks-join}
use google_test_c_programs.Logging.{levels, Logs, log_lvls_info, IsMemoryOff, mem_trace_off}
use google_test_c_programs.Cmds.{cmd_proc, dispatch, log_cmds_proc, fmt_response, levels_response}
use google_test_c_programs.Cmds.Levels.{
  Level, LevelCmd, letter, written, wanted, log_cmds_proc-wanted,
}

-- What `LogLvlsInfo` says of the levels.
abbrev sign : Bool → ℕ
sign on = if on then b'+' else b'-'

unfoldable pub levels_text : Bool → Bool → Bool → Bool → Bytes
levels_text e w i t =
    codes "Current log levels are "
    ++ sign e ∷ b'E' ∷ b',' ∷ sign w ∷ b'W' ∷ b',' ∷ sign i ∷ b'I' ∷ b',' ∷ sign t ∷ b'T' ∷ []

sign_ne : (on : Bool) → sign on ≢ 0
sign_ne true = omega arith
sign_ne false = omega arith

levels_text-Lacks : (e w i t : Bool) → Lacks 0 (levels_text e w i t)
unfolding levels_text
levels_text-Lacks e w i t =
    All-append (λ b. b ≢ 0) (codes "Current log levels are ")
      (sign e ∷ b'E' ∷ b',' ∷ sign w ∷ b'W' ∷ b',' ∷ sign i ∷ b'I' ∷ b',' ∷ sign t ∷ b'T' ∷ [])
      (omega arith)
      (
        sign_ne e,
        (
          omega arith,
          (
            omega arith,
            (
              sign_ne w,
              (
                omega arith,
                (
                  omega arith,
                  (sign_ne i, (omega arith, (omega arith, (sign_ne t, (omega arith, tt))))),
                ),
              ),
            ),
          ),
        ),
      )

log_lvls_info-levels_text :
    (e w i t : Bool) (c : Cyclic)
    → log_lvls_info (levels e w i t) c ≡ fmt_str (some (levels_text e w i t)) c
unfolding log_lvls_info levels levels_text
log_lvls_info-levels_text e w i t c = refl

-- What a request for the levels is answered with.
levels_answer :
    (e w i t : Bool) (l : Logs)
    → IsValid l.cyclic
    → IsMemoryOff l
    → (c' : Cyclic) × (levels_response (record l { log_write = levels e w i t })
        ≡ ok ((34, levels_text e w i t), record l { log_write = levels e w i t; cyclic = c' }))
unfolding levels_text fmt_response
levels_answer e w i t l v off =
    let (p, c', run, read) =
      (fmt_str_lem (levels_text e w i t) l.cyclic v (levels_text-Lacks e w i t)).2 (omega arith) in
    (
      c',
      rw
          (
            log_lvls_info-levels_text e w i t l.cyclic,
            run,
            read,
            mem_trace_off (record l { log_write = levels e w i t; cyclic = c' }) off,
          )
          refl,
    )

upper_text :
    (text : Bytes) (k : ℕ) (behind : Bytes)
    → length text ≤ k
    → (junk : Bytes) × (map toupper (take k (text ++ 0 ∷ behind)) ++ drop k (text ++ 0 ∷ behind)
        ≡ map toupper text ++ 0 ∷ junk)
unfolding toupper
upper_text [] zero behind h = (behind, refl)
upper_text [] (suc k) behind h = (map toupper (take k behind) ++ drop k behind, refl)
upper_text (b ∷ text) zero behind h = absurd (omega arith)
upper_text (b ∷ text) (suc k) behind h =
    let (junk, e) = upper_text text k behind (omega arith) in (junk, ap (λ r. toupper b ∷ r) e)

-- A text that is padded with spaces is tested in upper case; what stood in the array is behind its
-- null byte.
cmd_proc-dispatch :
    (text : Bytes) (n : ℕ) (stack : Bytes) (l : Logs)
    → Lacks 0 text
    → EndsInk text
    → length text ≤ suc n
    → 4 ≤ suc n
    → length stack ≡ suc n + 1
    → (junk : Bytes) × (cmd_proc
          (text ++ replicate (suc n - length text) space)
          (pos (suc n))
          stack
          l
        ≡ dispatch (map toupper text ++ 0 ∷ junk) (pos (suc n)) l)
unfolding cmd_proc
cmd_proc-dispatch text n stack l lacks ink fits four room =
    let behind = drop (length text + 1) stack in
    let (junk, e) = upper_text text (suc n) behind fits in
    let read : buf_to_str (text ++ replicate (suc n - length text) space) (pos (suc n))
        ≡ ok (length text, text) =
      ap (λ r. r >>= λ b. buf_to_str b.1 (pos (suc n))) (sym ((str_to_buf_lem text n).0 fits))
      ∙ buf_to_str-str_to_buf text n lacks ink fits in
    let long : suc n ≤ length (text ++ 0 ∷ behind) =
      omega (arith, length-append text (0 ∷ behind), length-drop (length text + 1) stack) in
    let upper = (buf_to_upper_case_lem (text ++ 0 ∷ behind) n long).0 ∙ ap ok e in
    let enough : ltb_ℤ (pos (suc n)) (pos 4) ≡ false = ground arith in
    (junk, rw (enough, read, upper) refl)

length-upper : (s : Bytes) → length (map toupper s) ≡ length s
length-upper [] = refl
length-upper (b ∷ s) = ap suc (length-upper s)

letter_ne : (u : Level) → letter u ≢ 0
letter_ne Level.error = omega arith
letter_ne Level.warning = omega arith
letter_ne Level.info = omega arith
letter_ne Level.trace = omega arith

written-Lacks : (cs : List LevelCmd) → All (λ s. Lacks 0 s) (map written cs)
written-Lacks [] = tt
written-Lacks (LevelCmd.turn_on u ∷ cs) = ((omega arith, (letter_ne u, tt)), written-Lacks cs)
written-Lacks (LevelCmd.turn_off u ∷ cs) = ((omega arith, (letter_ne u, tt)), written-Lacks cs)

-- `dispatch` at a command on levels.
dispatch-levels :
    (body junk : Bytes) (n : ℕ) (l : Logs)
    → Lacks 0 body
    → dispatch ((codes "?LOG:" ++ body) ++ 0 ∷ junk) (pos n) l
      ≡ (log_cmds_proc body l >>= levels_response)
unfolding dispatch
dispatch-levels body junk n l lacks = rw (c_str-append body junk lacks) refl

-- `dispatch` at the query.
dispatch-query :
    (junk : Bytes) (l : Logs) → dispatch (codes "?LOG" ++ 0 ∷ junk) (pos 4) l ≡ levels_response l
unfolding dispatch
dispatch-query junk l = refl

-- A request `?LOG:` and commands, in upper or lower case and padded with spaces, carries the commands
-- out and is answered with the levels that are then enabled: a level is enabled or not as the last
-- command on it says. The memory package is switched off, the ring of returned strings is valid, and
-- the array for the string has one byte more than the buffer; what stood in it before does not matter.
pub cmd_proc-levels :
    (text : Bytes) (n : ℕ) (stack : Bytes) (cs : List LevelCmd) (e w i t : Bool) (l : Logs)
    → IsValid l.cyclic
    → IsMemoryOff l
    → Lacks 0 text
    → EndsInk text
    → length text ≤ suc n
    → length stack ≡ suc n + 1
    → map toupper text ≡ codes "?LOG:" ++ join (map written cs)
    → let e' = wanted cs Level.error e in
      let w' = wanted cs Level.warning w in
      let i' = wanted cs Level.info i in
      let t' = wanted cs Level.trace t in
      (c' : Cyclic) × (cmd_proc
          (text ++ replicate (suc n - length text) space)
          (pos (suc n))
          stack
          (record l { log_write = levels e w i t })
        ≡ ok (
          (34, levels_text e' w' i' t'),
          record l { log_write = levels e' w' i' t'; cyclic = c' },
        ))
cmd_proc-levels text n stack cs e w i t l v off lacks ink fits room up =
    let body = join (map written cs) in
    let long : length text ≡ 5 + length body = omega (arith, length-upper text, ap length up) in
    let l₀ : Logs = record l { log_write = levels e w i t } in
    let (junk, run) = cmd_proc-dispatch text n stack l₀ lacks ink fits (omega arith) room in
    let (c', answer) =
      levels_answer (wanted cs Level.error e) (wanted cs Level.warning w) (wanted cs Level.info i)
        (wanted cs Level.trace t) l v off in
    (
      c',
      run
          ∙ ap (λ u. dispatch (u ++ 0 ∷ junk) (pos (suc n)) l₀) up
          ∙ dispatch-levels body junk (suc n) l₀
              (Lacks-join 0 (map written cs) (omega arith) (written-Lacks cs))
          ∙ ap (λ r. r >>= levels_response) (log_cmds_proc-wanted cs e w i t l off)
          ∙ answer,
    )

-- The request `?LOG`, in upper or lower case, is answered with the levels and changes none,
-- with the memory package switched off.
pub cmd_proc-query :
    (text stack : Bytes) (e w i t : Bool) (l : Logs)
    → IsValid l.cyclic
    → IsMemoryOff l
    → Lacks 0 text
    → EndsInk text
    → length stack ≡ 5
    → map toupper text ≡ codes "?LOG"
    → (c' : Cyclic) × (cmd_proc text (pos 4) stack (record l { log_write = levels e w i t })
        ≡ ok ((34, levels_text e w i t), record l { log_write = levels e w i t; cyclic = c' }))
cmd_proc-query text stack e w i t l v off lacks ink room up =
    let four : length text ≡ 4 = omega (arith, length-upper text, ap length up) in
    let l₀ : Logs = record l { log_write = levels e w i t } in
    let (junk, run) =
      cmd_proc-dispatch text 3 stack l₀ lacks ink (omega arith) (omega arith) (omega arith) in
    let (c', answer) = levels_answer e w i t l v off in
    let no_pad : text ++ replicate (4 - length text) space ≡ text =
      ap (λ k. text ++ replicate (4 - k) space) four ∙ append-nil text in
    (
      c',
      ap (λ b. cmd_proc b (pos 4) stack l₀) (sym no_pad)
          ∙ run
          ∙ ap (λ u. dispatch (u ++ 0 ∷ junk) (pos 4) l₀) up
          ∙ dispatch-query junk l₀
          ∙ answer,
    )

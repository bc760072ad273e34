-- ===== src/StrUtils/Buffers.antt =====
-- Buffers padded with spaces: `StrToBuf`, `BufLen`, `BufToStr`, `BufPrintf`, `BufToUpperCase`.
use google_test_c_programs.Base.{
  ℕ, zero, suc, ◌+◌, ◌-◌, ◌<◌, ◌≤◌, ◌≡◌, ◌≢◌, refl, ◌⊎◌, inl, inr, sym, true, false, none, some, [],
  ◌∷◌, ◌++◌, map, arith, leb, ◌==◌, Bool-cases, length, take, drop, replicate, get_elem?, le→ltb,
  lt→ltb,
}
use mathlib.Core.Path.{subst}
use google_test_c_programs.Base.Int.{pos}
use google_test_c_programs.Base.Outcome.{ok, exited, ◌>>=◌}
use google_test_c_programs.Base.CString.{Bytes, Lacks, toupper}
use google_test_c_programs.ErrCodes.{ErrCode}
use google_test_c_programs.StrUtils.{
  space, buf_len_loop, buf_len, copy_to_null, buf_to_str, copy_str, str_to_buf, buf_printf,
  upper_loop, buf_to_upper_case,
}

-- `k` is what is left of the first `n` bytes without the spaces at their end.
pub record IsTrimmed (buf : Bytes) (n k : ℕ) : Type 0 where
  pub within : k ≤ n
  pub spaces : (i : ℕ) → k ≤ i → i < n → get_elem? buf i ≡ some space
  pub last : (k ≡ 0) ⊎ ((j c : ℕ) × (k ≡ suc j) × (get_elem? buf j ≡ some c) × (c ≢ space))

get_elem?_within : (buf : Bytes) (i : ℕ) → i < length buf → (c : ℕ) × (get_elem? buf i ≡ some c)
get_elem?_within [] i h = absurd (omega arith)
get_elem?_within (x ∷ buf) zero h = (x, refl)
get_elem?_within (x ∷ buf) (suc i) h = get_elem?_within buf i (omega arith)

extend :
    (buf : Bytes) (n k : ℕ)
    → get_elem? buf n ≡ some space
    → IsTrimmed buf n k
    → IsTrimmed buf (suc n) k
extend buf n k e t = record {
  within = omega arith;
  spaces = λ i lo hi. grind (arith, t.spaces);
  last = t.last;
}

buf_len_loop-IsTrimmed :
    (buf : Bytes) (n : ℕ)
    → n ≤ length buf
    → (k : ℕ) × (buf_len_loop buf n ≡ ok k) × IsTrimmed buf n k
unfolding buf_len_loop
buf_len_loop-IsTrimmed buf zero h = (
  0,
  refl,
  record { within = omega arith; spaces = λ i lo hi. absurd (omega arith); last = inl refl },
)
buf_len_loop-IsTrimmed buf (suc n) h =
    let (c, e) = get_elem?_within buf n (omega arith) in
    let (k, run, t) = buf_len_loop-IsTrimmed buf n (omega arith) in
    elim (Bool-cases (c == space)) [
      | inl blank ↦ (k, rw (e, blank) run, extend buf n k (ground arith) t)
      | inr ink ↦ (
        suc n,
        rw (e, ink),
        record {
          within = omega arith;
          spaces = λ i lo hi. absurd (omega arith);
          last = inr (n, c, refl, e, ground arith);
        },
      )
    ]

-- For a positive length within the buffer `BufLen` returns the length without the spaces at the end:
-- all bytes from there on are spaces, and the byte before, if there is one, is not. For the length 0
-- it exits with LENGTH_INVALID.
pub buf_len-IsTrimmed :
    (buf : Bytes) (n : ℕ)
    → suc n ≤ length buf
    → ((k : ℕ) × (buf_len buf (pos (suc n)) ≡ ok k) × IsTrimmed buf (suc n) k)
      × (buf_len buf (pos 0) ≡ exited ErrCode.length_invalid)
unfolding buf_len
buf_len-IsTrimmed buf n h = (buf_len_loop-IsTrimmed buf (suc n) h, refl)

copy_str-append :
    (s rest : Bytes) (c n : ℕ)
    → length s ≤ n
    → copy_str s (replicate n c) ≡ ok (s ++ replicate (n - length s) c)
unfolding copy_str
copy_str-append [] rest c n h = let e : n - 0 ≡ n = omega arith in rw e
copy_str-append (x ∷ s) rest c zero h = absurd (omega arith)
copy_str-append (x ∷ s) rest c (suc n) h =
    let e : suc n - suc (length s) ≡ n - length s = omega arith in
    rw (copy_str-append s rest c n (omega arith), e)

-- A string that fits is written to the front of the buffer, and the rest of the buffer is spaces; its
-- length is returned. A string that is longer than the buffer ends the process with LENGTH_INVALID.
pub str_to_buf_lem :
    (s : Bytes) (n : ℕ)
    → (length s ≤ suc n
        → str_to_buf s (pos (suc n)) ≡ ok (length s, s ++ replicate (suc n - length s) space))
      × (suc n < length s → str_to_buf s (pos (suc n)) ≡ exited ErrCode.length_invalid)
unfolding str_to_buf
str_to_buf_lem s n = (
  λ h. rw (le→ltb (suc n) (length s) h, copy_str-append s [] space (suc n) h),
  λ h. rw (lt→ltb (suc n) (length s) h),
)

-- A string does not end in a space.
abbrev pub EndsInk : Bytes → Type 0
EndsInk [] = Unit
EndsInk (c ∷ []) = c ≢ space
EndsInk (c ∷ d ∷ s) = EndsInk (d ∷ s)

get_elem?_ink :
    (s rest : Bytes) (j : ℕ)
    → EndsInk s
    → length s ≡ suc j
    → (c : ℕ) × (get_elem? (s ++ rest) j ≡ some c) × (c ≢ space)
get_elem?_ink [] rest j ink h = absurd (omega arith)
get_elem?_ink (c ∷ []) rest zero ink h = (c, refl, ink)
get_elem?_ink (c ∷ []) rest (suc j) ink h = absurd (omega arith)
get_elem?_ink (c ∷ d ∷ s) rest zero ink h = absurd (omega arith)
get_elem?_ink (c ∷ d ∷ s) rest (suc j) ink h = get_elem?_ink (d ∷ s) rest j ink (omega arith)

get_elem?_pad :
    (s : Bytes) (m i c : ℕ) → i < m → get_elem? (s ++ replicate m c) (length s + i) ≡ some c
get_elem?_pad [] zero i c h = absurd (omega arith)
get_elem?_pad [] (suc m) zero c h = refl
get_elem?_pad [] (suc m) (suc i) c h =
    let e : 0 + suc i ≡ suc i = omega arith in
    let e' : 0 + i ≡ i = omega arith in rw e (rw e' at (get_elem?_pad [] m i c (omega arith)))
get_elem?_pad (x ∷ s) m i c h =
    let e : suc (length s) + i ≡ suc (length s + i) = omega arith in rw e (get_elem?_pad s m i c h)

-- From the end of the padding back to the string.
buf_len_loop_pad :
    (s : Bytes) (m i : ℕ)
    → EndsInk s
    → i ≤ m
    → buf_len_loop (s ++ replicate m space) (length s + i) ≡ ok (length s)
unfolding buf_len_loop
buf_len_loop_pad [] m zero ink h = refl
buf_len_loop_pad (x ∷ s) m zero ink h =
    let (c, e, ne) = get_elem?_ink (x ∷ s) (replicate m space) (length s) ink refl in
    let z : length (x ∷ s) + 0 ≡ suc (length s) = omega arith in rw (z, e) (ground arith)
buf_len_loop_pad s m (suc i) ink h =
    let e : length s + suc i ≡ suc (length s + i) = omega arith in
    rw (e, get_elem?_pad s m i space (omega arith)) (buf_len_loop_pad s m i ink (omega arith))

copy_to_null-append : (s rest : Bytes) → Lacks 0 s → copy_to_null (length s) (s ++ rest) ≡ s
unfolding copy_to_null
copy_to_null-append [] rest h = refl
copy_to_null-append (b ∷ s) rest h = ground (arith, copy_to_null-append s rest)

-- A string with no null byte that does not end in a space and fits the buffer is read back from it.
pub buf_to_str-str_to_buf :
    (s : Bytes) (n : ℕ)
    → Lacks 0 s
    → EndsInk s
    → length s ≤ suc n
    → (str_to_buf s (pos (suc n)) >>= λ r. buf_to_str (r.1) (pos (suc n))) ≡ ok (length s, s)
unfolding buf_to_str buf_len
buf_to_str-str_to_buf s n lacks ink fits =
    let e : suc n ≡ length s + (suc n - length s) = omega arith in
    let pad = suc n - length s in
    let len : buf_len_loop (s ++ replicate pad space) (suc n) ≡ ok (length s) =
      subst (λ t. buf_len_loop (s ++ replicate pad space) t ≡ ok (length s)) (sym e)
        (buf_len_loop_pad s pad pad ink (omega arith)) in
    rw ((str_to_buf_lem s n).0 fits, len, copy_to_null-append s (replicate pad space) lacks)

-- `BufPrintf` with a text that fits fills the buffer with it and spaces; a longer text ends the
-- process with STR_SIZE_EXCEEDED, and a failed `vsnprintf` with SYSCALL_VSNPRINTF.
pub buf_printf_lem :
    (text : Bytes) (n : ℕ)
    → (length text ≤ suc n
        → buf_printf (some text) (pos (suc n)) ≡ ok (text ++ replicate (suc n - length text) space))
      × (suc n < length text
          → buf_printf (some text) (pos (suc n)) ≡ exited ErrCode.str_size_exceeded)
      × (buf_printf none (pos (suc n)) ≡ exited ErrCode.syscall_vsnprintf)
unfolding buf_printf
buf_printf_lem text n = (
  λ h.
      let t : leb (suc n + 1) (length text) ≡ false = ground arith in
      rw (t, (str_to_buf_lem text n).0 h),
  λ h. let t : leb (suc n + 1) (length text) ≡ true = ground arith in rw t,
  refl,
)

toupper-toupper : (c : ℕ) → toupper (toupper c) ≡ toupper c
unfolding toupper
toupper-toupper c = ground arith

upper_loop-map :
    (n : ℕ) (buf : Bytes)
    → n ≤ length buf
    → upper_loop n buf ≡ ok (map toupper (take n buf) ++ drop n buf)
unfolding upper_loop
upper_loop-map zero buf h = refl
upper_loop-map (suc n) [] h = absurd (omega arith)
upper_loop-map (suc n) (b ∷ buf) h = rw (upper_loop-map n buf (omega arith))

upper_loop_again :
    (n : ℕ) (buf : Bytes)
    → n ≤ length buf
    → upper_loop n (map toupper (take n buf) ++ drop n buf)
      ≡ ok (map toupper (take n buf) ++ drop n buf)
unfolding upper_loop
upper_loop_again zero buf h = refl
upper_loop_again (suc n) [] h = absurd (omega arith)
upper_loop_again (suc n) (b ∷ buf) h = rw (upper_loop_again n buf (omega arith), toupper-toupper b)

-- `BufToUpperCase` makes the first `n` bytes upper case and keeps the others, and a second call
-- changes nothing more.
pub buf_to_upper_case_lem :
    (buf : Bytes) (n : ℕ)
    → suc n ≤ length buf
    → (buf_to_upper_case buf (pos (suc n))
        ≡ ok (map toupper (take (suc n) buf) ++ drop (suc n) buf))
      × ((buf_to_upper_case buf (pos (suc n)) >>= λ b. buf_to_upper_case b (pos (suc n)))
          ≡ buf_to_upper_case buf (pos (suc n)))
unfolding buf_to_upper_case
buf_to_upper_case_lem buf n h =
    let first = upper_loop-map (suc n) buf h in (first, rw first (upper_loop_again (suc n) buf h))

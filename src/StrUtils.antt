-- ===== src/StrUtils.antt =====
-- master/src/utils/strutils.c. A buffer is a list of bytes; a string is the list of the bytes before
-- its null, and a function that changes one in place returns the new one.
pub mod Hide
pub mod Buffers
pub mod Words
mod Tests
use google_test_c_programs.Base.{
  ℕ, zero, suc, ◌+◌, ◌-◌, ◌*◌, ◌/◌, ◌%◌, ◌^◌, Bool, true, false, ◌&&◌, Option, none, some, List, [],
  ◌∷◌, ◌++◌, map, ltb, leb, ◌==◌, if◌then◌else◌, length, get_elem?, take, drop, replicate,
}
use google_test_c_programs.Base.Int.{ℤ, pos, negsuc, ltb_ℤ, leb_ℤ}
use google_test_c_programs.Base.Outcome.{Outcome, ok, exited, fault, ◌>>=◌, ◌>>◌, exit_if, deref}
use google_test_c_programs.Base.CString.{Bytes, strchr, toupper}
use google_test_c_programs.ErrCodes.{ErrCode}

abbrev pub space : ℕ
space = 32

abbrev pub star : ℕ
star = b'*'

unfoldable pub is_valid_str_len_min_max : Bytes → ℤ → ℤ → Outcome Bool
is_valid_str_len_min_max str min_len max_len = do
  exit_if (leb_ℤ min_len (pos 0)) ErrCode.length_invalid
  exit_if (leb_ℤ max_len (pos 0)) ErrCode.length_invalid
  exit_if (ltb_ℤ max_len min_len) ErrCode.length_invalid
  ok (leb_ℤ min_len (pos (length str)) && leb_ℤ (pos (length str)) max_len)

-- `memset(arr + at, c, n)` on an array that holds the string `arr`; the count is a `size_t`.
unfoldable pub memset : Bytes → ℕ → ℕ → ℕ → Outcome Bytes
memset arr at c n =
    if ltb (length arr) (at + n)
    then fault
    else ok (take at arr ++ replicate n c ++ drop (at + n) arr)

-- The `size_t` that a count `a - b` becomes: a negative one wraps to a number beyond any array.
abbrev pub size_sub : ℕ → ℕ → ℕ
size_sub a b = if ltb a b then a + 2 ^ 64 - b else a - b

unfoldable pub email_address_user_hide : Bytes → Outcome Bytes
email_address_user_hide email_address = do
  str_after_at_sign ← deref (strchr email_address b'@')
  memset email_address 1 star (size_sub (length email_address) (length str_after_at_sign + 1))

unfoldable pub pmt_doc_no_hide : Bytes → Outcome Bytes
pmt_doc_no_hide doc_no = memset doc_no 0 star (size_sub (length doc_no) 2)

-- In an empty string the byte before the null lies outside the array.
unfoldable pub str_rm_trail_new_line : Bytes → Outcome Bytes
str_rm_trail_new_line str = do
  char_before_null ← deref (get_elem? str (length str - 1))
  ok (if char_before_null == 10 then take (length str - 1) str else str)

-- The two's complement pattern of the low 16 bits, and the `int16_t` that a pattern stands for.
unfoldable pub word16 : ℤ → ℕ
word16 (pos n) = n % 65536
word16 (negsuc n) = 65535 - n % 65536

unfoldable pub int16 : ℕ → ℤ
int16 w = if ltb w 32768 then pos w else negsuc (65535 - w)

-- `buf[0]` and `buf[1]`.
unfoldable pub short_to_buf : ℤ → ℕ × ℕ
unfolding word16
short_to_buf value = (word16 value / 256 % 256, word16 value % 256)

unfoldable pub buf_to_short : ℕ → ℕ → ℤ
unfolding int16
buf_to_short msb lsb = int16 ((msb % 256 * 256 + lsb % 256) % 65536)

-- `if (bufLen <= 0)` exits with LENGTH_INVALID; the rest of the body has the length as a number.
abbrev pub with_length : {A : Type 0} → ℤ → (ℕ → Outcome A) → Outcome A
with_length (pos zero) body = exited ErrCode.length_invalid
with_length (pos (suc n)) body = body (suc n)
with_length (negsuc n) body = exited ErrCode.length_invalid

-- The loop of `BufLen`: from the end down, as long as the byte is a space.
buf_len_loop : Bytes → ℕ → Outcome ℕ
buf_len_loop buf zero = ok 0
buf_len_loop buf (suc n) = do
  c ← deref (get_elem? buf n)
  if c == space then buf_len_loop buf n else ok (suc n)

unfoldable pub buf_len : Bytes → ℤ → Outcome ℕ
unfolding buf_len_loop
buf_len buf len = with_length len (λ n. buf_len_loop buf n)

-- `while (bp < buf + wklen && *bp) *sp++ = *bp++`
copy_to_null : ℕ → Bytes → Bytes
copy_to_null zero bp = []
copy_to_null (suc n) [] = []
copy_to_null (suc n) (b ∷ bp) = if b == 0 then [] else b ∷ copy_to_null n bp

-- The string and its length.
unfoldable pub buf_to_str : Bytes → ℤ → Outcome (ℕ × Bytes)
unfolding copy_to_null
buf_to_str buf len =
    with_length len
      λ n. do wklen ← buf_len buf (pos n); let str = copy_to_null wklen buf; ok (length str, str)

-- `while (*strPtr) *bufPtr++ = *strPtr++`; a write past the end of the buffer is a fault.
copy_str : Bytes → Bytes → Outcome Bytes
copy_str [] buf = ok buf
copy_str (c ∷ str) [] = fault
copy_str (c ∷ str) (b ∷ buf) = do rest ← copy_str str buf; ok (c ∷ rest)

-- The length of the string and the buffer.
unfoldable pub str_to_buf : Bytes → ℤ → Outcome (ℕ × Bytes)
unfolding copy_str
str_to_buf str len = with_length len λ n. do
  exit_if (ltb n (length str)) ErrCode.length_invalid
  buf ← copy_str str (replicate n space)
  ok (length str, buf)

-- `formatted` is what `vsnprintf` gives at a large enough array, none where it fails.
unfoldable pub buf_printf : Option Bytes → ℤ → Outcome Bytes
buf_printf formatted len = with_length len λ n. elim formatted [
  | none ↦ exited ErrCode.syscall_vsnprintf
  | some text ↦ do
    exit_if (leb (n + 1) (length text)) ErrCode.str_size_exceeded
    written ← str_to_buf text (pos n)
    ok (written.1)
]

-- `for (i = 0; i < bufLen; i++) buf[i] = toupper(buf[i])`
upper_loop : ℕ → Bytes → Outcome Bytes
upper_loop zero buf = ok buf
upper_loop (suc n) [] = fault
upper_loop (suc n) (b ∷ buf) = do rest ← upper_loop n buf; ok (toupper b ∷ rest)

unfoldable pub buf_to_upper_case : Bytes → ℤ → Outcome Bytes
unfolding upper_loop
buf_to_upper_case buf len = with_length len λ n. upper_loop n buf

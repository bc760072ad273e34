-- ===== src/Base/CString.antt =====
-- The C library's string functions that the program calls. A string is the list of the bytes before
-- its terminating null.
use google_test_c_programs.Base.{
  ℕ, ◌+◌, ◌-◌, ◌*◌, ◌≡◌, ◌≢◌, refl, Bool, ◌&&◌, ◌||◌, Option, none, some, List, [], ◌∷◌, ◌++◌,
  arith, leb, ◌==◌, if◌then◌else◌, All, take,
}
use google_test_c_programs.Base.Int.{ℤ, pos, sub_ℕ}
use Prim.Native.Char.{code}
use Prim.Native.String.{String}

abbrev pub Bytes : Type 0
Bytes = List ℕ

-- The bytes of an ASCII literal.
abbrev pub codes : String → Bytes
codes String.[] = []
codes (String.◌∷◌ c s) = code c ∷ codes s

-- `c` does not occur in the string.
abbrev pub Lacks : ℕ → Bytes → Type 0
Lacks c = All (λ b. b ≢ c)

-- `strchr`: the part of the string from the first `c` on.
unfoldable pub strchr : Bytes → ℕ → Option Bytes
strchr [] c = none
strchr (b ∷ s) c = if b == c then some (b ∷ s) else strchr s c

-- The string that starts at an array: its bytes before the first null.
unfoldable pub c_str : Bytes → Bytes
c_str [] = []
c_str (b ∷ s) = if b == 0 then [] else b ∷ c_str s

-- `toupper` in the C locale.
unfoldable pub toupper : ℕ → ℕ
toupper c = if leb b'a' c && leb c b'z' then c - 32 else c

abbrev pub is_digit : ℕ → Bool
is_digit c = leb b'0' c && leb c b'9'

-- The digits at the front of a string, read behind the number `n`.
unfoldable pub read_digits : ℕ → Bytes → ℕ
read_digits n [] = n
read_digits n (c ∷ s) = if is_digit c then read_digits (n * 10 + (c - b'0')) s else n

abbrev pub is_space : ℕ → Bool
is_space c = c == 32 || (leb 9 c && leb c 13)

-- `atoi`, where the number fits an `int`: spaces, a sign, digits.
unfoldable pub atoi : Bytes → ℤ
unfolding read_digits
atoi [] = pos 0
atoi (c ∷ s) =
    if is_space c
    then atoi s
    else if c == b'-'
    then sub_ℕ 0 (read_digits 0 s)
    else if c == b'+'
    then pos (read_digits 0 s)
    else pos (read_digits 0 (c ∷ s))

-- `strlcpy` into an array of `size` bytes, and `snprintf` of a text: what does not fit is cut.
abbrev pub strlcpy : Bytes → ℕ → Bytes
strlcpy s size = take (size - 1) s

pub strchr_first : (xs ys : Bytes) (c : ℕ) → Lacks c xs → strchr (xs ++ c ∷ ys) c ≡ some (c ∷ ys)
unfolding strchr
strchr_first [] ys c h = ground arith
strchr_first (x ∷ xs) ys c h = ground (arith, strchr_first xs ys c)

pub strchr-none : (xs : Bytes) (c : ℕ) → Lacks c xs → strchr xs c ≡ none
unfolding strchr
strchr-none [] c h = refl
strchr-none (x ∷ xs) c h = ground (arith, strchr-none xs c)

pub c_str-append : (s rest : Bytes) → Lacks 0 s → c_str (s ++ 0 ∷ rest) ≡ s
unfolding c_str
c_str-append [] rest h = refl
c_str-append (b ∷ s) rest h = ground (arith, c_str-append s rest)

pub c_str-Lacks : (s : Bytes) → Lacks 0 s → c_str s ≡ s
unfolding c_str
c_str-Lacks [] h = refl
c_str-Lacks (b ∷ s) h = ground (arith, c_str-Lacks s)

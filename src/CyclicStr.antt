-- ===== src/CyclicStr.antt =====
-- master/src/utils/cyclicstr.c and master/src/utils/fmtstr.c: strings are returned in a ring of
-- SZ_CYCLIC_STR bytes that each thread has. The pointer is a position in the array, none while it is
-- NULL.
pub mod Keeps
mod Tests
use google_test_c_programs.Base.{
  ℕ, ◌+◌, ◌≤◌, ◌≡◌, Option, none, some, [], ◌∷◌, ◌++◌, ltb, leb, if◌then◌else◌, length, take, drop,
}
use google_test_c_programs.Base.Outcome.{Outcome, ok, exited, ◌>>=◌, ◌>>◌, exit_if}
use google_test_c_programs.Base.CString.{Bytes, c_str}
use google_test_c_programs.ErrCodes.{ErrCode}

abbrev pub sz_cyclic_str : ℕ
sz_cyclic_str = 1024

-- `CyclicStr` and `CyclicPtr`.
pub record Cyclic : Type 0 where
  pub cyclic_str : Bytes
  pub cyclic_ptr : Option ℕ

-- `memcpy` of `s` to position `at` of the array.
abbrev pub write_at : Bytes → ℕ → Bytes → Bytes
write_at arr at s = take at arr ++ (s ++ drop (at + length s) arr)

-- Where the string goes: behind the last one, or at the start if there is none or no room.
unfoldable pub place : Option ℕ → ℕ → ℕ
place none len = 0
place (some p) len = if ltb sz_cyclic_str (p + len) then 0 else p

-- The position of the string, and the new state.
unfoldable pub cyclic_str_add : Bytes → Cyclic → Outcome (ℕ × Cyclic)
unfolding place
cyclic_str_add str c = do
  let str_len_plus_null = length str + 1
  exit_if (ltb sz_cyclic_str str_len_plus_null) ErrCode.str_size_exceeded
  let rtn_ptr = place c.cyclic_ptr str_len_plus_null
  ok (
    rtn_ptr,
    record {
      cyclic_str = write_at c.cyclic_str rtn_ptr (str ++ 0 ∷ []);
      cyclic_ptr = some (rtn_ptr + str_len_plus_null);
    },
  )

-- The string that a caller reads at a position.
unfoldable pub string_at : Cyclic → ℕ → Bytes
string_at c p = c_str (drop p c.cyclic_str)

-- `FmtStr`; `formatted` is what `vsnprintf` gives at a large enough array, none where it fails.
unfoldable pub fmt_str : Option Bytes → Cyclic → Outcome (ℕ × Cyclic)
fmt_str none c = exited ErrCode.syscall_vsnprintf
fmt_str (some text) c =
    exit_if (leb sz_cyclic_str (length text)) ErrCode.str_size_exceeded >> cyclic_str_add text c

-- The array keeps its size, and the pointer stays within it or at its end.
pub record IsValid (c : Cyclic) : Type 0 where
  pub size : length c.cyclic_str ≡ sz_cyclic_str
  pub within : (p : ℕ) → c.cyclic_ptr ≡ some p → p ≤ sz_cyclic_str

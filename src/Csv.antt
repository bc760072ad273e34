-- ===== src/Csv.antt =====
-- master/src/utils/csvrtns.c: a string is broken at its commas. The linked list that `CsvStrLst`
-- appends to is the list of its elements' strings; its own
-- pointer to the tail starts as null. The loop runs on fuel.
pub mod Split
mod Tests
use google_test_c_programs.Base.{
  ℕ, zero, suc, ◌+◌, Bool, true, false, ◌||◌, Option, none, some, List, [], ◌∷◌, ◌++◌, ◌==◌,
  if◌then◌else◌, length,
}
use google_test_c_programs.Base.Outcome.{
  Outcome, ok, exited, fault, out_of_fuel, ◌>>=◌, ◌>>◌, exit_if,
}
use google_test_c_programs.Base.CString.{Bytes, strchr, strlcpy}
use google_test_c_programs.ErrCodes.{ErrCode}

-- The bytes before the first `sep`, and those behind it.
unfoldable pub cut : ℕ → Bytes → Bytes × Bytes
cut sep [] = ([], [])
cut sep (b ∷ s) = let rest = cut sep s in if b == sep then ([], s) else (b ∷ rest.0, rest.1)

-- `strtok_r` with one separator: the separators in front are skipped; the token and what is left.
unfoldable pub strtok : ℕ → Bytes → Option (Bytes × Bytes)
unfolding cut
strtok sep [] = none
strtok sep (b ∷ s) = if b == sep then strtok sep s else some (cut sep (b ∷ s))

-- `LnkLstAppend` of an element with `strlstTail`, which tells whether an element was appended in this
-- call: with elements in the list and no tail the null pointer is followed.
unfoldable pub append_elem : Bytes → Bool → List Bytes → Outcome (List Bytes)
append_elem str has_tail [] = ok (str ∷ [])
append_elem str has_tail (first ∷ strlst) =
    if has_tail then ok (first ∷ strlst ++ str ∷ []) else fault

csv_loop : ℕ → Bytes → ℕ → Bool → List Bytes → Outcome (ℕ × List Bytes)
unfolding append_elem
csv_loop zero s items has_tail strlst = out_of_fuel
csv_loop (suc fuel) s items has_tail strlst = elim (strtok b',' s) [
  | none ↦ ok (items, strlst)
  | some (token, rest) ↦
      append_elem (strlcpy token (length token + 1)) has_tail strlst >>= λ longer.
      csv_loop fuel rest (items + 1) true longer
]

-- `strchr(s, c)` as a condition.
unfoldable pub has_char : ℕ → Bytes → Bool
has_char c s = elim (strchr s c) [ none ↦ false | some t ↦ true ]

-- The number of items and the list.
unfoldable pub csv_str_lst : Bytes → List Bytes → Outcome (ℕ × List Bytes)
unfolding csv_loop
csv_str_lst csvstr strlst = do
  exit_if (has_char 39 csvstr || has_char b'"' csvstr) ErrCode.str_quotes_invalid
  csv_loop (length csvstr + 1) csvstr 0 false strlst

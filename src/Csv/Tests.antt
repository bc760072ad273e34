-- ===== src/Csv/Tests.antt =====
-- Strings broken at commas.
use google_test_c_programs.Base.{◌≡◌, ◌≢◌, refl, List, [], ◌∷◌, arith, length, All}
use google_test_c_programs.Base.Outcome.{ok, fault}
use google_test_c_programs.Base.CString.{Bytes, codes, strchr}
use google_test_c_programs.Csv.{append_elem, csv_str_lst, has_char, strtok}
use google_test_c_programs.Csv.Split.{IsItem, csv_str_lst-join}

-- Empty items are skipped.
empty_items : csv_str_lst (codes ",a,,b,") [] ≡ ok (2, codes "a" ∷ codes "b" ∷ [])
unfolding csv_str_lst append_elem has_char strchr strtok
empty_items = refl

items : All IsItem (codes "+E" ∷ codes "-W" ∷ [])
items = (
  record { ink = omega arith; no_comma = omega arith; no_quote = omega arith },
  (record { ink = omega arith; no_comma = omega arith; no_quote = omega arith }, tt),
)

csv_str_lst-join_example :
    (csv_str_lst (codes "+E,-W") [] ≡ ok (2, codes "+E" ∷ codes "-W" ∷ []))
    × ((first : Bytes) (lst : List Bytes)
        → length (codes "+E" ∷ codes "-W" ∷ []) ≢ 0
        → csv_str_lst (codes "+E,-W") (first ∷ lst) ≡ fault)
csv_str_lst-join_example = csv_str_lst-join (codes "+E" ∷ codes "-W" ∷ []) items

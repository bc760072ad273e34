-- ===== src/LnkLst/Tests.antt =====
-- A list of two elements in memory, and the theorems at it.
use google_test_c_programs.Base.{
  ℕ, ◌≡◌, refl, false, none, some, inr, [], ◌∷◌, arith, ◌==◌, if◌then◌else◌,
}
use google_test_c_programs.Base.Outcome.{ok}
use google_test_c_programs.LnkLst.{Memory, null, lnk_lst_append, lnk_lst_remove}
use google_test_c_programs.LnkLst.Linked.{has, IsList}
use google_test_c_programs.LnkLst.Append.{lnk_lst_append-IsList}
use google_test_c_programs.LnkLst.Remove.{lnk_lst_remove-IsList}

-- The head's cell is 1, the elements stand at 5 and 7, and 9 is a new element.
abbrev two : Memory
two a =
    if a == 1
    then some 5
    else if a == 5
    then some 7
    else if a == 7
    then some null
    else if a == 9
    then some null
    else none

two-IsList : IsList two 1 (5 ∷ 7 ∷ [])
two-IsList = record {
  linked = (omega arith, refl, (omega arith, refl, (omega arith, refl, tt)));
  distinct = (refl, (refl, (refl, tt)));
}

lnk_lst_append-IsList_example :
    (mem' : Memory) × (lnk_lst_append 9 1 7 two ≡ ok (9, mem'))
    × IsList mem' 1 (5 ∷ 7 ∷ 9 ∷ [])
    × ((a : ℕ) → has a (1 ∷ 5 ∷ 7 ∷ []) ≡ false → mem' a ≡ two a)
lnk_lst_append-IsList_example =
    lnk_lst_append-IsList two 1 7 (5 ∷ 7 ∷ []) 9 two-IsList (inr refl) (omega arith) refl refl

lnk_lst_remove-IsList_example :
    (mem' : Memory) × (lnk_lst_remove 4 1 7 two ≡ ok (5, 5, mem'))
    × IsList mem' 1 (5 ∷ [])
    × (mem' 7 ≡ none)
    × ((a : ℕ) → has a (1 ∷ 5 ∷ 7 ∷ []) ≡ false → mem' a ≡ two a)
lnk_lst_remove-IsList_example = lnk_lst_remove-IsList 4 two 1 (5 ∷ []) 7 [] two-IsList (omega arith)

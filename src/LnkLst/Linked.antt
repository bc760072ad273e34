-- ===== src/LnkLst/Linked.antt =====
-- What a list in memory is: cells that lead one to the next.
use google_test_c_programs.Base.{
  ℕ, zero, suc, ◌+◌, ◌<◌, ◌≡◌, ◌≢◌, refl, ◌∙◌, ap, Bool, false, ◌||◌, none, some, Option, List, [],
  ◌∷◌, arith, ◌==◌, ==_refl, length,
}
use google_test_c_programs.Base.Outcome.{ok}
use google_test_c_programs.LnkLst.{
  Memory, null, load, write, store, mem_free, tail_loop, lnk_lst_tail, count_loop, lnk_lst_count,
}

abbrev pub has : ℕ → List ℕ → Bool
has a [] = false
has a (x ∷ xs) = (a == x) || has a xs

abbrev pub Distinct : List ℕ → Type 0
Distinct [] = Unit
Distinct (x ∷ xs) = (has x xs ≡ false) × Distinct xs

-- The pointer to a list, and to its last cell behind `a`.
abbrev pub first_of_list : List ℕ → ℕ
first_of_list [] = null
first_of_list (x ∷ xs) = x

abbrev pub last_of_list : ℕ → List ℕ → ℕ
last_of_list a [] = a
last_of_list a (x ∷ xs) = last_of_list x xs

-- The tail variable of a list.
abbrev pub tail_of : List ℕ → ℕ
tail_of [] = null
tail_of (x ∷ xs) = last_of_list x xs

-- Each cell is allocated and holds the address of the next, the last one NULL.
abbrev pub Linked : Memory → List ℕ → Type 0
Linked mem [] = Unit
Linked mem (x ∷ xs) = (x ≢ null) × (mem x ≡ some (first_of_list xs)) × Linked mem xs

-- The list of the elements `xs` whose head is stored in the cell `head`.
pub record IsList (mem : Memory) (head : ℕ) (xs : List ℕ) : Type 0 where
  pub linked : Linked mem (head ∷ xs)
  pub distinct : Distinct (head ∷ xs)

pub load-ok : (mem : Memory) (p q : ℕ) → p ≢ null → mem p ≡ some q → load mem p ≡ ok q
unfolding load
load-ok mem p q ne e = ground arith

pub store-ok :
    (mem : Memory) (p q r : ℕ)
    → p ≢ null
    → mem p ≡ some q
    → store mem p r ≡ ok (write mem p (some r))
unfolding store
store-ok mem p q r ne e = rw (load-ok mem p q ne e)

pub mem_free-ok :
    (mem : Memory) (p q : ℕ) → p ≢ null → mem p ≡ some q → mem_free mem p ≡ ok (write mem p none)
unfolding mem_free
mem_free-ok mem p q ne e = rw (load-ok mem p q ne e)

pub write_same : (mem : Memory) (p : ℕ) (c : Option ℕ) → write mem p c p ≡ c
unfolding write
write_same mem p c = rw (==_refl p)

pub write_other : (mem : Memory) (p a : ℕ) (c : Option ℕ) → a ≢ p → write mem p c a ≡ mem a
unfolding write
write_other mem p a c h = ground arith

-- A write elsewhere leaves a list alone.
pub Linked-write :
    (mem : Memory) (a : ℕ) (c : Option ℕ) (xs : List ℕ)
    → has a xs ≡ false
    → Linked mem xs
    → Linked (write mem a c) xs
unfolding write
Linked-write mem a c [] out h = tt
Linked-write mem a c (x ∷ xs) out h =
    (h.0, ground arith, Linked-write mem a c xs (ground arith) h.2)

tail_loop-ok :
    (fuel : ℕ) (xs : List ℕ) (prev : ℕ) (mem : Memory)
    → Linked mem xs
    → length xs < fuel
    → tail_loop fuel (first_of_list xs) prev mem ≡ ok (last_of_list prev xs)
unfolding tail_loop
tail_loop-ok zero xs prev mem h enough = absurd (omega arith)
tail_loop-ok (suc fuel) [] prev mem h enough = refl
tail_loop-ok (suc fuel) (x ∷ xs) prev mem h enough =
    let ne : (x == null) ≡ false = ground arith in
    rw (ne, load-ok mem x _ h.0 h.1) (tail_loop-ok fuel xs x mem h.2 (omega arith))

count_loop-ok :
    (fuel : ℕ) (xs : List ℕ) (i : ℕ) (mem : Memory)
    → Linked mem xs
    → length xs < fuel
    → count_loop fuel (first_of_list xs) i mem ≡ ok (i + length xs)
unfolding count_loop
count_loop-ok zero xs i mem h enough = absurd (omega arith)
count_loop-ok (suc fuel) [] i mem h enough = ap ok (omega arith)
count_loop-ok (suc fuel) (x ∷ xs) i mem h enough =
    let ne : (x == null) ≡ false = ground arith in
    rw (ne, load-ok mem x _ h.0 h.1)
      (count_loop-ok fuel xs (i + 1) mem h.2 (omega arith) ∙ ap ok (omega arith))

-- From the cell of the head `LnkLstTail` ends at the last element, or at the cell itself if the list is
-- empty; `LnkLstCount` of the head counts the elements. One round more than there are cells is enough.
pub lnk_lst_tail-last :
    (fuel : ℕ) (mem : Memory) (head : ℕ) (xs : List ℕ)
    → IsList mem head xs
    → length xs + 1 < fuel
    → (lnk_lst_tail fuel head mem ≡ ok (last_of_list head xs))
      × (lnk_lst_count fuel (first_of_list xs) mem ≡ ok (length xs))
unfolding lnk_lst_tail lnk_lst_count
lnk_lst_tail-last fuel mem head xs is enough = (
  tail_loop-ok fuel (head ∷ xs) null mem is.linked (omega arith),
  count_loop-ok fuel xs 0 mem is.linked.2 (omega arith) ∙ ap ok (omega arith),
)

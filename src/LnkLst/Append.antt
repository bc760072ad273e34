-- ===== src/LnkLst/Append.antt =====
-- `LnkLstAppend` puts an element at the end.
use google_test_c_programs.Base.{
  ℕ, ◌≡◌, ◌≢◌, refl, ◌∙◌, sym, false, ◌||◌, some, ◌⊎◌, inl, inr, List, [], ◌∷◌, ◌++◌, arith, ◌==◌,
}
use google_test_c_programs.Base.Outcome.{ok}
use google_test_c_programs.LnkLst.{Memory, null, write, lnk_lst_append}
use google_test_c_programs.LnkLst.Linked.{
  has, Distinct, last_of_list, tail_of, Linked, IsList, load-ok, store-ok, write_other,
}

-- The last cell is one of the cells.
pub last_ne : (b a : ℕ) (xs : List ℕ) → has b (a ∷ xs) ≡ false → last_of_list a xs ≢ b
last_ne b a [] h = ground arith
last_ne b a (x ∷ xs) h = last_ne b x xs (ground arith)

pub has_last : (a b : ℕ) (xs : List ℕ) → has b xs ≡ false → a ≢ b → last_of_list a xs ≢ b
has_last a b [] h ne = ne
has_last a b (x ∷ xs) h ne = last_ne b x xs h

pub last_null :
    (mem : Memory) (a : ℕ) (xs : List ℕ)
    → Linked mem (a ∷ xs)
    → (last_of_list a xs ≢ null) × (mem (last_of_list a xs) ≡ some null)
last_null mem a [] h = (h.0, h.1)
last_null mem a (x ∷ xs) h = last_null mem x xs h.2

-- Writing the address of a new cell to the last cell.
Linked-last :
    (mem : Memory) (a : ℕ) (xs : List ℕ) (c : ℕ)
    → Linked mem (a ∷ xs)
    → Distinct (a ∷ xs)
    → c ≢ null
    → mem c ≡ some null
    → has c (a ∷ xs) ≡ false
    → Linked (write mem (last_of_list a xs) (some c)) (a ∷ xs ++ c ∷ [])
unfolding write
Linked-last mem a [] c h d ne e out = (h.0, ground arith, (ne, ground arith, tt))
Linked-last mem a (x ∷ xs) c h d ne e out =
    let other = last_ne a x xs d.0 in
    (
      h.0,
      write_other mem _ a _ (λ k. other (sym k)) ∙ h.1,
      Linked-last mem x xs c h.2 d.1 ne e (ground arith),
    )

pub has-append : (a : ℕ) (xs ys : List ℕ) → has a (xs ++ ys) ≡ (has a xs || has a ys)
has-append a [] ys = refl
has-append a (x ∷ xs) ys = ground (arith, has-append a xs ys)

Distinct-last : (xs : List ℕ) (c : ℕ) → Distinct xs → has c xs ≡ false → Distinct (xs ++ c ∷ [])
Distinct-last [] c d out = (refl, tt)
Distinct-last (x ∷ xs) c d out =
    (ground (arith, has-append x xs (c ∷ [])), Distinct-last xs c d.1 (ground arith))

last_of_snoc : (a : ℕ) (xs : List ℕ) (c : ℕ) → last_of_list a (xs ++ c ∷ []) ≡ c
last_of_snoc a [] c = refl
last_of_snoc a (x ∷ xs) c = last_of_snoc x xs c

tail_of_snoc : (xs : List ℕ) (c : ℕ) → tail_of (xs ++ c ∷ []) ≡ c
tail_of_snoc [] c = refl
tail_of_snoc (x ∷ xs) c = last_of_snoc x xs c

-- The write that `LnkLstAppend` makes is to the last cell, which is the head's if the list is empty.
append_run :
    (mem : Memory) (head tail : ℕ) (xs : List ℕ) (c : ℕ)
    → Linked mem (head ∷ xs)
    → (xs ≡ []) ⊎ (tail ≡ tail_of xs)
    → lnk_lst_append c head tail mem ≡ ok (c, write mem (last_of_list head xs) (some c))
unfolding lnk_lst_append
append_run mem head tail [] c h at = rw (load-ok mem head _ h.0 h.1, store-ok mem head _ c h.0 h.1)
append_run mem head tail (x ∷ xs) c h (inl e) = cc
append_run mem head tail (x ∷ xs) c h (inr at) =
    let some_first : (x == null) ≡ false = ground arith in
    let (ne, e) = last_null mem x xs h.2 in
    rw (at, load-ok mem head _ h.0 h.1, some_first, store-ok mem (last_of_list x xs) _ c ne e)

-- A new element whose `next` is NULL, as `MemAlloc` leaves it, comes to the end of the list; the
-- returned tail is that of the new list, and no other memory than the list's changes. The tail variable
-- must be that of the list, unless the list is empty.
pub lnk_lst_append-IsList :
    (mem : Memory) (head tail : ℕ) (xs : List ℕ) (c : ℕ)
    → IsList mem head xs
    → (xs ≡ []) ⊎ (tail ≡ tail_of xs)
    → c ≢ null
    → mem c ≡ some null
    → has c (head ∷ xs) ≡ false
    → (mem' : Memory) × (lnk_lst_append c head tail mem ≡ ok (tail_of (xs ++ c ∷ []), mem'))
      × IsList mem' head (xs ++ c ∷ [])
      × ((a : ℕ) → has a (head ∷ xs) ≡ false → mem' a ≡ mem a)
lnk_lst_append-IsList mem head tail xs c is at ne e out = (
  write mem (last_of_list head xs) (some c),
  rw (tail_of_snoc xs c) (append_run mem head tail xs c is.linked at),
  record {
    linked = Linked-last mem head xs c is.linked is.distinct ne e out;
    distinct = Distinct-last (head ∷ xs) c is.distinct out;
  },
  λ a h. write_other mem _ a _ (λ k. last_ne a head xs h (sym k)),
)

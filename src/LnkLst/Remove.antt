-- ===== src/LnkLst/Remove.antt =====
-- `LnkLstRemove` takes out one element, and `LnkLstFree` frees them all.
use google_test_c_programs.Base.{
  ℕ, zero, suc, ◌+◌, ◌<◌, ◌≡◌, ◌≢◌, refl, ◌∙◌, sym, false, ◌&&◌, ◌||◌, none, some, List, [], ◌∷◌,
  ◌++◌, arith, ◌==◌, ==_refl, if◌then◌else◌, length, length-append,
}
use google_test_c_programs.Base.Outcome.{ok}
use google_test_c_programs.LnkLst.{
  Memory, null, write, prev_loop, lnk_lst_prev, lnk_lst_tail, lnk_lst_remove, free_loop,
  lnk_lst_free,
}
use google_test_c_programs.LnkLst.Linked.{
  has, Distinct, first_of_list, last_of_list, tail_of, Linked, IsList, load-ok, store-ok,
  mem_free-ok, Linked-write, write_same, write_other, lnk_lst_tail-last,
}
use google_test_c_programs.LnkLst.Append.{last_ne, has-append}

prev_loop-ok :
    (fuel : ℕ) (ys : List ℕ) (c : ℕ) (zs : List ℕ) (prev : ℕ) (mem : Memory)
    → Linked mem (ys ++ c ∷ zs)
    → has c ys ≡ false
    → length ys < fuel
    → prev_loop fuel (first_of_list (ys ++ c ∷ zs)) c prev mem ≡ ok (last_of_list prev ys)
unfolding prev_loop
prev_loop-ok zero ys c zs prev mem h out enough = absurd (omega arith)
prev_loop-ok (suc fuel) [] c zs prev mem h out enough =
    let ne : (c == null) ≡ false = ground arith in rw (ne, ==_refl c)
prev_loop-ok (suc fuel) (y ∷ ys) c zs prev mem h out enough =
    let ne : (y == null) ≡ false = ground arith in
    let other : (y == c) ≡ false = ground arith in
    rw (ne, other, load-ok mem y _ h.0 h.1)
      (prev_loop-ok fuel ys c zs y mem h.2 (ground arith) (omega arith))

-- The cells around the one that is taken out.
relink :
    (mem : Memory) (a : ℕ) (ys : List ℕ) (c : ℕ) (zs : List ℕ)
    → Linked mem (a ∷ ys ++ c ∷ zs)
    → Distinct (a ∷ ys ++ c ∷ zs)
    → Linked (write mem (last_of_list a ys) (some (first_of_list zs))) (a ∷ ys ++ zs)
relink mem a [] c zs h d = (h.0, write_same mem a _, Linked-write mem a _ zs (ground arith) h.2.2)
relink mem a (y ∷ ys) c zs h d =
    let other = last_ne a y ys (ground (arith, has-append a ys (c ∷ zs))) in
    (h.0, write_other mem _ a _ (λ k. other (sym k)) ∙ h.1, relink mem y ys c zs h.2 d.1)

Linked-at :
    (mem : Memory) (ys : List ℕ) (c : ℕ) (zs : List ℕ)
    → Linked mem (ys ++ c ∷ zs)
    → (c ≢ null) × (mem c ≡ some (first_of_list zs))
Linked-at mem [] c zs h = (h.0, h.1)
Linked-at mem (y ∷ ys) c zs h = Linked-at mem ys c zs h.2

Linked-last_of_list :
    (mem : Memory) (a : ℕ) (ys : List ℕ) (c : ℕ) (zs : List ℕ)
    → Linked mem (a ∷ ys ++ c ∷ zs)
    → (last_of_list a ys ≢ null) × (mem (last_of_list a ys) ≡ some c)
Linked-last_of_list mem a [] c zs h = (h.0, h.1)
Linked-last_of_list mem a (y ∷ ys) c zs h = Linked-last_of_list mem y ys c zs h.2

Distinct-without :
    (ys : List ℕ) (c : ℕ) (zs : List ℕ)
    → Distinct (ys ++ c ∷ zs)
    → Distinct (ys ++ zs) × (has c (ys ++ zs) ≡ false) × (has c ys ≡ false)
Distinct-without [] c zs d = (d.1, d.0, refl)
Distinct-without (y ∷ ys) c zs d =
    let (rest, out, front) = Distinct-without ys c zs d.1 in
    let a₁ = has-append y ys (c ∷ zs) in
    let a₂ = has-append y ys zs in ((ground arith, rest), ground arith, ground arith)

-- The tail that `LnkLstRemove` computes.
tail_after :
    (fuel : ℕ) (mem : Memory) (head : ℕ) (ys zs : List ℕ)
    → IsList mem head (ys ++ zs)
    → length (ys ++ zs) + 1 < fuel
    → (if (last_of_list head ys == head) && (first_of_list zs == null)
        then ok null
        else lnk_lst_tail fuel head mem)
      ≡ ok (tail_of (ys ++ zs))
tail_after fuel mem head [] [] is enough = rw (==_refl head)
tail_after fuel mem head [] (z ∷ zs) is enough =
    let ne = is.linked.2.0 in
    let some_left : (z == null) ≡ false = ground arith in
    rw (==_refl head, some_left) ((lnk_lst_tail-last fuel mem head (z ∷ zs) is enough).0)
tail_after fuel mem head (y ∷ ys) zs is enough =
    let d = is.distinct.0 in
    let other = last_ne head y ys (ground (arith, has-append head ys zs)) in
    let behind : (last_of_list y ys == head) ≡ false = ground arith in
    rw behind ((lnk_lst_tail-last fuel mem head (y ∷ ys ++ zs) is enough).0)

prev_run :
    (fuel : ℕ) (mem : Memory) (head : ℕ) (ys : List ℕ) (c : ℕ) (zs : List ℕ)
    → IsList mem head (ys ++ c ∷ zs)
    → has c (head ∷ ys) ≡ false
    → length (ys ++ c ∷ zs) + 1 < fuel
    → lnk_lst_prev fuel head c mem ≡ ok (last_of_list head ys)
unfolding lnk_lst_prev
prev_run fuel mem head ys c zs is front enough =
    prev_loop-ok fuel (head ∷ ys) c zs null mem is.linked front
      (omega (arith, length-append ys (c ∷ zs)))

outside_ne : (a c : ℕ) (ys zs : List ℕ) → has a (ys ++ c ∷ zs) ≡ false → a ≢ c
outside_ne a c ys zs h = ground (arith, has-append a ys (c ∷ zs))

outside_front : (a c : ℕ) (ys zs : List ℕ) → has a (ys ++ c ∷ zs) ≡ false → has a ys ≡ false
outside_front a c ys zs h = ground (arith, has-append a ys (c ∷ zs))

-- An element anywhere in a list is taken out and freed: the returned memory holds the list without
-- it, the tail is that of the new list (NULL if it is empty), the caller's loop goes on from the
-- element before it, or from the head's own cell, and memory outside the list is unchanged. Two rounds
-- more than there are elements are enough.
pub lnk_lst_remove-IsList :
    (fuel : ℕ) (mem : Memory) (head : ℕ) (ys : List ℕ) (c : ℕ) (zs : List ℕ)
    → IsList mem head (ys ++ c ∷ zs)
    → length (ys ++ c ∷ zs) + 1 < fuel
    → (mem' : Memory) × (lnk_lst_remove fuel head c mem
        ≡ ok (last_of_list head ys, tail_of (ys ++ zs), mem'))
      × IsList mem' head (ys ++ zs)
      × (mem' c ≡ none)
      × ((a : ℕ) → has a (head ∷ ys ++ c ∷ zs) ≡ false → mem' a ≡ mem a)
unfolding lnk_lst_remove
lnk_lst_remove-IsList fuel mem head ys c zs is enough =
    let p = last_of_list head ys in
    let mem₁ = write mem p (some (first_of_list zs)) in
    let mem₂ = write mem₁ c none in
    let (d, out, front) = Distinct-without (head ∷ ys) c zs is.distinct in
    let (c_ne, c_next) = Linked-at mem ys c zs is.linked.2 in
    let (p_ne, p_next) = Linked-last_of_list mem head ys c zs is.linked in
    let p_c = last_ne c head ys front in
    let c_next₁ : mem₁ c ≡ some (first_of_list zs) =
      write_other mem p c _ (λ k. p_c (sym k)) ∙ c_next in
    let p_next₂ : mem₂ p ≡ some (first_of_list zs) =
      write_other mem₁ c p none p_c ∙ write_same mem p _ in
    let is' : IsList mem₂ head (ys ++ zs) = record {
      linked =
          Linked-write mem₁ c none (head ∷ ys ++ zs) out
            (relink mem head ys c zs is.linked is.distinct);
      distinct = d;
    } in
    (
      mem₂,
      rw (
        prev_run fuel mem head ys c zs is front enough,
        load-ok mem c _ c_ne c_next,
        store-ok mem p _ (first_of_list zs) p_ne p_next,
        mem_free-ok mem₁ c _ c_ne c_next₁,
        load-ok mem₂ p _ p_ne p_next₂,
        tail_after fuel mem₂ head ys zs is'
            (omega (arith, length-append ys zs, length-append ys (c ∷ zs))),
      ),
      is',
      write_same mem₁ c none,
      λ a h.
          write_other mem₁ c a none (outside_ne a c (head ∷ ys) zs h)
          ∙ write_other mem p a _
              (λ k. last_ne a head ys (outside_front a c (head ∷ ys) zs h) (sym k)),
    )

freed_step :
    (mem : Memory) (head x a : ℕ) (xs : List ℕ) (q : ℕ)
    → a ≢ head
    → (if has a xs then none else write (write mem head (some q)) x none a)
      ≡ (if (a == x) || has a xs then none else mem a)
unfolding write
freed_step mem head x a xs q k = ground arith

is_not_null : (x : ℕ) → x ≢ null → (x == null) ≡ false
is_not_null x h = ground arith

free_loop-ok :
    (fuel : ℕ) (mem : Memory) (head : ℕ) (xs : List ℕ) (q : ℕ)
    → head ≢ null
    → mem head ≡ some q
    → Linked mem xs
    → Distinct (head ∷ xs)
    → length xs < fuel
    → (mem' : Memory) × (free_loop fuel head (first_of_list xs) mem ≡ ok mem')
      × (mem' head ≡ some null)
      × ((a : ℕ) → a ≢ head → mem' a ≡ (if has a xs then none else mem a))
unfolding free_loop
free_loop-ok zero mem head xs q ne e h d enough = absurd (omega arith)
free_loop-ok (suc fuel) mem head [] q ne e h d enough = (
  write mem head (some null),
  store-ok mem head q null ne e,
  write_same mem head _,
  λ a k. write_other mem head a _ k,
)
free_loop-ok (suc fuel) mem head (x ∷ xs) q ne e h d enough =
    let x_ne_head : x ≢ head = ground arith in
    let mem₁ = write mem head (some (first_of_list xs)) in
    let mem₂ = write mem₁ x none in
    let x_next₁ : mem₁ x ≡ some (first_of_list xs) = write_other mem head x _ x_ne_head ∙ h.1 in
    let head₂ : mem₂ head ≡ some (first_of_list xs) =
      write_other mem₁ x head none (λ k. x_ne_head (sym k)) ∙ write_same mem head _ in
    let linked₂ : Linked mem₂ xs =
      Linked-write mem₁ x none xs d.1.0 (Linked-write mem head _ xs (ground arith) h.2) in
    let (mem', run, head', freed) =
      free_loop-ok fuel mem₂ head xs (first_of_list xs) ne head₂ linked₂ (ground arith, d.1.1)
        (omega arith) in
    let not_null : (x == null) ≡ false = ground arith in
    (
      mem',
      rw
          (
            not_null,
            load-ok mem x _ h.0 h.1,
            store-ok mem head q (first_of_list xs) ne e,
            mem_free-ok mem₁ x _ h.0 x_next₁,
          )
          run,
      head',
      λ a k. freed a k ∙ freed_step mem head x a xs (first_of_list xs) k,
    )

-- `LnkLstFree` frees every element of the list and nothing else, and leaves the head NULL; one round
-- more than there are elements is enough.
pub lnk_lst_free_lem :
    (fuel : ℕ) (mem : Memory) (head : ℕ) (xs : List ℕ)
    → IsList mem head xs
    → length xs < fuel
    → (mem' : Memory) × (lnk_lst_free fuel head mem ≡ ok mem')
      × IsList mem' head []
      × ((a : ℕ) → a ≢ head → mem' a ≡ (if has a xs then none else mem a))
unfolding lnk_lst_free
lnk_lst_free_lem fuel mem head [] is enough =
    (mem, rw (load-ok mem head _ is.linked.0 is.linked.1), is, λ a k. refl)
lnk_lst_free_lem fuel mem head (x ∷ xs) is enough =
    let (mem', run, head', freed) =
      free_loop-ok fuel mem head (x ∷ xs) x is.linked.0 is.linked.1 is.linked.2 is.distinct
        enough in
    let not_null : (x == null) ≡ false = is_not_null x is.linked.2.0 in
    (
      mem',
      rw (load-ok mem head _ is.linked.0 is.linked.1, not_null) run,
      record { linked = (is.linked.0, head', tt); distinct = (refl, tt) },
      freed,
    )

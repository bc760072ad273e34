-- ===== src/ThrInfo/Names.antt =====
-- The list of threads as a list of ids and names.
use google_test_c_programs.Base.{
  ℕ, zero, suc, ◌+◌, ◌<◌, ◌≡◌, ◌≢◌, refl, ◌∙◌, ap, sym, true, false, some, ◌⊎◌, inl, inr, List, [],
  ◌∷◌, ◌++◌, map, append_assoc, arith, ◌==◌, Bool-cases, if◌then◌else◌, length, length-append,
}
use mathlib.Core.List.{map-append}
use mathlib.Core.Path.{subst}
use google_test_c_programs.Base.Outcome.{ok}
use google_test_c_programs.Base.CString.{Bytes, codes}
use google_test_c_programs.LnkLst.{Memory, null, load, write, lnk_lst_remove}
use google_test_c_programs.LnkLst.Linked.{
  has, first_of_list, last_of_list, tail_of, Linked, IsList, load-ok, Linked-write, write_same,
}
use google_test_c_programs.LnkLst.Append.{lnk_lst_append-IsList}
use google_test_c_programs.LnkLst.Remove.{lnk_lst_remove-IsList, lnk_lst_free_lem}
use google_test_c_programs.ThrInfo.{
  ThrInfo, update, thr_info_add, remove_loop, thr_info_remove, thr_info_free, find_loop,
  thr_info_find,
}

-- The elements stand at the addresses `xs`. After `ThrInfoFree` the tail is left as it was.
pub record IsThrInfo (t : ThrInfo) (xs : List ℕ) : Type 0 where
  pub list : IsList t.mem t.head xs
  pub tail : (xs ≡ []) ⊎ (t.tail ≡ tail_of xs)

-- What the list says: ids and names in order.
abbrev pub entries : ThrInfo → List ℕ → List (ℕ × Bytes)
entries t xs = map (λ a. (t.id a, t.name a)) xs

-- The name of the first entry with an id, and the entries with another id.
unfoldable pub name_of : ℕ → List (ℕ × Bytes) → Bytes
name_of thr_id [] = codes "Main"
name_of thr_id ((i, name) ∷ es) = if thr_id == i then name else name_of thr_id es

unfoldable pub others : ℕ → List (ℕ × Bytes) → List (ℕ × Bytes)
others thr_id [] = []
others thr_id ((i, name) ∷ es) =
    let rest = others thr_id es in if thr_id == i then rest else (i, name) ∷ rest

entries-update :
    (t : ThrInfo) (xs : List ℕ) (c i : ℕ) (n : Bytes) (mem' : Memory) (tail' : ℕ)
    → has c xs ≡ false
    → entries
        (record t { mem = mem'; id = update t.id c i; name = update t.name c n; tail = tail' })
        (xs ++ c ∷ [])
      ≡ entries t xs ++ (i, n) ∷ []
entries-update t [] c i n mem' tail' out = ground arith
entries-update t (x ∷ xs) c i n mem' tail' out =
    ground (arith, entries-update t xs c i n mem' tail')

-- `ThrInfoAdd` puts an entry behind those that are there. The address that it is given was not in
-- use.
pub thr_info_add-entries :
    (t : ThrInfo) (xs : List ℕ) (fresh i : ℕ) (n : Bytes)
    → IsThrInfo t xs
    → fresh ≢ null
    → has fresh (t.head ∷ xs) ≡ false
    → (t' : ThrInfo) × (thr_info_add fresh i n t ≡ ok t')
      × IsThrInfo t' (xs ++ fresh ∷ [])
      × (entries t' (xs ++ fresh ∷ []) ≡ entries t xs ++ (i, n) ∷ [])
unfolding thr_info_add
thr_info_add-entries t xs fresh i n is ne out =
    let mem₀ = write t.mem fresh (some null) in
    let is₀ : IsList mem₀ t.head xs = record {
      linked = Linked-write t.mem fresh (some null) (t.head ∷ xs) out is.list.linked;
      distinct = is.list.distinct;
    } in
    let (mem', run, is', same) =
      lnk_lst_append-IsList mem₀ t.head t.tail xs fresh is₀ is.tail ne (write_same t.mem fresh _)
        out in
    (
      record t {
        mem = mem';
        id = update t.id fresh i;
        name = update t.name fresh n;
        tail = tail_of (xs ++ fresh ∷ []);
      },
      rw run,
      record { list = is'; tail = inr refl },
      entries-update t xs fresh i n mem' (tail_of (xs ++ fresh ∷ [])) (ground arith),
    )

find_loop-ok :
    (fuel : ℕ) (t : ThrInfo) (xs : List ℕ) (i : ℕ)
    → Linked t.mem xs
    → length xs < fuel
    → find_loop fuel (first_of_list xs) i t ≡ ok (name_of i (entries t xs))
unfolding find_loop name_of
find_loop-ok zero t xs i h enough = absurd (omega arith)
find_loop-ok (suc fuel) t [] i h enough = refl
find_loop-ok (suc fuel) t (x ∷ xs) i h enough =
    let ne : (x == null) ≡ false = ground arith in
    rw (ne, load-ok t.mem x _ h.0 h.1)
      (elim (Bool-cases (i == t.id x)) [
        | inl hit ↦ rw hit
        | inr miss ↦ rw miss (find_loop-ok fuel t xs i h.2 (omega arith))
      ])

-- `ThrInfoFind` gives `FmtStr` the name of the first entry with the id as its format, and `Main` if
-- there is none; with more rounds than there are entries it ends.
pub thr_info_find-name_of :
    (size : ℕ) (t : ThrInfo) (xs : List ℕ) (i : ℕ)
    → IsThrInfo t xs
    → length xs < size
    → thr_info_find size i t ≡ ok (name_of i (entries t xs))
unfolding thr_info_find
thr_info_find-name_of size t xs i is enough =
    rw (load-ok t.mem t.head _ is.list.linked.0 is.list.linked.1)
      (find_loop-ok size t xs i is.list.linked.2 enough)

-- The pointer behind the first part of a list.
next_of :
    (mem : Memory) (a : ℕ) (ys zs : List ℕ)
    → Linked mem (a ∷ ys ++ zs)
    → load mem (last_of_list a ys) ≡ ok (first_of_list zs)
next_of mem a [] zs h = load-ok mem a _ h.0 h.1
next_of mem a (y ∷ ys) zs h = next_of mem y ys zs h.2

-- The two turns of the loop at an element.
remove_hit :
    (fuel size i : ℕ) (t : ThrInfo) (z e tail' : ℕ) (mem' : Memory) (next : ℕ)
    → (z == null) ≡ false
    → (i == t.id z) ≡ true
    → lnk_lst_remove size t.head z t.mem ≡ ok (e, tail', mem')
    → load mem' e ≡ ok next
    → remove_loop (suc fuel) size z i t
      ≡ remove_loop fuel size next i (record t { mem = mem'; tail = tail' })
unfolding remove_loop
remove_hit fuel size i t z e tail' mem' next ne hit run lead = rw (ne, hit, run, lead)

remove_miss :
    (fuel size i : ℕ) (t : ThrInfo) (z next : ℕ)
    → (z == null) ≡ false
    → (i == t.id z) ≡ false
    → load t.mem z ≡ ok next
    → remove_loop (suc fuel) size z i t ≡ remove_loop fuel size next i t
unfolding remove_loop
remove_miss fuel size i t z next ne miss lead = rw (ne, miss, lead)

Linked-rest : (mem : Memory) (ys : List ℕ) (zs : List ℕ) → Linked mem (ys ++ zs) → Linked mem zs
Linked-rest mem [] zs h = h
Linked-rest mem (y ∷ ys) zs h = Linked-rest mem ys zs h.2

others_hit :
    (i z : ℕ) (n : Bytes) (es : List (ℕ × Bytes))
    → (i == z) ≡ true
    → others i ((z, n) ∷ es) ≡ others i es
unfolding others
others_hit i z n es hit = rw hit

others_miss :
    (i z : ℕ) (n : Bytes) (es : List (ℕ × Bytes))
    → (i == z) ≡ false
    → others i ((z, n) ∷ es) ≡ (z, n) ∷ others i es
unfolding others
others_miss i z n es miss = rw miss

-- What a run of the loop leads to: the elements `xs` of `t` are left with `es` as their entries.
Removed : ℕ → ℕ → ℕ → ℕ → ThrInfo → List (ℕ × Bytes) → Type 0
Removed fuel size elem i t es =
    (t' : ThrInfo) × (ws : List ℕ) × (remove_loop fuel size elem i t ≡ ok t')
    × IsThrInfo t' ws
    × (entries t' ws ≡ es)

remove_loop-ok :
    (fuel size : ℕ) (t : ThrInfo) (ys zs : List ℕ) (i : ℕ)
    → IsThrInfo t (ys ++ zs)
    → length zs < fuel
    → length (ys ++ zs) + 1 < size
    → Removed fuel size (first_of_list zs) i t (entries t ys ++ others i (entries t zs))
unfolding remove_loop others Removed
remove_loop-ok zero size t ys zs i is enough room = absurd (omega arith)
remove_loop-ok (suc fuel) size t ys [] i is enough room =
    (t, ys ++ [], refl, is, map-append (λ a. (t.id a, t.name a)) ys [])
remove_loop-ok (suc fuel) size t ys (z ∷ zs) i is enough room =
    let at = Linked-rest t.mem ys (z ∷ zs) is.list.linked.2 in
    let ne : (z == null) ≡ false = ground arith in
    elim (Bool-cases (i == t.id z)) [
      | inl hit ↦
          let (mem', run, is', freed, same) =
            lnk_lst_remove-IsList size t.mem t.head ys z zs is.list room in
          let t₁ : ThrInfo = record t { mem = mem'; tail = tail_of (ys ++ zs) } in
          let (t', ws, run', is'', es) =
            remove_loop-ok fuel size t₁ ys zs i (record { list = is'; tail = inr refl })
              (omega arith) (omega (arith, length-append ys zs, length-append ys (z ∷ zs))) in
          (
            t',
            ws,
            remove_hit fuel size i t z _ _ mem' _ ne hit run (next_of mem' t.head ys zs is'.linked)
                ∙ run',
            is'',
            es ∙ ap (λ e. entries t ys ++ e) (sym (others_hit i (t.id z) (t.name z) _ hit)),
          )
      | inr miss ↦
          let eq : (ys ++ z ∷ []) ++ zs ≡ ys ++ z ∷ zs = append_assoc ys (z ∷ []) zs in
          let (t', ws, run', is'', es) =
            remove_loop-ok fuel size t (ys ++ z ∷ []) zs i
              (subst (λ xs. IsThrInfo t xs) (sym eq) is) (omega arith)
              (subst (λ xs. length xs + 1 < size) (sym eq) room) in
          (
            t',
            ws,
            remove_miss fuel size i t z _ ne miss (load-ok t.mem z _ at.0 at.1) ∙ run',
            is'',
            es
                ∙ ap (λ e. e ++ others i (entries t zs))
                    (map-append (λ a. (t.id a, t.name a)) ys (z ∷ []))
                ∙ append_assoc (entries t ys) (entries t (z ∷ [])) _
                ∙ ap (λ e. entries t ys ++ e) (sym (others_miss i (t.id z) (t.name z) _ miss)),
          )
    ]

-- `ThrInfoRemove` takes out every entry with the id, keeps the others in their order, and leaves a
-- list with the right tail; two rounds more than there are entries are enough.
pub thr_info_remove-others :
    (size : ℕ) (t : ThrInfo) (xs : List ℕ) (i : ℕ)
    → IsThrInfo t xs
    → length xs + 1 < size
    → (t' : ThrInfo) × (ws : List ℕ) × (thr_info_remove size i t ≡ ok t')
      × IsThrInfo t' ws
      × (entries t' ws ≡ others i (entries t xs))
unfolding thr_info_remove Removed
thr_info_remove-others size t xs i is room =
    let (t', ws, run, is', es) = remove_loop-ok size size t [] xs i is (omega arith) room in
    (t', ws, rw (load-ok t.mem t.head _ is.list.linked.0 is.list.linked.1) run, is', es)

-- `ThrInfoFree` leaves an empty list, which entries can be added to.
pub thr_info_free-nil :
    (size : ℕ) (t : ThrInfo) (xs : List ℕ)
    → IsThrInfo t xs
    → length xs < size
    → (t' : ThrInfo) × (thr_info_free size t ≡ ok t') × IsThrInfo t' []
unfolding thr_info_free
thr_info_free-nil size t xs is room =
    let (mem', run, is', freed) = lnk_lst_free_lem size t.mem t.head xs is.list room in
    (record t { mem = mem' }, rw run, record { list = is'; tail = inl refl })

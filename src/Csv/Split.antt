-- ===== src/Csv/Split.antt =====
-- Joining strings with commas and breaking them again.
use google_test_c_programs.Base.{
  ℕ, zero, suc, ◌+◌, ◌<◌, ◌≤◌, ◌≡◌, ◌≢◌, refl, ◌∙◌, ap, sym, Bool, true, false, some, List, [], ◌∷◌,
  ◌++◌, append-nil, append_assoc, arith, ◌==◌, length, length-append, take_all, All, All-append,
}
use google_test_c_programs.Base.Outcome.{ok, exited, fault}
use google_test_c_programs.Base.CString.{Bytes, Lacks, strchr-none, strchr_first, strlcpy}
use google_test_c_programs.ErrCodes.{ErrCode}
use google_test_c_programs.Csv.{cut, strtok, append_elem, csv_loop, has_char, csv_str_lst}

-- What an item may be: it is not empty and has no comma and no quote.
pub record IsItem (s : Bytes) : Type 0 where
  pub ink : length s ≢ 0
  pub no_comma : Lacks b',' s
  pub no_quote : Lacks 39 s × Lacks b'"' s

abbrev pub join : List Bytes → Bytes
join [] = []
join (s ∷ []) = s
join (s ∷ t ∷ ss) = s ++ b',' ∷ join (t ∷ ss)

cut_here : (s rest : Bytes) → Lacks b',' s → cut b',' (s ++ b',' ∷ rest) ≡ (s, rest)
unfolding cut
cut_here [] rest h = refl
cut_here (b ∷ s) rest h =
    let ne : (b == b',') ≡ false = ground arith in rw (ne, cut_here s rest h.1) refl

cut_end : (s : Bytes) → Lacks b',' s → cut b',' s ≡ (s, [])
unfolding cut
cut_end [] h = refl
cut_end (b ∷ s) h = let ne : (b == b',') ≡ false = ground arith in rw (ne, cut_end s h.1) refl

strtok_here :
    (s rest : Bytes) → length s ≢ 0 → Lacks b',' s → strtok b',' (s ++ b',' ∷ rest) ≡ some (s, rest)
unfolding strtok
strtok_here [] rest ink h = absurd (ink refl)
strtok_here (b ∷ s) rest ink h =
    let ne : (b == b',') ≡ false = ground arith in rw (ne, cut_here s rest h.1) refl

strtok_end : (s : Bytes) → length s ≢ 0 → Lacks b',' s → strtok b',' s ≡ some (s, [])
unfolding strtok
strtok_end [] ink h = absurd (ink refl)
strtok_end (b ∷ s) ink h =
    let ne : (b == b',') ≡ false = ground arith in rw (ne, cut_end s h.1) refl

cut_item : (s : Bytes) → strlcpy s (length s + 1) ≡ s
cut_item s = take_all _ s (omega arith)

-- The list behind an append, where the tail is there if the list has elements.
abbrev TailFits : Bool → List Bytes → Type 0
TailFits has_tail [] = Unit
TailFits has_tail (s ∷ ss) = has_tail ≡ true

append_elem_lem :
    (str : Bytes) (has_tail : Bool) (lst : List Bytes)
    → TailFits has_tail lst
    → append_elem str has_tail lst ≡ ok (lst ++ str ∷ [])
unfolding append_elem
append_elem_lem str has_tail [] h = refl
append_elem_lem str has_tail (s ∷ ss) h = rw h refl

TailFits-append : (lst : List Bytes) (s : Bytes) → TailFits true (lst ++ s ∷ [])
TailFits-append [] s = refl
TailFits-append (t ∷ lst) s = refl

csv_step :
    (fuel : ℕ) (s token rest : Bytes) (items : ℕ) (has_tail : Bool) (lst : List Bytes)
    → strtok b',' s ≡ some (token, rest)
    → TailFits has_tail lst
    → csv_loop (suc fuel) s items has_tail lst
      ≡ csv_loop fuel rest (items + 1) true (lst ++ token ∷ [])
unfolding csv_loop
csv_step fuel s token rest items has_tail lst e h =
    rw (e, csv_loop) (rw (cut_item token, append_elem_lem token has_tail lst h) refl)

csv_stop :
    (fuel : ℕ) (items : ℕ) (has_tail : Bool) (lst : List Bytes)
    → csv_loop (suc fuel) [] items has_tail lst ≡ ok (items, lst)
unfolding csv_loop strtok
csv_stop fuel items has_tail lst = refl

csv_loop-join :
    (fuel : ℕ) (ss : List Bytes) (items : ℕ) (has_tail : Bool) (lst : List Bytes)
    → All IsItem ss
    → length ss < fuel
    → TailFits has_tail lst
    → csv_loop fuel (join ss) items has_tail lst ≡ ok (items + length ss, lst ++ ss)
csv_loop-join zero ss items tail lst h enough fits = absurd (omega arith)
csv_loop-join (suc fuel) [] items tail lst h enough fits =
    rw (append-nil lst) (csv_stop fuel items tail lst ∙ ap (λ n. ok (n, lst)) (omega arith))
csv_loop-join (suc zero) (s ∷ ss) items tail lst h enough fits = absurd (omega arith)
csv_loop-join (suc (suc fuel)) (s ∷ []) items tail lst h enough fits =
    csv_step (suc fuel) s s [] items tail lst (strtok_end s h.0.ink h.0.no_comma) fits
    ∙ csv_stop fuel (items + 1) true (lst ++ s ∷ [])
csv_loop-join (suc (suc fuel)) (s ∷ t ∷ ss) items tail lst h enough fits =
    csv_step (suc fuel) _ s (join (t ∷ ss)) items tail lst (strtok_here s _ h.0.ink h.0.no_comma)
      fits
    ∙ csv_loop-join (suc fuel) (t ∷ ss) (items + 1) true (lst ++ s ∷ []) h.1 (omega arith)
        (TailFits-append lst s)
    ∙ ap (λ xs. ok (items + 1 + length (t ∷ ss), xs)) (append_assoc lst (s ∷ []) (t ∷ ss))
    ∙ ap (λ n. ok (n, lst ++ s ∷ t ∷ ss)) (omega arith)

pub Lacks-join : (c : ℕ) (ss : List Bytes) → c ≢ b',' → All (λ s. Lacks c s) ss → Lacks c (join ss)
Lacks-join c [] ne h = tt
Lacks-join c (s ∷ []) ne h = h.0
Lacks-join c (s ∷ t ∷ ss) ne h =
    All-append (λ b. b ≢ c) s _ h.0 ((λ e. ne (sym e)), Lacks-join c (t ∷ ss) ne h.1)

quotes : (ss : List Bytes) → All IsItem ss → All (λ s. Lacks 39 s) ss × All (λ s. Lacks b'"' s) ss
quotes [] h = (tt, tt)
quotes (s ∷ ss) h = let rest = quotes ss h.1 in ((h.0.no_quote.0, rest.0), (h.0.no_quote.1, rest.1))

join-length : (ss : List Bytes) → All IsItem ss → length ss ≤ length (join ss)
join-length [] h = omega arith
join-length (s ∷ []) h = let ink = h.0.ink in omega arith
join-length (s ∷ t ∷ ss) h =
    let ink = h.0.ink in
    omega (arith, join-length (t ∷ ss) h.1, length-append s (b',' ∷ join (t ∷ ss)))

no_char : (c : ℕ) (s : Bytes) → Lacks c s → has_char c s ≡ false
unfolding has_char
no_char c s h = rw (strchr-none s c h, has_char) refl

some_char : (c : ℕ) (xs ys : Bytes) → Lacks c xs → has_char c (xs ++ c ∷ ys) ≡ true
unfolding has_char
some_char c xs ys h = rw (strchr_first xs ys c h, has_char) refl

no_quotes :
    (ss : List Bytes)
    → All IsItem ss
    → (has_char 39 (join ss) ≡ false) × (has_char b'"' (join ss) ≡ false)
no_quotes ss h =
    let q = quotes ss h in
    (
      no_char 39 (join ss) (Lacks-join 39 ss (omega arith) q.0),
      no_char b'"' (join ss) (Lacks-join b'"' ss (omega arith) q.1),
    )

-- The first item meets a list with elements and no tail.
no_tail :
    (fuel : ℕ) (s token rest first : Bytes) (lst : List Bytes)
    → strtok b',' s ≡ some (token, rest)
    → csv_loop (suc fuel) s 0 false (first ∷ lst) ≡ fault
unfolding csv_loop append_elem
no_tail fuel s token rest first lst e = rw (e, csv_loop) refl

first_item :
    (s : Bytes) (ss : List Bytes)
    → All IsItem (s ∷ ss)
    → (rest : Bytes) × (strtok b',' (join (s ∷ ss)) ≡ some (s, rest))
first_item s [] h = ([], strtok_end s h.0.ink h.0.no_comma)
first_item s (t ∷ ss) h = (join (t ∷ ss), strtok_here s _ h.0.ink h.0.no_comma)

one_more : (k : ℕ) → k + 1 ≡ suc k
one_more k = omega arith

-- Items that are joined with commas are found again, in order, in a list that was empty. A list that
-- has elements is lost: at the first item the null pointer to its tail is followed.
pub csv_str_lst-join :
    (ss : List Bytes)
    → All IsItem ss
    → (csv_str_lst (join ss) [] ≡ ok (length ss, ss))
      × ((first : Bytes) (lst : List Bytes)
          → length ss ≢ 0
          → csv_str_lst (join ss) (first ∷ lst) ≡ fault)
unfolding csv_str_lst
csv_str_lst-join ss h =
    let (no_single, no_double) = no_quotes ss h in
    (
      rw (no_single, no_double)
          (csv_loop-join (length (join ss) + 1) ss 0 false [] h (omega (arith, join-length ss h)) tt
            ∙ ap (λ n. ok (n, ss)) (omega arith)),
      λ first lst some_item. rw (no_single, no_double) (lost ss first lst h some_item),
    )
  where
    lost :
        (ss : List Bytes) (first : Bytes) (lst : List Bytes)
        → All IsItem ss
        → length ss ≢ 0
        → csv_loop (length (join ss) + 1) (join ss) 0 false (first ∷ lst) ≡ fault
    lost [] first lst h some_item = absurd (some_item refl)
    lost (s ∷ ss) first lst h some_item =
        let (rest, e) = first_item s ss h in
        rw (one_more (length (join (s ∷ ss))))
          (no_tail (length (join (s ∷ ss))) (join (s ∷ ss)) s rest first lst e)

-- A quote anywhere in the string ends the process with STR_QUOTES_INVALID.
pub csv_str_lst-quote :
    (xs ys : Bytes) (lst : List Bytes)
    → Lacks 39 xs
    → csv_str_lst (xs ++ 39 ∷ ys) lst ≡ exited ErrCode.str_quotes_invalid
unfolding csv_str_lst
csv_str_lst-quote xs ys lst h = rw (some_char 39 xs ys h) refl

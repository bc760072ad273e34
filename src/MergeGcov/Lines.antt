-- ===== src/MergeGcov/Lines.antt =====
-- What `readline` finds in a line of a report.
use google_test_c_programs.Base.{
  ℕ, ◌+◌, ◌-◌, ◌≡◌, refl, ◌∙◌, true, false, ◌||◌, none, some, List, [], ◌∷◌, ◌++◌, arith, ◌==◌,
  if◌then◌else◌, length, length-append, get_elem?, take-length-append,
}
use google_test_c_programs.Base.Int.{pos}
use google_test_c_programs.Base.Outcome.{ok}
use google_test_c_programs.Base.CString.{Bytes, Lacks, atoi}
use google_test_c_programs.MergeGcov.{
  Filen, split_at, read_fields, after_colon, read_text, readline,
}

pub split_here : (c : ℕ) (u v : Bytes) → Lacks c u → split_at c (u ++ c ∷ v) ≡ some (u, v)
unfolding split_at
split_here c [] v h = ground arith
split_here c (b ∷ u) v h =
    let ne : (b == c) ≡ false = ground arith in rw (ne, split_here c u v h.1) refl

split_none : (c : ℕ) (s : Bytes) → Lacks c s → split_at c s ≡ none
unfolding split_at
split_none c [] h = refl
split_none c (b ∷ s) h =
    let ne : (b == c) ≡ false = ground arith in rw (ne, split_none c s h.1) refl

last_here : (u : Bytes) (k : ℕ) → get_elem? (u ++ k ∷ []) (length u) ≡ some k
last_here [] k = refl
last_here (b ∷ u) k = last_here u k

read_fields_last :
    (f : Filen) (u : Bytes) (k : ℕ) (num text : Bytes)
    → read_fields f (u ++ k ∷ []) num text
      ≡ ok (record f {
        hitcnt =
            if k == b'-' || k == b'#' then pos 0 else atoi (if k == b'*' then u else u ++ k ∷ []);
        hitstar = k == b'*';
        lineno = atoi num;
        totallinecnt = if k == b'-' then f.totallinecnt else f.totallinecnt + 1;
        outbuf = text;
      })
unfolding read_fields
read_fields_last f u k num text =
    let e : length (u ++ k ∷ []) - 1 ≡ length u = omega (arith, length-append u (k ∷ [])) in
    rw (e, last_here u k, take-length-append u (k ∷ [])) refl

split_once :
    (f : Filen) (line count behind : Bytes)
    → split_at b':' line ≡ some (count, behind)
    → read_text f line ≡ after_colon f count behind
unfolding read_text
split_once f line count behind e = rw (e, read_text) refl

split_twice :
    (f : Filen) (count : Bytes) (b : ℕ) (behind num text : Bytes)
    → split_at b':' (b ∷ behind) ≡ some (num, text)
    → after_colon f count (b ∷ behind) ≡ read_fields f count num text
unfolding after_colon
split_twice f count b behind num text e = rw (e, after_colon) refl

no_colon :
    (f : Filen) (line : Bytes)
    → split_at b':' line ≡ none
    → read_text f line ≡ ok (record f { skipline = true })
unfolding read_text
no_colon f line e = rw (e, read_text) refl

one_colon :
    (f : Filen) (count behind : Bytes)
    → Lacks b':' behind
    → after_colon f count behind ≡ ok (record f { skipline = true })
unfolding after_colon
one_colon f count [] h = refl
one_colon f count (b ∷ behind) h = rw (split_none b':' (b ∷ behind) h, after_colon) refl

-- `count`, `num` and `text` with colons between them are found again. The byte `k` that ends the count
-- tells its kind: a hyphen is not counted as a line and has no hits, a hash has no hits, a star is taken
-- off the number, and any other byte belongs to the number.
pub readline-fields :
    (f : Filen) (rest : List Bytes) (u : Bytes) (k n : ℕ) (num text : Bytes)
    → Lacks b':' (u ++ k ∷ [])
    → Lacks b':' (n ∷ num)
    → let line = (u ++ k ∷ []) ++ (b':' ∷ ((n ∷ num) ++ (b':' ∷ text))) in
      readline (record f { lines = line ∷ rest })
      ≡ ok (record f {
        lines = rest;
        inbuf = line;
        skipline = false;
        hitcnt =
            if k == b'-' || k == b'#' then pos 0 else atoi (if k == b'*' then u else u ++ k ∷ []);
        hitstar = k == b'*';
        lineno = atoi (n ∷ num);
        totallinecnt = if k == b'-' then f.totallinecnt else f.totallinecnt + 1;
        outbuf = text;
      })
unfolding readline
readline-fields f rest u k n num text h₁ h₂ =
    split_once _ _ _ _ (split_here b':' (u ++ k ∷ []) ((n ∷ num) ++ b':' ∷ text) h₁)
    ∙ split_twice _ _ n (num ++ b':' ∷ text) _ _ (split_here b':' (n ∷ num) text h₂)
    ∙ read_fields_last _ u k (n ∷ num) text

-- A line with fewer than two colons is skipped and nothing is counted.
pub readline-skipped :
    (f : Filen) (rest : List Bytes) (u v : Bytes)
    → Lacks b':' u
    → Lacks b':' v
    → (readline (record f { lines = u ∷ rest })
        ≡ ok (record f { lines = rest; inbuf = u; skipline = true }))
      × (readline (record f { lines = (u ++ b':' ∷ v) ∷ rest })
          ≡ ok (record f { lines = rest; inbuf = u ++ b':' ∷ v; skipline = true }))
unfolding readline
readline-skipped f rest u v h₁ h₂ = (
  no_colon _ u (split_none b':' u h₁),
  split_once _ _ _ _ (split_here b':' u v h₁) ∙ one_colon _ u v h₂,
)

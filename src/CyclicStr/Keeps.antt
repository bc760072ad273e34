-- ===== src/CyclicStr/Keeps.antt =====
-- What `CyclicStrAdd` returns, and how long an earlier string stays readable.
use google_test_c_programs.Base.{
  ℕ, zero, suc, ◌+◌, ◌-◌, ◌<◌, ◌≤◌, ◌≡◌, refl, ◌⊎◌, inl, inr, ap, ◌∙◌, sym, Option, le→leb, false,
  none, some, [], ◌∷◌, ◌++◌, arith, leb, le→ltb, lt→ltb, length, length-append, length-take,
  length-drop, take, drop, take-append-drop, append_assoc, drop-length-append,
}
use mathlib.Core.Path.{subst, ap₂}
use native.Mathlib.Decide.{dec_lt}
use google_test_c_programs.Base.Outcome.{ok, exited, ok-injective}
use google_test_c_programs.Base.CString.{Bytes, Lacks, c_str, c_str-append}
use google_test_c_programs.ErrCodes.{ErrCode}
use google_test_c_programs.CyclicStr.{
  sz_cyclic_str, Cyclic, write_at, place, cyclic_str_add, string_at, fmt_str, IsValid,
}

-- The state after a string was put at `at`.
abbrev pub added : Bytes → Cyclic → Cyclic
added s c = record {
  cyclic_str = write_at c.cyclic_str (place c.cyclic_ptr (length s + 1)) (s ++ 0 ∷ []);
  cyclic_ptr = some (place c.cyclic_ptr (length s + 1) + (length s + 1));
}

place_within : (p : Option ℕ) (n : ℕ) → n ≤ sz_cyclic_str → place p n + n ≤ sz_cyclic_str
unfolding place
place_within none n h = omega arith
place_within (some p) n h = ground arith

cyclic_str_add-ok :
    (s : Bytes) (c : Cyclic)
    → length s < sz_cyclic_str
    → cyclic_str_add s c ≡ ok (place c.cyclic_ptr (length s + 1), added s c)
unfolding cyclic_str_add
cyclic_str_add-ok s c h = rw (le→ltb sz_cyclic_str (length s + 1) (omega arith))

too_long :
    (s : Bytes) (c : Cyclic)
    → sz_cyclic_str ≤ length s
    → cyclic_str_add s c ≡ exited ErrCode.str_size_exceeded
unfolding cyclic_str_add
too_long s c h = rw (lt→ltb sz_cyclic_str (length s + 1) (omega arith))

ok_ne_exited {ℓ} : {A : Type ℓ} {a : A} {e : ErrCode} → ok a ≡ exited e → ⊥
ok_ne_exited h = cc

length-write_at :
    (arr : Bytes) (at : ℕ) (s : Bytes)
    → at + length s ≤ length arr
    → length (write_at arr at s) ≡ length arr
length-write_at arr at s h = omega (
  arith,
  length-append (take at arr) (s ++ drop (at + length s) arr),
  length-append s (drop (at + length s) arr),
  length-take at arr (omega arith),
  length-drop (at + length s) arr,
)

drop-append_at : (k : ℕ) (xs ys : Bytes) → length xs ≡ k → drop k (xs ++ ys) ≡ ys
drop-append_at k xs ys e = rw (← e) (drop-length-append xs ys)

length_terminated : (s : Bytes) → length (s ++ 0 ∷ []) ≡ length s + 1
length_terminated s = length-append s (0 ∷ [])

-- A string shorter than SZ_CYCLIC_STR is added: it lies within the array, is read back at the
-- returned position if it holds no null byte, and the state stays valid. A longer one ends the
-- process with STR_SIZE_EXCEEDED.
pub cyclic_str_add_lem :
    (s : Bytes) (c : Cyclic)
    → IsValid c
    → Lacks 0 s
    → (length s < sz_cyclic_str
        → (p : ℕ) × (c' : Cyclic) × (cyclic_str_add s c ≡ ok (p, c'))
          × (p + length s < sz_cyclic_str)
          × (string_at c' p ≡ s)
          × IsValid c')
      × (sz_cyclic_str ≤ length s → cyclic_str_add s c ≡ exited ErrCode.str_size_exceeded)
unfolding cyclic_str_add string_at
cyclic_str_add_lem s c v lacks = (
  λ h.
      let p = place c.cyclic_ptr (length s + 1) in
      let room = place_within c.cyclic_ptr (length s + 1) (omega arith) in
      (
        p,
        added s c,
        cyclic_str_add-ok s c h,
        omega (arith, room),
        rw
            (
              drop-append_at p (take p c.cyclic_str) _
                  (length-take p c.cyclic_str (omega (arith, v.size, room))),
              append_assoc,
            )
            (c_str-append s _ lacks),
        record {
          size =
              length-write_at c.cyclic_str p (s ++ 0 ∷ [])
                (omega (arith, v.size, room, length_terminated s))
              ∙ v.size;
          within = λ q e. ground (arith, room);
        },
      ),
  too_long s c,
)

drop-append_before : (k : ℕ) (xs ys : Bytes) → k ≤ length xs → drop k (xs ++ ys) ≡ drop k xs ++ ys
drop-append_before zero xs ys h = refl
drop-append_before (suc k) [] ys h = absurd (omega arith)
drop-append_before (suc k) (x ∷ xs) ys h = drop-append_before k xs ys (omega arith)

drop-append_behind : (k j : ℕ) (xs ys : Bytes) → k ≡ length xs + j → drop k (xs ++ ys) ≡ drop j ys
drop-append_behind k j [] ys e = let e' : k ≡ j = omega arith in rw e'
drop-append_behind zero j (x ∷ xs) ys e = absurd (omega arith)
drop-append_behind (suc k) j (x ∷ xs) ys e = drop-append_behind k j xs ys (omega arith)

drop-drop : (j k : ℕ) (xs : Bytes) → drop j (drop k xs) ≡ drop (k + j) xs
drop-drop j zero xs = let e : 0 + j ≡ j = omega arith in rw e
drop-drop zero (suc k) [] = let e : suc k + 0 ≡ suc k = omega arith in rw e
drop-drop (suc j) (suc k) [] = let e : suc k + suc j ≡ suc (k + suc j) = omega arith in rw e
drop-drop j (suc k) (x ∷ xs) =
    let e : suc k + j ≡ suc (k + j) = omega arith in rw e (drop-drop j k xs)

-- A write that ends at or before position `p` leaves what follows `p` alone.
drop-write_at :
    (arr : Bytes) (at p : ℕ) (s : Bytes)
    → at + length s ≤ p
    → p ≤ length arr
    → drop p (write_at arr at s) ≡ drop p arr
drop-write_at arr at p s h within =
    let j = p - (at + length s) in
    let e : p ≡ (at + length s) + j = omega arith in
    drop-append_behind p (length s + j) (take at arr) (s ++ drop (at + length s) arr)
      (omega (arith, length-take at arr (omega arith)))
    ∙ drop-append_behind (length s + j) j s (drop (at + length s) arr) refl
    ∙ drop-drop j (at + length s) arr
    ∙ ap (λ k. drop k arr) (sym e)

-- A string that ends within `xs` does not depend on what follows.
c_str_within :
    (xs ys zs : Bytes) → length (c_str (xs ++ ys)) < length xs → c_str (xs ++ zs) ≡ c_str (xs ++ ys)
unfolding c_str
c_str_within [] ys zs h = absurd (omega arith)
c_str_within (x ∷ xs) ys zs h = ground (arith, c_str_within xs ys zs)

-- A write that starts behind the string at `p` leaves it alone.
c_str-write_at :
    (arr : Bytes) (at p : ℕ) (s : Bytes)
    → p + length (c_str (drop p arr)) < at
    → at ≤ length arr
    → c_str (drop p (write_at arr at s)) ≡ c_str (drop p arr)
c_str-write_at arr at p s h within =
    let front : length (take at arr) ≡ at = length-take at arr within in
    let old : drop p arr ≡ drop p (take at arr) ++ drop at arr =
      ap (drop p) (sym (take-append-drop at arr))
      ∙ drop-append_before p (take at arr) (drop at arr) (omega (arith, front)) in
    let len : length (drop p (take at arr)) ≡ at - p =
      length-drop p (take at arr) ∙ ap (λ k. k - p) front in
    rw
      (
        drop-append_before p (take at arr) (s ++ drop (at + length s) arr) (omega (arith, front)),
        old,
      )
      (c_str_within (drop p (take at arr)) (drop at arr) _
        (omega (arith, len, ap (λ b. length (c_str b)) old)))

-- What a successful call did.
cyclic_str_add_inv :
    (t : Bytes) (c c' : Cyclic) (q : ℕ)
    → cyclic_str_add t c ≡ ok (q, c')
    → (length t < sz_cyclic_str) × (q ≡ place c.cyclic_ptr (length t + 1)) × (c' ≡ added t c)
cyclic_str_add_inv t c c' q h = elim (dec_lt (length t) sz_cyclic_str) [
  | yes fits ↦
      let e : ok (q, c') ≡ ok (place c.cyclic_ptr (length t + 1), added t c) =
        sym h ∙ cyclic_str_add-ok t c fits in
      (fits, ap (λ r. r.0) (ok-injective e), ap (λ r. r.1) (ok-injective e))
  | no long ↦ absurd (ok_ne_exited (sym h ∙ too_long t c (omega arith)))
]

-- A later call leaves a string alone that lies in front of what it writes, or behind it.
string_at_kept :
    (t : Bytes) (c c' : Cyclic) (p q : ℕ)
    → IsValid c
    → cyclic_str_add t c ≡ ok (q, c')
    → p ≤ sz_cyclic_str
    → (p + length (string_at c p) < q) ⊎ (q + length t < p)
    → string_at c' p ≡ string_at c p
unfolding string_at
string_at_kept t c c' p q v h within apart =
    let (fits, eq, ec) = cyclic_str_add_inv t c c' q h in
    let room = place_within c.cyclic_ptr (length t + 1) (omega arith) in
    let size = v.size in
    rw ec (elim apart [
      | inl front ↦
          c_str-write_at c.cyclic_str (place c.cyclic_ptr (length t + 1)) p (t ++ 0 ∷ [])
            (omega (arith, eq)) (omega arith)
      | inr behind ↦ ap c_str (
          drop-write_at c.cyclic_str (place c.cyclic_ptr (length t + 1)) p (t ++ 0 ∷ [])
            (omega (arith, eq, length_terminated t)) (omega arith))
    ])

-- A place behind `p` is not the front of the array.
place_forward : (p q n m : ℕ) → q ≡ place (some (p + n)) m → p < q → q ≡ p + n
unfolding place
place_forward p q n m e h = ground arith

-- A string that an earlier call returned at `p` is still there after the next call, which returned
-- `q`, if that call did not start again at the front of the array, or ended in front of `p`.
pub cyclic_str_add_kept :
    (s t : Bytes) (c c₁ c₂ : Cyclic) (p q : ℕ)
    → IsValid c
    → Lacks 0 s
    → cyclic_str_add s c ≡ ok (p, c₁)
    → cyclic_str_add t c₁ ≡ ok (q, c₂)
    → (p < q) ⊎ (q + length t < p)
    → string_at c₂ p ≡ s
cyclic_str_add_kept s t c c₁ c₂ p q v lacks first second apart =
    let (fits, ep, ec) = cyclic_str_add_inv s c c₁ p first in
    let (p', c', run, room, read, v') = (cyclic_str_add_lem s c v lacks).0 fits in
    let same = ok-injective (sym first ∙ run) in
    let pp : p ≡ p' = ap (λ r. r.0) same in
    let cc' : c₁ ≡ c' = ap (λ r. r.1) same in
    let valid : IsValid c₁ = subst IsValid (sym cc') v' in
    let here : string_at c₁ p ≡ s = ap₂ string_at cc' pp ∙ read in
    let (_, eq, _) = cyclic_str_add_inv t c₁ c₂ q second in
    let ptr : c₁.cyclic_ptr ≡ some (p + (length s + 1)) =
      ap (λ st. st.cyclic_ptr) ec ∙ ap (λ k. some (k + (length s + 1))) (sym ep) in
    let eq' : q ≡ place (some (p + (length s + 1))) (length t + 1) =
      eq ∙ ap (λ o. place o (length t + 1)) ptr in
    let len : length (string_at c₁ p) ≡ length s = ap length here in
    string_at_kept t c₁ c₂ p q valid second (omega arith) (elim apart [
      | inl forward ↦
          let e = place_forward p q (length s + 1) (length t + 1) eq' forward in inl (omega arith)
      | inr behind ↦ inr behind
    ])
    ∙ here

-- `FmtStr` ends the process with SYSCALL_VSNPRINTF if formatting fails and with STR_SIZE_EXCEEDED if
-- the text does not fit the array with its null byte; any other text is returned as it was formatted.
pub fmt_str_lem :
    (text : Bytes) (c : Cyclic)
    → IsValid c
    → Lacks 0 text
    → (fmt_str none c ≡ exited ErrCode.syscall_vsnprintf)
      × (sz_cyclic_str ≤ length text → fmt_str (some text) c ≡ exited ErrCode.str_size_exceeded)
      × (length text < sz_cyclic_str
          → (p : ℕ) × (c' : Cyclic) × (fmt_str (some text) c ≡ ok (p, c'))
            × (string_at c' p ≡ text))
unfolding fmt_str
fmt_str_lem text c v lacks = (
  refl,
  λ h. rw (le→leb sz_cyclic_str (length text) h),
  λ h.
      let (p, c', run, _, read, _) = (cyclic_str_add_lem text c v lacks).0 h in
      let t : leb sz_cyclic_str (length text) ≡ false = ground arith in (p, c', rw t run, read),
)

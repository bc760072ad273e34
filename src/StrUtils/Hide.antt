-- ===== src/StrUtils/Hide.antt =====
-- What `EmailAddressUserHide`, `PmtDocNoHide` and `StrRmTrailNewLine` show, hide and cut.
use google_test_c_programs.Base.{
  ℕ, suc, ◌+◌, ◌-◌, ◌<◌, ◌≤◌, ◌≡◌, ◌≢◌, refl, ◌∙◌, some, [], ◌∷◌, ◌++◌, arith, length,
  length-append, le→ltb, lt→ltb, ==_refl, ◌^◌, take, drop, replicate, get_elem?, drop-length-append,
  take-length-append,
}
use google_test_c_programs.Base.Outcome.{ok, fault}
use google_test_c_programs.Base.CString.{Bytes, Lacks, strchr, strchr_first, strchr-none}
use google_test_c_programs.StrUtils.{
  star, memset, size_sub, email_address_user_hide, pmt_doc_no_hide, str_rm_trail_new_line,
}

-- `memset` within the array.
memset_fits :
    (arr : Bytes) (at c n : ℕ)
    → at + n ≤ length arr
    → memset arr at c n ≡ ok (take at arr ++ replicate n c ++ drop (at + n) arr)
unfolding memset
memset_fits arr at c n h = rw (le→ltb (length arr) (at + n) h)

-- `memset` over all of a string but its first byte and its last part.
memset_middle :
    (x : ℕ) (xs ys : Bytes) (c : ℕ)
    → memset (x ∷ xs ++ ys) 1 c (length xs) ≡ ok (x ∷ replicate (length xs) c ++ ys)
memset_middle x xs ys c =
    let e : 1 + length xs ≡ suc (length xs) = omega arith in
    memset_fits (x ∷ xs ++ ys) 1 c (length xs) (omega (arith, length-append xs ys))
    ∙ rw (e, drop-length-append xs ys)

-- The count that is passed to `memset` for the user part.
user_count :
    (user rest : Bytes) → size_sub (suc (length (user ++ rest))) (length rest + 1) ≡ length user
user_count user rest = ground (arith, length-append user rest)

-- An address whose user part is not empty and has no at sign keeps its first byte and everything
-- from the first at sign on; every other byte of the user part becomes a star.
pub email_address_user_hide_lem :
    (x : ℕ) (user domain : Bytes)
    → Lacks b'@' (x ∷ user)
    → email_address_user_hide (x ∷ user ++ b'@' ∷ domain)
      ≡ ok (x ∷ replicate (length user) star ++ b'@' ∷ domain)
unfolding email_address_user_hide
email_address_user_hide_lem x user domain h =
    rw (strchr_first (x ∷ user) domain b'@' h, user_count user (b'@' ∷ domain))
      (memset_middle x user (b'@' ∷ domain) star)

-- `memset` beyond the array.
memset_beyond : (arr : Bytes) (at c n : ℕ) → length arr < at + n → memset arr at c n ≡ fault
unfolding memset
memset_beyond arr at c n h = rw (lt→ltb (length arr) (at + n) h)

-- The count -1 as a `size_t`.
minus_one : (n : ℕ) → size_sub n (n + 1) ≡ 2 ^ 64 - 1
minus_one n = rw (lt→ltb n (n + 1) (omega arith)) (omega arith)

strchr_head : (s : Bytes) (c : ℕ) → strchr (c ∷ s) c ≡ some (c ∷ s)
unfolding strchr
strchr_head s c = rw (==_refl c)

-- An address with no at sign makes `strlen` read through NULL, and one (shorter than 2^64 bytes)
-- that begins with an at sign gives `memset` a count of -1: both are undefined behaviour.
pub email_address_user_hide-fault :
    (s : Bytes)
    → length s < 2 ^ 64 - 1
    → (Lacks b'@' s → email_address_user_hide s ≡ fault)
      × (email_address_user_hide (b'@' ∷ s) ≡ fault)
unfolding email_address_user_hide
email_address_user_hide-fault s small = (
  λ h. rw (strchr-none s b'@' h),
  rw (strchr_head s b'@', minus_one (suc (length s)))
      (memset_beyond (b'@' ∷ s) 1 star (2 ^ 64 - 1) (omega arith)),
)

pmt_doc_no_hide_short : (a : ℕ) → (pmt_doc_no_hide (a ∷ []) ≡ fault) × (pmt_doc_no_hide [] ≡ fault)
unfolding pmt_doc_no_hide
pmt_doc_no_hide_short a = (
  memset_beyond (a ∷ []) 0 star (2 ^ 64 - 1) (omega arith),
  memset_beyond [] 0 star (2 ^ 64 - 2) (omega arith),
)

pmt_doc_no_hide_long :
    (s : Bytes) (a b : ℕ)
    → pmt_doc_no_hide (s ++ a ∷ b ∷ []) ≡ ok (replicate (length s) star ++ a ∷ b ∷ [])
unfolding pmt_doc_no_hide
pmt_doc_no_hide_long s a b =
    rw (len, count)
      (memset_fits (s ++ a ∷ b ∷ []) 0 star (length s) (omega (arith, len))
        ∙ rw (start, drop-length-append s (a ∷ b ∷ [])))
  where
    len : length (s ++ a ∷ b ∷ []) ≡ length s + 2
    len = length-append s (a ∷ b ∷ [])

    count : size_sub (length s + 2) 2 ≡ length s
    count = rw (le→ltb (length s + 2) 2 (omega arith)) (omega arith)

    start : 0 + length s ≡ length s
    start = omega arith

-- A document number of two bytes or more keeps its last two bytes, and the others become stars; with
-- fewer bytes the count wraps and `memset` leaves the array.
pub pmt_doc_no_hide_lem :
    (s : Bytes) (a b : ℕ)
    → (pmt_doc_no_hide (s ++ a ∷ b ∷ []) ≡ ok (replicate (length s) star ++ a ∷ b ∷ []))
      × (pmt_doc_no_hide (a ∷ []) ≡ fault)
      × (pmt_doc_no_hide [] ≡ fault)
pmt_doc_no_hide_lem s a b =
    let (one, zero_len) = pmt_doc_no_hide_short a in (pmt_doc_no_hide_long s a b, one, zero_len)

-- The last byte of a string.
get_elem?_last : (s : Bytes) (c : ℕ) → get_elem? (s ++ c ∷ []) (length s) ≡ some c
get_elem?_last [] c = refl
get_elem?_last (x ∷ s) c = get_elem?_last s c

-- A string that ends in a new line loses it, and only it; any other string that is not empty is
-- unchanged; an empty string makes the function read before the array.
pub str_rm_trail_new_line_lem :
    (s : Bytes) (c : ℕ)
    → (str_rm_trail_new_line (s ++ 10 ∷ []) ≡ ok s)
      × (c ≢ 10 → str_rm_trail_new_line (s ++ c ∷ []) ≡ ok (s ++ c ∷ []))
      × (str_rm_trail_new_line [] ≡ fault)
unfolding str_rm_trail_new_line
str_rm_trail_new_line_lem s c =
    let at = λ (b : ℕ). get_elem?_last s b in
    (
      rw (before_last 10, at 10, take-length-append s (10 ∷ [])),
      λ h. rw (before_last c, at c) (ground arith),
      refl,
    )
  where
    before_last : (b : ℕ) → length (s ++ b ∷ []) - 1 ≡ length s
    before_last b = omega (arith, length-append s (b ∷ []))

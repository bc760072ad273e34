-- ===== src/Backend/Audit.antt =====
-- The audit numbers that the database server gives out.
use google_test_c_programs.Base.{
  ℕ, ◌+◌, ◌/◌, ◌%◌, ◌<◌, ◌≤◌, ◌≡◌, ◌≢◌, refl, ap, true, [], ◌∷◌, ◌++◌, arith, ltb, take, drop,
}
use google_test_c_programs.Base.Int.{ℤ}
use google_test_c_programs.Base.CString.{Bytes, codes}
use google_test_c_programs.Datm.{digit}
use google_test_c_programs.Server.Clients.{six_digits}
use google_test_c_programs.Server.Steps.{is_size}
use google_test_c_programs.Backend.Requests.{leading, audit_text, responds, db_answer}

abbrev head_of : Bytes → ℕ
head_of [] = 0
head_of (d ∷ ds) = d

abbrev tail_of : Bytes → Bytes
tail_of [] = []
tail_of (d ∷ ds) = ds

same_digit : (a b : ℕ) (xs ys : Bytes) → digit a ∷ xs ≡ digit b ∷ ys → (a ≡ b) × (xs ≡ ys)
same_digit a b xs ys h = let e : digit a ≡ digit b = ap head_of h in (omega arith, ap tail_of h)

six_digits-injective : (m n : ℕ) → m < 1000000 → n < 1000000 → six_digits m ≡ six_digits n → m ≡ n
six_digits-injective m n hm hn h =
    let (a, h1) = same_digit (m / 100000 % 10) (n / 100000 % 10) _ _ h in
    let (b, h2) = same_digit (m / 10000 % 10) (n / 10000 % 10) _ _ h1 in
    let (c, h3) = same_digit (m / 1000 % 10) (n / 1000 % 10) _ _ h2 in
    let (d, h4) = same_digit (m / 100 % 10) (n / 100 % 10) _ _ h3 in
    let (e, h5) = same_digit (m / 10 % 10) (n / 10 % 10) _ _ h4 in
    let (f, h6) = same_digit (m % 10) (n % 10) _ _ h5 in omega arith

leading_small : (n : ℕ) → n < 1000000 → leading 4 n ≡ n
unfolding leading
leading_small n h = let e : ltb n 1000000 ≡ true = ground arith in rw e refl

-- What the database server makes of a request: an id with six zeros gets the id with the next audit
-- number, which counts on, and any other request has its connection closed and takes no number.
abbrev pub IsRequest : Bytes → ℤ → Type 0
IsRequest msg msg_len = (is_size 12 msg_len ≡ true) × (take 6 (drop 6 msg) ≡ codes "000000")

db_answer_request :
    (next : ℕ) (msg : Bytes) (msg_len : ℤ)
    → IsRequest msg msg_len
    → db_answer next msg msg_len ≡ (responds (take 6 msg ++ audit_text (next + 1)), next + 1)
unfolding db_answer
db_answer_request next msg msg_len (size, zeros) = rw (size, zeros) refl

audit_text-injective : (m n : ℕ) → m < 1000000 → n < 1000000 → audit_text m ≡ audit_text n → m ≡ n
unfolding audit_text
audit_text-injective m n hm hn h =
    six_digits-injective m n hm hn (rw (leading_small m hm, leading_small n hn) at h)

-- Two requests that the database server answers one after the other, with any number of requests
-- between them, get their own ids back with different audit numbers, as long as fewer than 999999
-- numbers were given out.
pub db_answer-distinct :
    (next next' : ℕ) (msg msg' : Bytes) (msg_len msg_len' : ℤ)
    → IsRequest msg msg_len
    → IsRequest msg' msg_len'
    → (db_answer next msg msg_len).1 ≤ next'
    → next' < 999999
    → (audit audit' : Bytes) × ((db_answer next msg msg_len).0 ≡ responds (take 6 msg ++ audit))
      × ((db_answer next' msg' msg_len').0 ≡ responds (take 6 msg' ++ audit'))
      × (audit ≢ audit')
db_answer-distinct next next' msg msg' msg_len msg_len' is is' later small =
    let e = db_answer_request next msg msg_len is in
    let e' = db_answer_request next' msg' msg_len' is' in
    let counted : (db_answer next msg msg_len).1 ≡ next + 1 = ap (λ r. r.1) e in
    (
      audit_text (next + 1),
      audit_text (next' + 1),
      ap (λ r. r.0) e,
      ap (λ r. r.0) e',
      λ h. absurd (
          let same = audit_text-injective (next + 1) (next' + 1) (omega arith) (omega arith) h in
          omega arith),
    )

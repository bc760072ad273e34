-- ===== src/Server/Places.antt =====
-- Lemmas on the place where a slot is found.
use mathlib.Core.Path.{subst}
use google_test_c_programs.Base.{
  ℕ, zero, suc, ◌<◌, ◌≡◌, refl, ◌∙◌, ap, Bool, true, false, not, some, List, [], ◌∷◌, arith, length,
  get_elem?, inl, inr, Bool-cases, Option-cases,
}
use google_test_c_programs.Server.Clients.{any, count, find, select, modify}
use google_test_c_programs.Server.Slots.{any-modify}

pub some-injective {ℓ} : {A : Type ℓ} {a b : A} → some a ≡ some b → a ≡ b
some-injective h = cc

module _ {ℓ} {A : Type ℓ} where
  pub find-get :
      (p : A → Bool) (xs : List A) (i : ℕ)
      → find p xs ≡ some i
      → (x : A) × (get_elem? xs i ≡ some x) × (p x ≡ true)
  unfolding find
  find-get p [] i e = cc
  find-get p (y ∷ ys) i e = elim (Bool-cases (p y)) [
    | inl g ↦
        let e' = rw g at e in
        let q : 0 ≡ i = cc in
        subst (λ j. (x : A) × (get_elem? (y ∷ ys) j ≡ some x) × (p x ≡ true)) q (y, refl, g)
    | inr g ↦ elim (Option-cases (find p ys)) [
      | inl n ↦ let e' = rw (g, n) at e in cc
      | inr (j, s) ↦
          let e' = rw (g, s) at e in
          let q : suc j ≡ i = cc in
          let (x, at, h) = find-get p ys j s in
          subst (λ j. (x : A) × (get_elem? (y ∷ ys) j ≡ some x) × (p x ≡ true)) q (x, at, h)
    ]
  ]

  pub select-get :
      (p : A → Bool) (xs : List A) (i : ℕ) (x : A)
      → select p xs ≡ some (i, x)
      → (get_elem? xs i ≡ some x) × (p x ≡ true)
  unfolding select
  select-get p [] i x e = cc
  select-get p (y ∷ ys) i x e = elim (Bool-cases (p y)) [
    | inl g ↦
        let e' = rw g at e in
        let q : (0, y) ≡ (i, x) = some-injective e' in
        subst (λ r. (get_elem? (y ∷ ys) r.0 ≡ some r.1) × (p r.1 ≡ true)) q (refl, g)
    | inr g ↦ elim (Option-cases (select p ys)) [
      | inl n ↦ let e' = rw (g, n) at e in cc
      | inr (r, s) ↦
          let e' = rw (g, s) at e in
          let q : (suc r.0, r.1) ≡ (i, x) = some-injective e' in
          subst (λ r. (get_elem? (y ∷ ys) r.0 ≡ some r.1) × (p r.1 ≡ true)) q
            (select-get p ys r.0 r.1 s)
    ]
  ]

  -- The changed one is the only one that passes the test.
  pub select-modify :
      (p : A → Bool) (xs : List A) (i : ℕ) (x : A) (f : A → A)
      → any p xs ≡ false
      → get_elem? xs i ≡ some x
      → p (f x) ≡ true
      → select p (modify i f xs) ≡ some (i, f x)
  unfolding any select modify
  select-modify p [] i x f none_so e h = cc
  select-modify p (y ∷ ys) zero x f none_so e h =
      let q : y ≡ x = cc in
      let g : p (f y) ≡ true = ap (λ z. p (f z)) q ∙ h in rw g (ap (λ z. some (0, f z)) q)
  select-modify p (y ∷ ys) (suc i) x f none_so e h = elim (Bool-cases (p y)) [
    | inl g ↦ absurd (let n = rw g at none_so in cc)
    | inr g ↦ let rest = select-modify p ys i x f (rw g at none_so) e h in rw (g, rest) refl
  ]

  pub none-modify :
      (p : A → Bool) (xs : List A) (i : ℕ) (x : A) (f : A → A)
      → any p xs ≡ false
      → get_elem? xs i ≡ some x
      → p (f x) ≡ false
      → any p (modify i f xs) ≡ false
  none-modify p xs i x f none_so e h = elim (Bool-cases (any p (modify i f xs))) [
    | inl g ↦ absurd (let g' = any-modify p xs i x f e (λ k. absurd cc) g in cc)
    | inr g ↦ g
  ]

  found_behind :
      (p : A → Bool) (x : A) (xs : List A)
      → p x ≡ true
      → (i : ℕ) × (find (λ x. not (p x)) xs ≡ some i)
      → (i : ℕ) × (find (λ x. not (p x)) (x ∷ xs) ≡ some i)
  unfolding find
  found_behind p x xs h (i, found) = (suc i, rw (h, found) refl)

  -- Fewer pass than there are, so one that does not pass is found.
  pub find-some :
      (p : A → Bool) (xs : List A)
      → count p xs < length xs
      → (i : ℕ) × (find (λ x. not (p x)) xs ≡ some i)
  unfolding count find
  find-some p [] h = absurd (omega arith)
  find-some p (x ∷ xs) h = elim (Bool-cases (p x)) [
    | inl g ↦
        let fewer : count p xs < length xs = let h' = rw g at h in omega arith in
        found_behind p x xs g (find-some p xs fewer)
    | inr g ↦ (0, rw g refl)
  ]

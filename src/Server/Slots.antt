-- ===== src/Server/Slots.antt =====
-- Lemmas on the slots: one is changed, and what holds of all of them, or how many, is kept.
use mathlib.Core.Path.{subst}
use google_test_c_programs.Base.{
  ℕ, zero, suc, ◌+◌, ◌≤◌, ◌≡◌, refl, ◌∙◌, ap, sym, Bool, true, false, some, List, [], ◌∷◌, arith,
  length, get_elem?, All, inl, inr, Bool-cases,
}
use google_test_c_programs.Server.Clients.{any, count, modify}

module _ {ℓ} {A : Type ℓ} where
  pub All-get {κ} :
      (P : A → Type κ) (xs : List A) (i : ℕ) (x : A) → All P xs → get_elem? xs i ≡ some x → P x
  All-get P [] i x h e = cc
  All-get P (y ∷ ys) zero x h e = let q : y ≡ x = cc in subst P q h.0
  All-get P (y ∷ ys) (suc i) x h e = All-get P ys i x h.1 e

  pub All-modify {κ} :
      (P : A → Type κ) (xs : List A) (i : ℕ) (x : A) (f : A → A)
      → All P xs
      → get_elem? xs i ≡ some x
      → P (f x)
      → All P (modify i f xs)
  unfolding modify
  All-modify P [] i x f h e p = tt
  All-modify P (y ∷ ys) zero x f h e p = let q : y ≡ x = cc in (subst (λ z. P (f z)) (sym q) p, h.1)
  All-modify P (y ∷ ys) (suc i) x f h e p = (h.0, All-modify P ys i x f h.1 e p)

  pub All-map {κ} : (P Q : A → Type κ) (xs : List A) → ((x : A) → P x → Q x) → All P xs → All Q xs
  All-map P Q [] k h = tt
  All-map P Q (x ∷ xs) k h = (k x h.0, All-map P Q xs k h.1)

  pub length-modify : (i : ℕ) (f : A → A) (xs : List A) → length (modify i f xs) ≡ length xs
  unfolding modify
  length-modify i f [] = refl
  length-modify zero f (x ∷ xs) = refl
  length-modify (suc i) f (x ∷ xs) = ap suc (length-modify i f xs)

  pub get-modify :
      (xs : List A) (i : ℕ) (x : A) (f : A → A)
      → get_elem? xs i ≡ some x
      → get_elem? (modify i f xs) i ≡ some (f x)
  unfolding modify
  get-modify [] i x f e = cc
  get-modify (y ∷ ys) zero x f e = let q : y ≡ x = cc in ap (λ z. some (f z)) q
  get-modify (y ∷ ys) (suc i) x f e = get-modify ys i x f e

  -- A test that the change does not make true.
  pub count-modify :
      (p : A → Bool) (xs : List A) (i : ℕ) (x : A) (f : A → A)
      → get_elem? xs i ≡ some x
      → (p (f x) ≡ true → p x ≡ true)
      → count p (modify i f xs) ≤ count p xs
  unfolding modify count
  count-modify p [] i x f e k = omega arith
  count-modify p (y ∷ ys) zero x f e k =
      let q : y ≡ x = cc in
      let k' = subst (λ z. p (f z) ≡ true → p z ≡ true) (sym q) k in
      elim (Bool-cases (p (f y))) [
        | inl h ↦ rw (h, k' h) (omega arith)
        | inr h ↦
            rw h
              (elim (Bool-cases (p y)) [ inl g ↦ rw g (omega arith) | inr g ↦ rw g (omega arith) ])
      ]
  count-modify p (y ∷ ys) (suc i) x f e k =
      let rest = count-modify p ys i x f e k in
      elim (Bool-cases (p y)) [ inl g ↦ rw g (omega arith) | inr g ↦ rw g rest ]

  pub any-modify :
      (p : A → Bool) (xs : List A) (i : ℕ) (x : A) (f : A → A)
      → get_elem? xs i ≡ some x
      → (p (f x) ≡ true → p x ≡ true)
      → any p (modify i f xs) ≡ true
      → any p xs ≡ true
  unfolding modify any
  any-modify p [] i x f e k h = h
  any-modify p (y ∷ ys) zero x f e k h =
      let q : y ≡ x = cc in
      let k' = subst (λ z. p (f z) ≡ true → p z ≡ true) (sym q) k in
      elim (Bool-cases (p (f y))) [
        | inl g ↦ rw (k' g) refl
        | inr g ↦ elim (Bool-cases (p y)) [ inl d ↦ rw d refl | inr d ↦ rw d (rw g at h) ]
      ]
  any-modify p (y ∷ ys) (suc i) x f e k h = elim (Bool-cases (p y)) [
    | inl g ↦ rw g refl
    | inr g ↦ rw g (any-modify p ys i x f e k (rw g at h))
  ]

  pub count_mono :
      (p q : A → Bool) (xs : List A) → ((x : A) → p x ≡ true → q x ≡ true) → count p xs ≤ count q xs
  unfolding count
  count_mono p q [] k = omega arith
  count_mono p q (x ∷ xs) k =
      let rest = count_mono p q xs k in
      elim (Bool-cases (p x)) [
        | inl h ↦ rw (h, k x h) (omega arith)
        | inr h ↦ rw h (elim (Bool-cases (q x)) [ inl g ↦ rw g (omega arith) | inr g ↦ rw g rest ])
      ]

  pub count-modify_up :
      (p : A → Bool) (xs : List A) (i : ℕ) (f : A → A) → count p (modify i f xs) ≤ count p xs + 1
  unfolding modify count
  count-modify_up p [] i f = omega arith
  count-modify_up p (y ∷ ys) zero f = elim (Bool-cases (p (f y))) [
    | inl h ↦
        rw h (elim (Bool-cases (p y)) [ inl g ↦ rw g (omega arith) | inr g ↦ rw g (omega arith) ])
    | inr h ↦
        rw h (elim (Bool-cases (p y)) [ inl g ↦ rw g (omega arith) | inr g ↦ rw g (omega arith) ])
  ]
  count-modify_up p (y ∷ ys) (suc i) f =
      let rest = count-modify_up p ys i f in
      elim (Bool-cases (p y)) [ inl g ↦ rw g (omega arith) | inr g ↦ rw g rest ]

  pub any-All : (p : A → Bool) (xs : List A) → any p xs ≡ false → All (λ x. p x ≡ false) xs
  unfolding any
  any-All p [] h = tt
  any-All p (x ∷ xs) h = elim (Bool-cases (p x)) [
    | inl g ↦ let h' = rw g at h in cc
    | inr g ↦ (g, any-All p xs (rw g at h))
  ]

  pub get-any :
      (p : A → Bool) (xs : List A) (i : ℕ) (x : A)
      → get_elem? xs i ≡ some x
      → p x ≡ true
      → any p xs ≡ true
  unfolding any
  get-any p [] i x e h = cc
  get-any p (y ∷ ys) zero x e h = let q : y ≡ x = cc in let g : p y ≡ true = ap p q ∙ h in rw g refl
  get-any p (y ∷ ys) (suc i) x e h = elim (Bool-cases (p y)) [
    | inl g ↦ rw g refl
    | inr g ↦ rw g (get-any p ys i x e h)
  ]

  -- The same for whatever stands there.
  pub count-modify_any :
      (p : A → Bool) (xs : List A) (i : ℕ) (f : A → A)
      → ((x : A) → p (f x) ≡ true → p x ≡ true)
      → count p (modify i f xs) ≤ count p xs
  unfolding modify count
  count-modify_any p [] i f k = omega arith
  count-modify_any p (y ∷ ys) zero f k = elim (Bool-cases (p (f y))) [
    | inl h ↦ rw (h, k y h) (omega arith)
    | inr h ↦
        rw h (elim (Bool-cases (p y)) [ inl g ↦ rw g (omega arith) | inr g ↦ rw g (omega arith) ])
  ]
  count-modify_any p (y ∷ ys) (suc i) f k =
      let rest = count-modify_any p ys i f k in
      elim (Bool-cases (p y)) [ inl g ↦ rw g (omega arith) | inr g ↦ rw g rest ]

  pub modify-modify :
      (i : ℕ) (f g : A → A) (xs : List A) → modify i g (modify i f xs) ≡ modify i (λ x. g (f x)) xs
  unfolding modify
  modify-modify i f g [] = refl
  modify-modify zero f g (x ∷ xs) = refl
  modify-modify (suc i) f g (x ∷ xs) = ap (λ t. x ∷ t) (modify-modify i f g xs)

-- ===== src/Admission/Poll/Kept.antt =====
-- Lists that `retain` and `push` make: the lemmas for the ledger of
-- alfredo-tui/src/inference_admission.rs.
use alfredo.Base.{
  ◌≤◌, Bool, true, false, ◌||◌, ◌≡◌, refl, ap, List, [], ◌∷◌, ◌++◌, map, arith, all, any, distinct,
  count_if, length, inl, inr, Bool-cases,
}
use alfredo.Admission.Poll.{retain}

module _ {ℓ} {A : Type ℓ} (p : A → Bool) where
  pub retain-length : (xs : List A) → length (retain p xs) ≤ length xs
  retain-length [] = omega arith
  retain-length (x ∷ xs) = ground (arith, retain-length xs)

  pub retain-count : (q : A → Bool) (xs : List A) → count_if q (retain p xs) ≤ count_if q xs
  retain-count q [] = omega arith
  retain-count q (x ∷ xs) = ground (arith, retain-count q xs)

  pub retain-all : (q : A → Bool) (xs : List A) → all q xs ≡ true → all q (retain p xs) ≡ true
  retain-all q [] h = refl
  retain-all q (x ∷ xs) h = ground (arith, retain-all q xs)

  pub retain-any : (q : A → Bool) (xs : List A) → any q xs ≡ false → any q (retain p xs) ≡ false
  retain-any q [] h = refl
  retain-any q (x ∷ xs) h = ground (arith, retain-any q xs)

module _ {ℓ κ} {A : Type ℓ} {B : Type κ} (p : A → Bool) (f : A → B) (eq : B → B → Bool) where
  pub retain-any-map :
      (b : B) (xs : List A)
      → any (eq b) (map f xs) ≡ false
      → any (eq b) (map f (retain p xs)) ≡ false
  retain-any-map b [] h = refl
  retain-any-map b (x ∷ xs) h = elim (Bool-cases (p x)) [
    | inl kept ↦ rw kept (ground (arith, retain-any-map b xs))
    | inr gone ↦ rw gone (retain-any-map b xs (ground arith))
  ]

  pub retain-distinct :
      (xs : List A) → distinct eq (map f xs) ≡ true → distinct eq (map f (retain p xs)) ≡ true
  retain-distinct [] h = refl
  retain-distinct (x ∷ xs) h = elim (Bool-cases (p x)) [
    | inl kept ↦ rw kept (ground (arith, retain-any-map (f x) xs, retain-distinct xs))
    | inr gone ↦ rw gone (retain-distinct xs (ground arith))
  ]

module _ {ℓ} {A : Type ℓ} where
  pub all-append :
      (p : A → Bool) (xs : List A) (y : A)
      → all p xs ≡ true
      → p y ≡ true
      → all p (xs ++ y ∷ []) ≡ true
  all-append p [] y h k = ground arith
  all-append p (x ∷ xs) y h k = ground (arith, all-append p xs y)

  pub any-append-none :
      (p : A → Bool) (xs : List A) (y : A)
      → any p xs ≡ false
      → p y ≡ false
      → any p (xs ++ y ∷ []) ≡ false
  any-append-none p [] y h k = ground arith
  any-append-none p (x ∷ xs) y h k = ground (arith, any-append-none p xs y)

  pub count-append :
      (p : A → Bool) (xs : List A) (y : A) → p y ≡ false → count_if p (xs ++ y ∷ []) ≡ count_if p xs
  count-append p [] y h = rw h refl
  count-append p (x ∷ xs) y h = ground (arith, count-append p xs y h)

  pub distinct-append :
      (eq : A → A → Bool) (xs : List A) (y : A)
      → distinct eq xs ≡ true
      → any (λ x. eq x y) xs ≡ false
      → distinct eq (xs ++ y ∷ []) ≡ true
  distinct-append eq [] y h k = refl
  distinct-append eq (x ∷ xs) y h k =
      ground (arith, any-append-none (eq x) xs y, distinct-append eq xs y)

module _ {ℓ κ} {A : Type ℓ} {B : Type κ} where
  pub map-append : (f : A → B) (xs : List A) (y : A) → map f (xs ++ y ∷ []) ≡ map f xs ++ f y ∷ []
  map-append f [] y = refl
  map-append f (x ∷ xs) y = ap (λ v. f x ∷ v) (map-append f xs y)

  pub any-map : (p : B → Bool) (f : A → B) (xs : List A) → any p (map f xs) ≡ any (λ x. p (f x)) xs
  any-map p f [] = refl
  any-map p f (x ∷ xs) = ap (λ v. p (f x) || v) (any-map p f xs)

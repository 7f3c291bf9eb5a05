-- ===== src/Common/Table/Each.antt =====
-- Two tables whose rows are related one by one, in the same order.
use kori.Common.{
  ◌≡◌, refl, Bool, true, false, none, List, [], ◌∷◌, map, arith, if◌then◌else◌, Bool-cases, inl,
  inr,
}
use kori.Common.Table.{find, update, update_many, count}

module _ {A : Type 0} where
  abbrev pub Each : (A → A → Type 0) → List A → List A → Type 0
  Each R [] [] = Unit
  Each R [] (y ∷ ys) = ⊥
  Each R (x ∷ xs) [] = ⊥
  Each R (x ∷ xs) (y ∷ ys) = R x y × Each R xs ys

  pub Each-refl : (R : A → A → Type 0) → ((x : A) → R x x) → (xs : List A) → Each R xs xs
  Each-refl R same [] = tt
  Each-refl R same (x ∷ xs) = (same x, Each-refl R same xs)

  pub Each-update_many :
      (R : A → A → Type 0) (p : A → Bool) (f : A → A)
      → ((x : A) → R x x)
      → ((x : A) → R x (f x))
      → (xs : List A) → Each R xs (update_many p f xs)
  unfolding update_many
  Each-update_many R p f same changed [] = tt
  Each-update_many R p f same changed (x ∷ xs) = (go (p x), Each-update_many R p f same changed xs)
    where
      go : (b : Bool) → R x (if b then f x else x)
      go true = changed x
      go false = same x

  pub Each-update :
      (R : A → A → Type 0) (p : A → Bool) (f : A → A)
      → ((x : A) → R x x)
      → ((x : A) → R x (f x))
      → (xs : List A) → Each R xs (update p f xs)
  unfolding update
  Each-update R p f same changed [] = tt
  Each-update R p f same changed (x ∷ xs) =
      elim (p x) as (λ b. Each R (x ∷ xs) (if b then f x ∷ xs else x ∷ update p f xs)) [
        | true ↦ (changed x, Each-refl R same xs)
        | false ↦ (same x, Each-update R p f same changed xs)
      ]

  -- A test that related rows pass alike counts the same rows.
  pub Each-count :
      (R : A → A → Type 0) (q : A → Bool)
      → ((x y : A) → R x y → q y ≡ q x)
      → (xs ys : List A) → Each R xs ys
      → count q ys ≡ count q xs
  unfolding count
  Each-count R q alike [] [] e = refl
  Each-count R q alike [] (y ∷ ys) e = absurd e
  Each-count R q alike (x ∷ xs) [] e = absurd e
  Each-count R q alike (x ∷ xs) (y ∷ ys) (r, e) =
      ground (arith, alike x y r, Each-count R q alike xs ys e)

  -- A test that no row meets is met by no related row.
  pub Each-none :
      (R : A → A → Type 0) (q : A → Bool)
      → ((x y : A) → R x y → q x ≡ false → q y ≡ false)
      → (xs ys : List A) → Each R xs ys
      → find q xs ≡ none
      → find q ys ≡ none
  unfolding find
  Each-none R q kept [] [] e h = refl
  Each-none R q kept [] (y ∷ ys) e h = absurd e
  Each-none R q kept (x ∷ xs) [] e h = absurd e
  Each-none R q kept (x ∷ xs) (y ∷ ys) (r, e) h = elim (Bool-cases (q x)) [
    | inl met ↦ absurd (ground arith)
    | inr unmet ↦ ground (arith, kept x y r unmet, Each-none R q kept xs ys e)
  ]

  pub Each-map :
      {B : Type 0} (R : A → A → Type 0) (k : A → B)
      → ((x y : A) → R x y → k y ≡ k x)
      → (xs ys : List A) → Each R xs ys
      → map k ys ≡ map k xs
  Each-map R k alike [] [] e = refl
  Each-map R k alike [] (y ∷ ys) e = absurd e
  Each-map R k alike (x ∷ xs) [] e = absurd e
  Each-map R k alike (x ∷ xs) (y ∷ ys) (r, e) =
      ground (arith, alike x y r, Each-map R k alike xs ys e)

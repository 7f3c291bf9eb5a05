-- ===== src/Common/Table/Keys.antt =====
-- Tables whose rows have a unique key, and what an update of many rows does to them.
use kori.Common.{
  ◌≡◌, ◌≢◌, refl, ap, ◌∙◌, subst, Bool, true, false, Option, none, some, ℕ, ◌<◌, ◌+◌, List, [], ◌∷◌,
  map, arith, if◌then◌else◌, Bool-cases, Option-cases, sym, inl, inr, All, ◌&&◌,
}
use mathlib.Core.Option
use kori.Common.Text.{Text, ◌==◌}
use kori.Common.Table.{find, update_many, count, find_holds, some_inj}

-- No text occurs twice.
abbrev pub Distinct : List Text → Type 0
Distinct [] = Unit
Distinct (x ∷ xs) = All (λ y. y ≢ x) xs × Distinct xs

later : {n : ℕ} → 0 < 0 + n → 0 < n
later h = omega arith

not_met : (b c : Bool) → b ≡ false → (c && b) ≢ true
not_met b c h = ground arith

module _ {A : Type 0} where
  -- What an update of many rows makes of one row.
  abbrev pub updated : (A → Bool) → (A → A) → A → A
  updated p f x = if p x then f x else x

  pub find-count : (p : A → Bool) (xs : List A) → 0 < count p xs → (x : A) × (find p xs ≡ some x)
  unfolding find count
  find-count p [] h = absurd (omega arith)
  find-count p (x ∷ xs) h = elim (Bool-cases (p x)) [
    | inl t ↦ (x, rw t)
    | inr e ↦ let (y, found) = find-count p xs (later (rw e at h)) in (y, rw e found)
  ]

  pub find-update_many :
      (q p : A → Bool) (f : A → A)
      → ((x : A) → q (f x) ≡ q x)
      → (xs : List A) → find q (update_many p f xs) ≡ Option.map (updated p f) (find q xs)
  unfolding find update_many
  find-update_many q p f keep [] = refl
  find-update_many q p f keep (x ∷ xs) = ground (arith, find-update_many q p f keep xs, keep x)

  pub map-update_many :
      (k : A → Text) (p : A → Bool) (f : A → A)
      → ((x : A) → k (f x) ≡ k x)
      → (xs : List A) → map k (update_many p f xs) ≡ map k xs
  unfolding update_many
  map-update_many k p f keep [] = refl
  map-update_many k p f keep (x ∷ xs) = ground (arith, map-update_many k p f keep xs, keep x)

  find_absent :
      (k : A → Text) (v : A) (id : Text) (q : A → Bool) (xs : List A) (w : A)
      → All (λ y. y ≢ k v) (map k xs)
      → k v ≡ id
      → find (λ u. k u == id && q u) xs ≢ some w
  unfolding find
  find_absent k v id q [] w a e h = cc
  find_absent k v id q (u ∷ us) w a e h = ground (arith, find_absent k v id q us w a.1)

  -- With unique keys, the row that meets more conditions is the row with the key.
  pub find_refined :
      (k : A → Text) (id : Text) (q : A → Bool) (xs : List A) (w : A)
      → Distinct (map k xs)
      → find (λ v. k v == id && q v) xs ≡ some w
      → find (λ v. k v == id) xs ≡ some w
  unfolding find
  find_refined k id q [] w d h = h
  find_refined k id q (v ∷ vs) w d h =
      ground (arith, find_refined k id q vs w d.1, find_absent k v id q vs w d.0)

  key_apart :
      (k : A → Text) (id : Text) (p : A → Bool) (xs : List A) (x : A)
      → All (λ y. y ≢ id) (map k xs)
      → find p xs ≡ some x
      → k x ≢ id
  unfolding find
  key_apart k id p [] x a h = absurd (cc)
  key_apart k id p (y ∷ ys) x a h = elim (Bool-cases (p y)) [
    | inl t ↦ subst (λ v. k v ≢ id) (some_inj (rw t at h)) a.0
    | inr f ↦ key_apart k id p ys x a.1 (rw f at h)
  ]

  -- With unique keys, a row that is found is the row with its key.
  pub find-own :
      (k : A → Text) (p : A → Bool) (xs : List A) (x : A)
      → Distinct (map k xs)
      → find p xs ≡ some x
      → find (λ v. k v == k x) xs ≡ some x
  unfolding find
  find-own k p [] x d h = absurd (cc)
  find-own k p (y ∷ ys) x d h = elim (Bool-cases (p y)) [
    | inl t ↦
        subst (λ v. (if k y == k v then some y else find (λ u. k u == k v) ys) ≡ some v)
          (some_inj (rw t at h)) (itself (k y) y (find (λ u. k u == k y) ys))
    | inr f ↦ other (key_apart k (k y) p ys x d.0 (rw f at h)) (find-own k p ys x d.1 (rw f at h))
  ]
    where
      itself : (t : Text) (z : A) (o : Option A) → (if t == t then some z else o) ≡ some z
      itself t z o = ground arith

      other : {o : Option A} → k x ≢ k y → o ≡ some x → (if k y == k x then some y else o) ≡ some x
      other ne found = ground arith

  -- With unique keys, an update of the rows with a key that meet more conditions changes the row
  -- with the key, if it changes any.
  pub find-update_many-key :
      (k : A → Text) (id : Text) (r : A → Bool) (f : A → A)
      → ((x : A) → k (f x) ≡ k x)
      → (xs : List A) → Distinct (map k xs)
      → 0 < count (λ v. k v == id && r v) xs
      → (x : A) × (find (λ v. k v == id && r v) xs ≡ some x)
        × (find (λ v. k v == id) (update_many (λ v. k v == id && r v) f xs) ≡ some (f x))
  find-update_many-key k id r f keep xs d pos =
      let (x, found) = find-count changed xs pos in
      (
        x,
        found,
        find-update_many (λ v. k v == id) changed f (λ v. ap (λ (t : Text). t == id) (keep v)) xs
            ∙ ap (Option.map (updated changed f)) (find_refined k id r xs x d found)
            ∙ ap some (ap (λ (b : Bool). if b then f x else x) (find_holds changed xs x found)),
      )
    where
      changed : A → Bool
      changed v = k v == id && r v

  -- If the change ends a condition, no row with the key meets it afterwards.
  pub find-update_many-ended :
      (k : A → Text) (id : Text) (r q : A → Bool) (f : A → A)
      → ((x : A) → k (f x) ≡ k x)
      → ((x : A) → q (f x) ≡ false)
      → (xs : List A) → Distinct (map k xs)
      → 0 < count (λ v. k v == id && r v) xs
      → find (λ v. k v == id && q v) (update_many (λ v. k v == id && r v) f xs) ≡ none
  find-update_many-ended k id r q f keep ends xs d pos = elim (Option-cases (find met after)) [
    | inl none_left ↦ none_left
    | inr (y, e) ↦ absurd (clash y e)
  ]
    where
      met : A → Bool
      met v = k v == id && q v

      after : List A
      after = update_many (λ v. k v == id && r v) f xs

      clash : (y : A) → find met after ≡ some y → ⊥
      clash y e =
          let (x, _, kept) = find-update_many-key k id r f keep xs d pos in
          not_met (q y) (k y == id)
            (subst (λ (v : A). q v ≡ false)
              (some_inj (
                sym kept
                ∙ find_refined k id q after y
                    (subst Distinct (sym (map-update_many k (λ v. k v == id && r v) f keep xs)) d)
                    e))
              (ends x))
            (find_holds met after y e)

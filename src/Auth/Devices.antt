-- ===== src/Auth/Devices.antt =====
-- The table of trusted devices, where a user and a device id have one row at most.
use kori.Common.{
  ◌≡◌, refl, Bool, true, false, none, some, ◌<◌, ◌≤◌, List, [], ◌∷◌, arith, Bool-cases, inl, inr,
  ◌&&◌,
}
use kori.Common.Text.{Text, ◌==◌}
use kori.Common.Table.{find, update_many, count}
use kori.Schema.{Db, TrustDevice}

abbrev pub is_device_of : Text → Text → TrustDevice → Bool
is_device_of user_id device_id d = d.user_id == user_id && d.device_id == device_id

-- The unique pair of user and device, for one such pair.
abbrev pub IsUniqueDevice : Text → Text → Db → Type 0
IsUniqueDevice user_id device_id db = count (is_device_of user_id device_id) db.trust_devices ≤ 1

module _ {A : Type 0} where
  none-found : (q s : A → Bool) (xs : List A) → count q xs ≡ 0 → find (λ v. q v && s v) xs ≡ none
  unfolding find count
  none-found q s [] h = refl
  none-found q s (x ∷ xs) h = ground (arith, none-found q s xs)

  none-updated :
      (q r : A → Bool) (f : A → A) (xs : List A)
      → count q xs ≡ 0
      → update_many (λ v. q v && r v) f xs ≡ xs
  unfolding count update_many
  none-updated q r f [] h = refl
  none-updated q r f (x ∷ xs) h = ground (arith, none-updated q r f xs)

  fewer : (q r : A → Bool) (xs : List A) → count q xs ≡ 0 → count (λ v. q v && r v) xs ≡ 0
  unfolding count
  fewer q r [] h = refl
  fewer q r (x ∷ xs) h = ground (arith, fewer q r xs)

  -- Where one row at most meets `q`, an update of the rows that meet `q` and `r`, if it changes a
  -- row, changes the one that meets `q`.
  pub update_unique :
      (q r : A → Bool) (f : A → A)
      → ((x : A) → q (f x) ≡ q x)
      → (xs : List A) → count q xs ≤ 1
      → 0 < count (λ v. q v && r v) xs
      → (x : A) × (find q xs ≡ some x)
        × (r x ≡ true)
        × (find q (update_many (λ v. q v && r v) f xs) ≡ some (f x))
  unfolding find count update_many
  update_unique q r f keep [] one pos = absurd (omega arith)
  update_unique q r f keep (x ∷ xs) one pos = elim (Bool-cases (q x)) [
    | inl yes_q ↦ elim (Bool-cases (r x)) [
      | inl yes_r ↦ (x, ground arith, yes_r, ground (arith, keep x))
      | inr no_r ↦ absurd (ground (arith, fewer q r xs))
    ]
    | inr no_q ↦
        let (y, found, met, after) = update_unique q r f keep xs (ground arith) (ground arith) in
        (y, ground arith, met, ground arith)
  ]

  -- If the change ends `s`, no row meets `q` and `s` afterwards.
  pub update_unique_ends :
      (q r s : A → Bool) (f : A → A)
      → ((x : A) → q (f x) ≡ q x)
      → ((x : A) → s (f x) ≡ false)
      → (xs : List A) → count q xs ≤ 1
      → 0 < count (λ v. q v && r v) xs
      → find (λ v. q v && s v) (update_many (λ v. q v && r v) f xs) ≡ none
  unfolding find count update_many
  update_unique_ends q r s f keep ends [] one pos = refl
  update_unique_ends q r s f keep ends (x ∷ xs) one pos = elim (Bool-cases (q x)) [
    | inl yes_q ↦ elim (Bool-cases (r x)) [
      | inl yes_r ↦ ground (arith, ends x, none-found q s xs, none-updated q r f xs)
      | inr no_r ↦ absurd (ground (arith, fewer q r xs))
    ]
    | inr no_q ↦ ground (arith, update_unique_ends q r s f keep ends xs)
  ]

  pub count-update_many :
      (q p : A → Bool) (f : A → A)
      → ((x : A) → q (f x) ≡ q x)
      → (xs : List A) → count q (update_many p f xs) ≡ count q xs
  unfolding count update_many
  count-update_many q p f keep [] = refl
  count-update_many q p f keep (x ∷ xs) = ground (arith, keep x, count-update_many q p f keep xs)

  -- Where one row at most meets `q`, that row decides whether a row meets `q` and `r`.
  pub unique_no :
      (q r : A → Bool) (xs : List A) (x : A)
      → count q xs ≤ 1
      → find q xs ≡ some x
      → r x ≡ false
      → count (λ v. q v && r v) xs ≡ 0
  unfolding find count
  unique_no q r [] x one found no_r = refl
  unique_no q r (y ∷ ys) x one found no_r = ground (arith, fewer q r ys, unique_no q r ys x)

  pub unique_yes :
      (q r : A → Bool) (xs : List A) (x : A)
      → find q xs ≡ some x
      → r x ≡ true
      → 0 < count (λ v. q v && r v) xs
  unfolding find count
  unique_yes q r [] x found yes_r = absurd (ground arith)
  unique_yes q r (y ∷ ys) x found yes_r = ground (arith, unique_yes q r ys x)

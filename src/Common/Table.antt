-- ===== src/Common/Table.antt =====
-- A table of rows, and the queries that the services send: the first row that meets a condition
-- (a unique column has one such row at most), an update of that row, and an update of all rows.
pub mod Keys
pub mod Each
use Prim.Native.Nat.{ℕ, ◌+◌}
use mathlib.Core.Bool.{Bool, true, false}
use mathlib.Core.List.{List, [], ◌∷◌}
use mathlib.Core.Logic.{inl, inr}
use mathlib.Core.Option.{Option, none, some}
use mathlib.Core.Path.{◌≡◌, refl, subst}
use native.Mathlib.Omega.{arith}
use kori.Common.Tests.{if◌then◌else◌, All, Bool-cases}

pub some_inj {ℓ} : {A : Type ℓ} {a b : A} → some a ≡ some b → a ≡ b
some_inj h = cc

module _ {ℓ} {A : Type ℓ} where
  -- `findUnique`, `findFirst`.
  unfoldable pub find : (A → Bool) → List A → Option A
  find p [] = none
  find p (x ∷ xs) = if p x then some x else find p xs

  -- `update` of the row with a unique column.
  unfoldable pub update : (A → Bool) → (A → A) → List A → List A
  update p f [] = []
  update p f (x ∷ xs) = if p x then f x ∷ xs else x ∷ update p f xs

  -- `updateMany`, whose count is `count p` of the same rows.
  unfoldable pub update_many : (A → Bool) → (A → A) → List A → List A
  update_many p f [] = []
  update_many p f (x ∷ xs) = (if p x then f x else x) ∷ update_many p f xs

  unfoldable pub count : (A → Bool) → List A → ℕ
  count p [] = 0
  count p (x ∷ xs) = (if p x then 1 else 0) + count p xs

  unfoldable pub any : (A → Bool) → List A → Bool
  any p [] = false
  any p (x ∷ xs) = if p x then true else any p xs

  pub find_holds : (p : A → Bool) (xs : List A) (x : A) → find p xs ≡ some x → p x ≡ true
  unfolding find
  find_holds p [] x h = ground arith
  find_holds p (y ∷ ys) x h = ground (arith, find_holds p ys x)

  pub All-update {κ} :
      (P : A → Type κ) (p : A → Bool) (f : A → A)
      → ((x : A) → P x → P (f x))
      → (xs : List A) → All P xs
      → All P (update p f xs)
  unfolding update
  All-update P p f keep [] h = h
  All-update P p f keep (x ∷ xs) (hx, h) =
      elim (p x) as (λ b. All P (if b then f x ∷ xs else x ∷ update p f xs)) [
        | true ↦ (keep x hx, h)
        | false ↦ (hx, All-update P p f keep xs h)
      ]

  pub All-update_many {κ} :
      (P : A → Type κ) (p : A → Bool) (f : A → A)
      → ((x : A) → p x ≡ true → P x → P (f x))
      → (xs : List A) → All P xs
      → All P (update_many p f xs)
  unfolding update_many
  All-update_many P p f keep [] h = h
  All-update_many P p f keep (x ∷ xs) (hx, h) = (go (p x) refl, All-update_many P p f keep xs h)
    where
      go : (b : Bool) → p x ≡ b → P (if b then f x else x)
      go true e = keep x e hx
      go false e = hx

  pub All-find {κ} :
      (P : A → Type κ) (p : A → Bool) (xs : List A) (x : A) → All P xs → find p xs ≡ some x → P x
  unfolding find
  All-find P p [] x h e = ground arith
  All-find P p (y ∷ ys) x (hy, h) e = elim (Bool-cases (p y)) [
    | inl t ↦ subst P (some_inj (rw t at e)) hy
    | inr f ↦ All-find P p ys x h (rw f at e)
  ]

  pub count-update_many_zero :
      (p : A → Bool) (f : A → A) (xs : List A) → count p xs ≡ 0 → update_many p f xs ≡ xs
  unfolding count update_many
  count-update_many_zero p f [] h = refl
  count-update_many_zero p f (x ∷ xs) h = ground (arith, count-update_many_zero p f xs)

-- ===== src/Store/Laws.antt =====
-- Laws of the actions and of the queries: what a successful chain of calls has done, and the sum of
-- all balances under an update of one.
use kori.Common.{
  ◌≡◌, refl, ◌∙◌, ap, true, some, List, [], ◌∷◌, arith, Bool-cases, Option-cases, inl, inr,
}
use kori.Common.Int.{ℤ, pos, ◌+ℤ◌, int_laws}
use kori.Common.Text.{Text, ◌==◌}
use kori.Common.Result.{Result, ok, err, Exception}
use kori.Common.Table.{find, update}
use kori.Schema.{Db, Wallet}
use kori.Store.{Action, ◌>>=◌, transaction, add_balance, find_wallet, fits_big_int, update_balance}

-- A chain that succeeds has succeeded in both parts.
pub >>=-ok :
    {A B : Type 0} (m : Action A) (f : A → Action B) (db : Db) {b : B} {db₂ : Db}
    → (m >>= f) db ≡ (ok b, db₂)
    → (a : A) × (db₁ : Db) × (m db ≡ (ok a, db₁)) × (f a db₁ ≡ (ok b, db₂))
>>=-ok {A} {B} m f db {b} {db₂} h = go (m db) refl h
  where
    go :
        (r : Result A × Db)
        → m db ≡ r
        → Path
            (Result B × Db)
            (let (q, db') = r in elim q [ ok a ↦ f a db' | err e ↦ (err e, db') ])
            (ok b, db₂)
        → (a : A) × (db₁ : Db) × (m db ≡ (ok a, db₁)) × (f a db₁ ≡ (ok b, db₂))
    go (ok a, db₁) e h' = (a, db₁, e, h')
    go (err x, db₁) e h' = absurd (cc)

abbrev go_on : {A B : Type 0} → Result A × Db → (A → Action B) → Result B × Db
go_on p f = elim p.0 [ ok a ↦ f a p.1 | err e ↦ (err e, p.1) ]

-- A chain goes on from what its first call returns, and ends with what that throws.
pub >>=-step :
    {A B : Type 0} (m : Action A) (f : A → Action B) (db db₁ : Db) (a : A)
    → m db ≡ (ok a, db₁)
    → (m >>= f) db ≡ f a db₁
>>=-step {A} {B} m f db db₁ a h = ap (λ (p : Result A × Db). go_on p f) h

pub >>=-err :
    {A B : Type 0} (m : Action A) (f : A → Action B) (db db₁ : Db) (e : Exception)
    → m db ≡ (err e, db₁)
    → (m >>= f) db ≡ (err e, db₁)
>>=-err {A} {B} m f db db₁ e h = ap (λ (p : Result A × Db). go_on p f) h

-- A database transaction that fails leaves every table as it was.
pub transaction_atomic :
    {A : Type 0} (body : Action A) (db : Db) (e : Exception)
    → (transaction body db).0 ≡ err e
    → (transaction body db).1 ≡ db
transaction_atomic body db e h = ground arith

+ℤ_assoc : (x y z : ℤ) → x +ℤ (y +ℤ z) ≡ x +ℤ y +ℤ z
+ℤ_assoc x y z = omega int_laws

-- The sum of all balances.
unfoldable pub total : List Wallet → ℤ
total [] = pos 0
total (w ∷ ws) = w.balance +ℤ total ws

-- What an update of one balance makes of the rows.
abbrev pub add_to : Text → ℤ → List Wallet → List Wallet
add_to id delta ws = update (λ v. v.id == id) (add_balance delta) ws

pub total-add_to :
    (id : Text) (delta : ℤ) (ws : List Wallet) (w : Wallet)
    → find (λ v. v.id == id) ws ≡ some w
    → total (add_to id delta ws) ≡ total ws +ℤ delta
unfolding total find update
total-add_to id delta [] w h = cc
total-add_to id delta (v ∷ ws) w h = elim (Bool-cases (v.id == id)) [
  | inl here ↦ rw here (omega int_laws)
  | inr there ↦ rw there (
      ap (λ (t : ℤ). v.balance +ℤ t) (total-add_to id delta ws w (rw there at h))
      ∙ +ℤ_assoc v.balance (total ws) delta)
]

-- An update of a balance that succeeds has found the row, and its sum fits the column.
pub update_balance_ok :
    (id : Text) (delta : ℤ) (db : Db) (w : Wallet) (db' : Db)
    → update_balance id delta db ≡ (ok w, db')
    → (v : Wallet) × (find_wallet id db ≡ some v)
      × (w ≡ add_balance delta v)
      × (fits_big_int w.balance ≡ true)
      × (db' ≡ record db { wallets = add_to id delta db.wallets })
unfolding update_balance
update_balance_ok id delta db w db' h = elim (Option-cases (find_wallet id db)) [
  | inl missing ↦ absurd (ground arith)
  | inr (v, found) ↦ (v, found, ground arith, ground arith, ground arith)
]

-- ===== src/Transactions/Transfer/Postings.antt =====
-- The postings of a transfer succeed: the wallets are there, and no balance on the way is more than
-- the money of the whole system, which fits a BIGINT.
use mathlib.Core.Option
use kori.Common.{
  ◌≡◌, refl, ap, subst, ◌∙◌, Bool, true, Option, none, some, List, [], ◌∷◌, arith, if◌then◌else◌,
  Bool-cases, inl, inr, ◌++◌,
}
use kori.Common.Int.{ℤ, pos, ◌+ℤ◌, ◌-ℤ◌, ◌≤ℤ◌, int_laws}
use kori.Common.Result.{ok}
use kori.Common.Table.{find, some_inj}
use kori.Common.Text.{Text, text, ◌==◌}
use kori.Domain.Money.{Money, is_zero}
use kori.Schema.{Db, Wallet, Transaction, LedgerEntry}
use kori.Store.{pure, add_balance, find_wallet, fits_big_int, update_balance}
use kori.Store.Laws.{total, add_to, >>=-step}
use kori.Store.Balances.{balance_in-add_to, NonNegative}
use kori.Transactions.Transfer.{Transfer, debit, credit, collect_fee}
use kori.Transactions.Transfer.Moves.{debit_entry, credit_entry}

-- The largest value of a BIGINT.
abbrev pub max_big_int : ℤ
max_big_int = pos 9_223_372_036_854_775_807

pub total_low : (ws : List Wallet) → NonNegative ws → pos 0 ≤ℤ total ws
unfolding total
total_low [] n = omega int_laws
total_low (v ∷ vs) (nv, n) = sums v.balance (total vs) nv (total_low vs n)
  where
    sums : (a b : ℤ) → pos 0 ≤ℤ a → pos 0 ≤ℤ b → pos 0 ≤ℤ a +ℤ b
    sums a b ha hb = omega int_laws

-- No balance is more than the sum of all.
pub at_most_total :
    (p : Wallet → Bool) (ws : List Wallet) (w : Wallet)
    → NonNegative ws
    → find p ws ≡ some w
    → (pos 0 ≤ℤ w.balance) × (w.balance ≤ℤ total ws)
unfolding find total
at_most_total p [] w n h = absurd (cc)
at_most_total p (v ∷ vs) w (nv, n) h = elim (Bool-cases (p v)) [
  | inl here ↦
      subst (λ (x : Wallet). (pos 0 ≤ℤ x.balance) × (x.balance ≤ℤ v.balance +ℤ total vs))
        (some_inj (rw here at h)) (nv, more v.balance (total vs) (total_low vs n))
  | inr there ↦
      let (low, high) = at_most_total p vs w n (rw there at h) in
      (low, further w.balance v.balance (total vs) nv high)
]
  where
    more : (a b : ℤ) → pos 0 ≤ℤ b → a ≤ℤ a +ℤ b
    more a b h' = omega int_laws

    further : (a b c : ℤ) → pos 0 ≤ℤ b → a ≤ℤ c → a ≤ℤ b +ℤ c
    further a b c h' k = omega int_laws

pub fits : (b : ℤ) → pos 0 ≤ℤ b → b ≤ℤ max_big_int → fits_big_int b ≡ true
fits b low high = ground arith

-- A wallet is still there after an update.
pub still_there :
    (x id : Text) (delta : ℤ) (ws : List Wallet) (w : Wallet)
    → find (λ v. v.id == x) ws ≡ some w
    → (v : Wallet) × (find (λ v. v.id == x) (add_to id delta ws) ≡ some v)
still_there x id delta ws w h = some_of (find (λ v. v.id == x) (add_to id delta ws)) (
    balance_in-add_to x id delta ws
    ∙ ap
        (λ (o : Option Wallet).
          Option.map (λ (b : ℤ). b +ℤ (if id == x then delta else pos 0))
            (Option.map (λ (v : Wallet). v.balance) o))
        h)
  where
    some_of :
        {b : ℤ} (o : Option Wallet)
        → Option.map (λ (v : Wallet). v.balance) o ≡ some b
        → (v : Wallet) × (o ≡ some v)
    some_of none e = absurd (cc)
    some_of (some v) e = (v, refl)

-- The tables after a posting.
abbrev pub posted : Text → ℤ → LedgerEntry → Db → Db
posted id delta entry db = record db {
  wallets = add_to id delta db.wallets;
  ledger_entries = entry ∷ db.ledger_entries;
}

pub debit_done :
    (tid id : Text) (m : Money) (d : Text) (db : Db) (v : Wallet)
    → find_wallet id db ≡ some v
    → fits_big_int (v.balance +ℤ (pos 0 -ℤ m.amount_minor_units)) ≡ true
    → debit tid id m d db ≡ (
      ok (add_balance (pos 0 -ℤ m.amount_minor_units) v),
      posted id
          (pos 0 -ℤ m.amount_minor_units)
          (debit_entry tid id m d (add_balance (pos 0 -ℤ m.amount_minor_units) v))
          db,
    )
unfolding debit update_balance
debit_done tid id m d db v found fit = ground (arith, found, fit)

pub credit_done :
    (tid id : Text) (m : Money) (d : Text) (db : Db) (v : Wallet)
    → find_wallet id db ≡ some v
    → fits_big_int (v.balance +ℤ m.amount_minor_units) ≡ true
    → credit tid id m d db ≡ (
      ok (add_balance m.amount_minor_units v),
      posted id m.amount_minor_units
          (credit_entry tid id m d (add_balance m.amount_minor_units v))
          db,
    )
unfolding credit update_balance
credit_done tid id m d db v found fit = ground (arith, found, fit)

pub collect_fee_done :
    (row : Transaction) (t : Transfer) (db : Db) (v : Wallet)
    → find_wallet t.system_wallet_id.id db ≡ some v
    → fits_big_int (v.balance +ℤ t.fee_amount.amount_minor_units) ≡ true
    → (db' : Db) × (collect_fee row t db ≡ (ok tt, db'))
unfolding collect_fee
collect_fee_done row t db v found fit = elim (Bool-cases (is_zero t.fee_amount)) [
  | inl free ↦ (db, ground (arith, free))
  | inr charged ↦
      let fee = t.fee_amount.amount_minor_units in
      let description = text "Fee collection for TRX " ++ row.trx_id in
      let id = t.system_wallet_id.id in
      (
        posted id fee (credit_entry row.id id t.fee_amount description (add_balance fee v)) db,
        rw charged (
            >>=-step (credit row.id id t.fee_amount description) (λ _. pure tt) db
              (posted id fee (credit_entry row.id id t.fee_amount description (add_balance fee v))
                db)
              (add_balance fee v) (credit_done row.id id t.fee_amount description db v found fit)),
      )
]

-- The money of the whole system bounds every balance on the way.
pub room_left :
    (b sum T : ℤ) → b ≤ℤ sum → sum ≤ℤ max_big_int → pos 0 ≤ℤ T → b +ℤ (pos 0 -ℤ T) ≤ℤ max_big_int
room_left b sum T h k l = omega int_laws

pub room_credit :
    (b sum T A F : ℤ)
    → T ≡ A +ℤ F
    → pos 0 ≤ℤ F
    → b ≤ℤ sum +ℤ (pos 0 -ℤ T)
    → sum ≤ℤ max_big_int
    → b +ℤ A ≤ℤ max_big_int
room_credit b sum T A F same low h k = within (subst (λ (x : ℤ). b ≤ℤ sum +ℤ (pos 0 -ℤ x)) same h)
  where
    within : b ≤ℤ sum +ℤ (pos 0 -ℤ (A +ℤ F)) → b +ℤ A ≤ℤ max_big_int
    within h' = omega int_laws

pub room_fee :
    (b sum T A F : ℤ)
    → T ≡ A +ℤ F
    → b ≤ℤ sum +ℤ (pos 0 -ℤ T) +ℤ A
    → sum ≤ℤ max_big_int
    → b +ℤ F ≤ℤ max_big_int
room_fee b sum T A F same h k = within (subst (λ (x : ℤ). b ≤ℤ sum +ℤ (pos 0 -ℤ x) +ℤ A) same h)
  where
    within : b ≤ℤ sum +ℤ (pos 0 -ℤ (A +ℤ F)) +ℤ A → b +ℤ F ≤ℤ max_big_int
    within h' = omega int_laws

pub covered_low : (b T : ℤ) → T ≤ℤ b → pos 0 ≤ℤ b +ℤ (pos 0 -ℤ T)
covered_low b T h = omega int_laws

pub sum_low : (a b : ℤ) → pos 0 ≤ℤ a → pos 0 ≤ℤ b → pos 0 ≤ℤ a +ℤ b
sum_low a b h k = omega int_laws

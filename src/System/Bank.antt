-- ===== src/System/Bank.antt =====
-- The backend as a bank: what its users see of the money is a balance for every wallet id. Every run
-- of the backend is a run of the abstract bank, whose steps open an empty wallet or pay an amount
-- with its fee out of a balance that covers both.
use mathlib.Core.Option
use mathlib.Core.Path.{fun_ext}
use kori.Common.{
  ◌≡◌, ◌≢◌, ◌<◌, ◌≤◌, refl, sym, ap, subst, ◌∙◌, false, Option, none, some, ℕ, ◌+◌, List, [], ◌∷◌,
  arith, if◌then◌else◌, inl, inr, Bool-cases,
}
use kori.Common.Int.{ℤ, ◌≤ℤ◌, pos, ◌+ℤ◌, ◌-ℤ◌}
use kori.Common.Result.{Result, ok, err}
use kori.Common.Table.{any, find}
use kori.Common.Table.Each.{Each}
use kori.Common.Text.{Text, ◌==◌}
use kori.Domain.Enums.{TransactionType}
use kori.Fees.Laws.{IsFee}
use kori.Schema.{Db, Wallet}
use kori.Common.Table.Keys.{Distinct, find_refined}
use kori.Store.{find_wallet}
use kori.Wallets.{find_active_wallet}
use kori.Transactions.Transfer.Safety.{IsSound, participant_wallet}
use kori.Store.Balances.{balance_in, balance_of, ids}
use kori.Transactions.Service.{perform}
use kori.Transactions.Service.Laws.{perform-Payment, perform_atomic}
use kori.Transactions.Transfer.{TransactionResultResponse}
use kori.System.{Run}
use kori.System.Effect.{SameMoney, Effect}
use kori.System.Laws.{Step-Effect, Run-IsSound}

abbrev pub Bank : Type 0
Bank = Text → Option ℤ

abbrev pub bank : Db → Bank
bank db x = balance_of x db

abbrev pub open_wallet : Text → Bank → Bank
open_wallet id b x = if id == x then some (pos 0) else b x

-- The sender pays the amount and the fee; the receiver has the amount and the system the fee.
abbrev pub pay : Text → Text → Text → ℕ → ℕ → Bank → Bank
pay sender receiver system amount fee b x =
    Option.map
      (λ (n : ℤ).
        n
        +ℤ ((if sender == x then pos 0 -ℤ pos (amount + fee) else pos 0)
            +ℤ (if receiver == x then pos amount else pos 0)
            +ℤ (if system == x then pos fee else pos 0)))
      (b x)

-- A payment is between two different wallets, with a wallet for the fee; all of them are there. The
-- amount is from 1 to 10,000,000, the fee is that of the type, and the sender covers both.
pub data BankStep : Bank → Bank → Type 0 where
  stays : (b : Bank) → BankStep b b
  opens : (id : Text) (b : Bank) → b id ≡ none → BankStep b (open_wallet id b)
  pays :
      (type : TransactionType) (sender receiver system : Text) (amount fee : ℕ) (n m k : ℤ)
      (b : Bank)
      → IsFee type amount fee
      → 0 < amount
      → amount ≤ 10000000
      → sender ≢ receiver
      → b sender ≡ some n
      → pos (amount + fee) ≤ℤ n
      → b receiver ≡ some m
      → b system ≡ some k
      → BankStep b (pay sender receiver system amount fee b)

pub data BankRun : Bank → Bank → Type 0 where
  idle : (b : Bank) → BankRun b b
  next : {b c d : Bank} → BankRun b c → BankStep c d → BankRun b d

same_balances :
    (ws vs : List Wallet) → Each SameMoney ws vs → (x : Text) → balance_in x vs ≡ balance_in x ws
unfolding find
same_balances [] [] e x = refl
same_balances [] (v ∷ vs) e x = absurd e
same_balances (w ∷ ws) [] e x = absurd e
same_balances (w ∷ ws) (v ∷ vs) (r, e) x = elim (Bool-cases (w.id == x)) [
  | inl here ↦ rw (r.0, here) (ap some r.1)
  | inr there ↦ rw (r.0, there) (same_balances ws vs e x)
]

absent_balance :
    (id : Text) (ws : List Wallet) → any (λ w. w.id == id) ws ≡ false → balance_in id ws ≡ none
unfolding any find
absent_balance id [] h = refl
absent_balance id (w ∷ ws) h = elim (Bool-cases (w.id == id)) [
  | inl here ↦ absurd (ground arith)
  | inr there ↦ rw there (absent_balance id ws (ground arith))
]

new_balance :
    (w : Wallet) (ws : List Wallet) (x : Text)
    → w.balance ≡ pos 0
    → balance_in x (w ∷ ws) ≡ (if w.id == x then some (pos 0) else balance_in x ws)
unfolding find
new_balance w ws x empty = elim (Bool-cases (w.id == x)) [
  | inl here ↦ rw here (ap some empty)
  | inr there ↦ rw there
]

balance_found :
    (id : Text) (db : Db) (w : Wallet) → find_wallet id db ≡ some w → bank db id ≡ some w.balance
unfolding find_wallet
balance_found id db w h = ap (Option.map (λ (v : Wallet). v.balance)) h

active_wallet :
    (id : Text) (db : Db) (w : Wallet)
    → Distinct (ids db.wallets)
    → find_active_wallet id db ≡ some w
    → find_wallet id db ≡ some w
unfolding find_active_wallet find_wallet
active_wallet id db w d h =
    find_refined (λ (v : Wallet). v.id) id (λ v. v.is_active) db.wallets w d h

Effect-BankStep :
    {sid : Option Text} {db db' : Db}
    → IsSound db
    → Effect sid db db'
    → BankStep (bank db) (bank db')
Effect-BankStep {db = db} {db' = db'} sound (Effect.kept k) =
    subst (BankStep (bank db)) (sym (fun_ext (same_balances db.wallets db'.wallets k.wallets)))
      (BankStep.stays (bank db))
Effect-BankStep {db = db} sound (Effect.enrolled n) =
    subst (BankStep (bank db)) (sym (fun_ext (λ x. ap (balance_in x) n.wallets)))
      (BankStep.stays (bank db))
Effect-BankStep {db = db} sound (Effect.opened o) =
    subst (BankStep (bank db))
      (sym (fun_ext (λ x. ap (balance_in x) o.wallets ∙ new_balance o.wallet db.wallets x o.empty)))
      (BankStep.opens o.wallet.id (bank db) (absent_balance o.wallet.id db.wallets o.new_wallet))
Effect-BankStep sound (Effect.moved rule s actor dto key reference db) =
    go (perform rule s actor dto key reference db).0 refl
  where
    go :
        (r : Result TransactionResultResponse)
        → (perform rule s actor dto key reference db).0 ≡ r
        → BankStep (bank db) (bank (perform rule s actor dto key reference db).1)
    go (ok r) h =
        let paid = perform-Payment rule s actor dto key reference db r h in
        let receipt = paid.receipt in
        let distinct = sound.distinct_wallets in
        subst (BankStep (bank db)) (sym (fun_ext receipt.balances)) (
          BankStep.pays rule.type receipt.sender.id receipt.receiver.id receipt.system.id
            receipt.amount receipt.fee paid.payer.balance paid.payee.balance paid.collector.balance
            (bank db) receipt.is_fee paid.positive paid.limit paid.apart
            (balance_found receipt.sender.id db paid.payer
              (participant_wallet receipt.sender.id db paid.payer distinct paid.payer_found))
            paid.funds
            (balance_found receipt.receiver.id db paid.payee
              (participant_wallet receipt.receiver.id db paid.payee distinct paid.payee_found))
            (balance_found receipt.system.id db paid.collector
              (active_wallet receipt.system.id db paid.collector distinct paid.collector_found)))
    go (err e) h =
        subst (BankStep (bank db))
          (sym (ap bank (perform_atomic rule s actor dto key reference db e h)))
          (BankStep.stays (bank db))

-- Every run of the backend from sound tables is a run of the bank on the balances that the tables
-- show: each write leaves all balances, opens a wallet with balance 0 under a new id, or moves an
-- amount from 1 to 10,000,000 from one existing wallet to another, with the fee of the type to an
-- existing wallet, out of a balance of the sender that covers amount and fee.
pub Run-refines :
    {sids : List (Option Text)} {db db' : Db}
    → IsSound db
    → Run sids db db'
    → BankRun (bank db) (bank db')
Run-refines sound (Run.idle db) = BankRun.idle (bank db)
Run-refines sound (Run.next run step) =
    BankRun.next (Run-refines sound run)
      (Effect-BankStep (Run-IsSound run sound) (Step-Effect step))

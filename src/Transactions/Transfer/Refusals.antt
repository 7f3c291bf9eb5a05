-- ===== src/Transactions/Transfer/Refusals.antt =====
-- When a transfer is refused, and with which exception.
use kori.Common.{
  ◌&&◌, ◌≡◌, refl, sym, ◌∙◌, ap, Bool, true, false, none, List, subst, inl, inr, [], ◌∷◌, arith,
  ◌⊎◌,
}
use kori.Common.Int.{◌≤ℤ◌, lt_ℤ}
use kori.Common.Table.{find}
use kori.Common.Text.{Text, text, ◌==◌, Text-discrete}
use kori.Common.Uuid.{is_uuid, uuid_value}
use mathlib.Core.Bool.{false≢true}
use kori.Common.Result.{Result, ok, err, Exception}
use kori.Common.Table.{any}
use kori.Domain.Money.{Money}
use kori.Domain.Money.Laws.{InRange, Currency-one}
use kori.Domain.Enums.{Currency}
use kori.Schema.{Db, Wallet, Transaction}
use kori.Store.{Action, ◌>>=◌, ◌>>◌, pure, clashes, create_transaction, unique_violation}
use kori.Store.Laws.{>>=-step, >>=-err}
use kori.Transactions.Transfer.{
  Transfer, Fresh, TransactionResultResponse, transaction_row, execute_acid_transfer, assert_funds,
  lock_participants, find_participant, participant_restricted, transfer_body, insufficient_funds,
  already_processed, move_money, response, on_transfer_error,
}
use kori.Transactions.Transfer.Inversion.{execute_ok}
use kori.Transactions.Transfer.Laws.{execute_acid_transfer_atomic}
use kori.Wallets.{find_active_wallet}

-- The body behind its first step, its second, and its third.
unfoldable pub after_create : Transfer → Transaction → Action TransactionResultResponse
after_create t row = do updated ← move_money row t; pure (response t row updated.0 updated.1)

unfoldable pub after_funds : Fresh → Transfer → Action TransactionResultResponse
unfolding after_create
after_funds fresh t = create_transaction (transaction_row fresh t) >>= after_create t

unfoldable pub body_rest : Fresh → Transfer → Wallet → Action TransactionResultResponse
unfolding after_funds
body_rest fresh t sender = assert_funds sender t.total_required_amount >> after_funds fresh t

pub transfer_body_locked :
    (fresh : Fresh) (t : Transfer) (db : Db) (w : Wallet)
    → lock_participants t db ≡ ok w
    → transfer_body fresh t db ≡ body_rest fresh t w db
unfolding transfer_body body_rest
transfer_body_locked fresh t db w h =
    >>=-step (λ d. (lock_participants t d, d)) (body_rest fresh t) db db w
      (ap (λ (r : Result Wallet). (r, db)) h)

execute_of_err :
    (fresh : Fresh) (t : Transfer) (db db' : Db) (e : Exception)
    → transfer_body fresh t db ≡ (err e, db')
    → execute_acid_transfer fresh t db ≡ (err (on_transfer_error e), db)
unfolding execute_acid_transfer
execute_of_err fresh t db db' e h = ground arith

restricted_lock :
    (t : Transfer) (db : Db)
    → (find_participant t.sender_wallet_id.id db ≡ none)
      ⊎ (find_participant t.receiver_wallet_id.id db ≡ none)
      ⊎ (find_active_wallet t.system_wallet_id.id db ≡ none)
    → lock_participants t db ≡ err participant_restricted
unfolding lock_participants
restricted_lock t db h = ground arith

-- A participant that the lock does not find stops the transfer.
pub execute_acid_transfer_refused :
    (fresh : Fresh) (t : Transfer) (db : Db)
    → (find_participant t.sender_wallet_id.id db ≡ none)
      ⊎ (find_participant t.receiver_wallet_id.id db ≡ none)
      ⊎ (find_active_wallet t.system_wallet_id.id db ≡ none)
    → execute_acid_transfer fresh t db ≡ (err participant_restricted, db)
unfolding transfer_body body_rest
execute_acid_transfer_refused fresh t db h = execute_of_err fresh t db db participant_restricted (
    >>=-err (λ d. (lock_participants t d, d)) (body_rest fresh t) db db participant_restricted
      (ap (λ (r : Result Wallet). (r, db)) (restricted_lock t db h)))

short_funds :
    (w : Wallet) (m : Money) (db : Db)
    → InRange w.balance
    → lt_ℤ w.balance m.amount_minor_units ≡ true
    → assert_funds w m db ≡ (err insufficient_funds, db)
unfolding assert_funds
short_funds w m db h k = ground (arith, Currency-one Currency.bdt m.money_currency)

-- If the locked balance of the sender is below the total, the transfer is refused, and nothing
-- changes.
pub execute_acid_transfer_insufficient :
    (fresh : Fresh) (t : Transfer) (db : Db) (w : Wallet)
    → lock_participants t db ≡ ok w
    → InRange w.balance
    → lt_ℤ w.balance t.total_required_amount.amount_minor_units ≡ true
    → execute_acid_transfer fresh t db ≡ (err insufficient_funds, db)
unfolding body_rest
execute_acid_transfer_insufficient fresh t db w h k l =
    execute_of_err fresh t db db insufficient_funds (
      transfer_body_locked fresh t db w h
      ∙ >>=-err (assert_funds w t.total_required_amount) (λ _. after_funds fresh t) db db
          insufficient_funds (short_funds w t.total_required_amount db k l))

enough_funds :
    (w : Wallet) (m : Money) (db : Db)
    → InRange w.balance
    → m.amount_minor_units ≤ℤ w.balance
    → assert_funds w m db ≡ (ok tt, db)
unfolding assert_funds
enough_funds w m db h k = ground (arith, Currency-one Currency.bdt m.money_currency)

clash_create :
    (row : Transaction) (db : Db)
    → is_uuid row.idempotency_key ≡ true
    → any (clashes row) db.transactions ≡ true
    → create_transaction row db ≡ (err unique_violation, db)
unfolding create_transaction
clash_create row db uuid h = rw (uuid, h)

P2002_lem : (text "P2002" == text "P2002") ≡ true
unfolding text Text-discrete
P2002_lem = refl

-- If the guards pass and the key, a UUID, or the trxId or the id is in use, the transfer is
-- refused as already processed, and nothing changes.
pub execute_acid_transfer_conflict :
    (fresh : Fresh) (t : Transfer) (db : Db) (w : Wallet)
    → lock_participants t db ≡ ok w
    → InRange w.balance
    → t.total_required_amount.amount_minor_units ≤ℤ w.balance
    → is_uuid t.idempotency_key ≡ true
    → any (clashes (transaction_row fresh t)) db.transactions ≡ true
    → execute_acid_transfer fresh t db ≡ (err already_processed, db)
unfolding body_rest
execute_acid_transfer_conflict fresh t db w h k l uuid c =
    execute_of_err fresh t db db unique_violation (
      transfer_body_locked fresh t db w h
      ∙ (>>=-step (assert_funds w t.total_required_amount) (λ _. after_funds fresh t) db db tt
            (enough_funds w t.total_required_amount db k l)
          ∙ >>=-err (create_transaction (transaction_row fresh t)) (after_create t) db db
              unique_violation (clash_create (transaction_row fresh t) db uuid c)))
    ∙ rw P2002_lem

-- Whether some transaction has the idempotency key, as a UUID.
abbrev pub has_key : Text → Db → Bool
has_key key db =
    any (λ (u : Transaction). uuid_value u.idempotency_key == uuid_value key) db.transactions

key_clashes :
    (row : Transaction) (ts : List Transaction)
    → any (λ (u : Transaction). uuid_value u.idempotency_key == uuid_value row.idempotency_key) ts
      ≡ true
    → any (clashes row) ts ≡ true
unfolding any
key_clashes row [] h = h
key_clashes row (t ∷ ts) h = ground (arith, key_clashes row ts)

clashing :
    (row : Transaction) (db : Db)
    → has_key row.idempotency_key db ≡ true
    → any (clashes row) db.transactions ≡ false
    → ⊥
clashing row db h k = false≢true (sym k ∙ key_clashes row db.transactions h)

-- A transfer whose idempotency key is in use, in whichever case of its letters, throws, and nothing
-- changes.
pub execute_acid_transfer_replay :
    (fresh : Fresh) (t : Transfer) (db : Db)
    → has_key t.idempotency_key db ≡ true
    → (e : Exception) × (execute_acid_transfer fresh t db ≡ (err e, db))
execute_acid_transfer_replay fresh t db h = go (execute_acid_transfer fresh t db) refl
  where
    go :
        (p : Result TransactionResultResponse × Db)
        → execute_acid_transfer fresh t db ≡ p
        → (e : Exception) × (execute_acid_transfer fresh t db ≡ (err e, db))
    go (ok r, db') q = absurd (
        clashing (transaction_row fresh t) db h
          (execute_ok fresh t db r
            (ap (λ (x : Result TransactionResultResponse × Db). x.0) q)).unused)
    go (err e, db') q = (e, q ∙ ap (λ (d : Db). (err e, d)) (unchanged e db' q))
      where
        unchanged :
            (x : Exception) (d : Db) → execute_acid_transfer fresh t db ≡ (err x, d) → d ≡ db
        unchanged x d r =
            sym (ap (λ (y : Result TransactionResultResponse × Db). y.1) r)
            ∙ execute_acid_transfer_atomic fresh t db x
                (ap (λ (y : Result TransactionResultResponse × Db). y.0) r)

inactive_wallet :
    (id : Text) (q : Wallet → Bool) (ws : List Wallet)
    → find (λ w. w.id == id && w.is_active) ws ≡ none
    → find (λ w. w.id == id && (w.is_active && q w)) ws ≡ none
unfolding find
inactive_wallet id q [] h = refl
inactive_wallet id q (w ∷ ws) h = ground (arith, inactive_wallet id q ws)

inactive_participant :
    (id : Text) (db : Db) → find_active_wallet id db ≡ none → find_participant id db ≡ none
unfolding find_active_wallet find_participant
inactive_participant id db h = inactive_wallet id _ db.wallets h

-- A wallet that is not active bars the transfers from it and to it.
pub execute_acid_transfer_barred :
    (id : Text) (db : Db)
    → find_active_wallet id db ≡ none
    → (fresh : Fresh) (t : Transfer) → (t.sender_wallet_id.id ≡ id) ⊎ (t.receiver_wallet_id.id ≡ id)
    → execute_acid_transfer fresh t db ≡ (err participant_restricted, db)
execute_acid_transfer_barred id db h fresh t side =
    execute_acid_transfer_refused fresh t db (barred side)
  where
    shut : find_participant id db ≡ none
    shut = inactive_participant id db h

    barred :
        (t.sender_wallet_id.id ≡ id) ⊎ (t.receiver_wallet_id.id ≡ id)
        → (find_participant t.sender_wallet_id.id db ≡ none)
          ⊎ (find_participant t.receiver_wallet_id.id db ≡ none)
          ⊎ (find_active_wallet t.system_wallet_id.id db ≡ none)
    barred (inl sender) = inl (subst (λ (x : Text). find_participant x db ≡ none) (sym sender) shut)
    barred (inr receiver) =
        inr (inl (subst (λ (x : Text). find_participant x db ≡ none) (sym receiver) shut))

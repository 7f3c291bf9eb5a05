-- ===== src/Transactions/Transfer/Success.antt =====
-- A transfer with its funds succeeds: nothing but the guards of the transaction refuses it, as long
-- as the money of the whole system fits a BIGINT.
use kori.Common.{◌≡◌, ap, subst, ◌∙◌, Bool, true, false, some, ◌∷◌, arith, Option-cases, inl, inr}
use kori.Common.Int.{ℤ, pos, ◌+ℤ◌, ◌-ℤ◌, ◌≤ℤ◌, int_laws}
use kori.Common.Result.{Result, ok}
use kori.Common.Table.{any}
use kori.Common.Text.{Text, ◌==◌}
use kori.Common.Uuid.{is_uuid}
use kori.Domain.Money.{Money, from_minor_units, is_less_than}
use kori.Domain.Enums.{Currency}
use kori.Schema.{Db, Wallet, Transaction}
use kori.Domain.Money.Laws.{from_minor_units-InRange, Currency-one}
use kori.Wallets.{find_active_wallet}
use kori.Common.Table.Keys.{Distinct, find_refined}
use kori.Store.{
  lift, transaction, ◌>>=◌, ◌>>◌, pure, add_balance, find_wallet, create_transaction, clashes,
}
use kori.Store.Laws.{total, total-add_to, >>=-step}
use kori.Store.Balances.{ids, NonNegative, NonNegative-add_to}
use kori.Transactions.Transfer.{
  Transfer, Fresh, TransactionResultResponse, transaction_row, lock_participants, assert_funds,
  debit, credit, collect_fee, move_money, transfer_body, throw_when, insufficient_funds,
  catch_transfer, find_participant, execute_acid_transfer, response,
}
use kori.Transactions.Description.{dynamic_ledger_description}
use kori.Transactions.Transfer.Laws.{IsBalanced}
use kori.Transactions.Transfer.Moves.{debit_entry, credit_entry}
use kori.Transactions.Transfer.Safety.{IsSound, HasAmounts, locked_sender, participant_wallet}
use kori.Transactions.Transfer.Postings.{
  max_big_int, posted, at_most_total, collect_fee_done, covered_low, credit_done, debit_done, fits,
  room_credit, room_fee, room_left, still_there, sum_low,
}

-- The three postings of a covered transfer between wallets that are there.
move_money_done :
    (row : Transaction) (t : Transfer) (db : Db) (vs vr vy : Wallet)
    → NonNegative db.wallets
    → total db.wallets ≤ℤ max_big_int
    → HasAmounts t
    → IsBalanced t
    → find_wallet t.sender_wallet_id.id db ≡ some vs
    → find_wallet t.receiver_wallet_id.id db ≡ some vr
    → find_wallet t.system_wallet_id.id db ≡ some vy
    → t.total_required_amount.amount_minor_units ≤ℤ vs.balance
    → (w : Wallet × Wallet) × (db' : Db) × (move_money row t db ≡ (ok w, db'))
unfolding move_money find_wallet
move_money_done row t db vs vr vy n bound amounts balanced found_s found_r found_y covered =
    let T = t.total_required_amount.amount_minor_units in
    let A = t.transfer_amount.amount_minor_units in
    let F = t.fee_amount.amount_minor_units in
    let text_of = dynamic_ledger_description t.type t.sender_wallet_id t.receiver_wallet_id in
    let s = t.sender_wallet_id.id in
    let r = t.receiver_wallet_id.id in
    let left = covered_low vs.balance T covered in
    let (low_s, high_s) = at_most_total (λ v. v.id == s) db.wallets vs n found_s in
    let after_s = add_balance (pos 0 -ℤ T) vs in
    let db₁ =
      posted s (pos 0 -ℤ T)
        (debit_entry row.id s t.total_required_amount text_of.debit_description after_s) db in
    let debited =
      debit_done row.id s t.total_required_amount text_of.debit_description db vs found_s (
        fits _ left
          (room_left vs.balance (total db.wallets) T high_s bound amounts.total_valid.0)) in
    let n₁ = NonNegative-add_to s (pos 0 -ℤ T) db.wallets vs found_s left n in
    let total₁ = total-add_to s (pos 0 -ℤ T) db.wallets vs found_s in
    let (ur, there_r) = still_there r s (pos 0 -ℤ T) db.wallets vr found_r in
    let (low_r, high_r) = at_most_total (λ v. v.id == r) db₁.wallets ur n₁ there_r in
    let after_r = add_balance A ur in
    let db₂ =
      posted r A (credit_entry row.id r t.transfer_amount text_of.credit_description after_r) db₁ in
    let low_A = sum_low ur.balance A low_r amounts.transfer_valid.0 in
    let credited =
      credit_done row.id r t.transfer_amount text_of.credit_description db₁ ur there_r (
        fits _ low_A (
          room_credit ur.balance (total db.wallets) T A F balanced amounts.fee_valid.0
            (subst (λ (x : ℤ). ur.balance ≤ℤ x) total₁ high_r) bound)) in
    let n₂ = NonNegative-add_to r A db₁.wallets ur there_r low_A n₁ in
    let total₂ = total-add_to r A db₁.wallets ur there_r ∙ ap (λ (x : ℤ). x +ℤ A) total₁ in
    let (uy, there_y) = still_there t.system_wallet_id.id s (pos 0 -ℤ T) db.wallets vy found_y in
    let (wy, still_y) = still_there t.system_wallet_id.id r A db₁.wallets uy there_y in
    let (low_y, high_y) =
      at_most_total (λ v. v.id == t.system_wallet_id.id) db₂.wallets wy n₂ still_y in
    let (db₃, collected) = collect_fee_done row t db₂ wy still_y (
      fits _ (sum_low wy.balance F low_y amounts.fee_valid.0) (
        room_fee wy.balance (total db.wallets) T A F balanced
          (subst (λ (x : ℤ). wy.balance ≤ℤ x) total₂ high_y) bound)) in
    (
      (after_s, after_r),
      db₃,
      >>=-step (debit row.id s t.total_required_amount text_of.debit_description)
            (λ a. credit row.id r t.transfer_amount text_of.credit_description >>= λ b.
              (collect_fee row t >> pure (a, b)))
            db db₁ after_s debited
          ∙ (>>=-step (credit row.id r t.transfer_amount text_of.credit_description)
                (λ b. (collect_fee row t >> pure (after_s, b))) db₁ db₂ after_r credited
              ∙ >>=-step (collect_fee row t) (λ _. pure (after_s, after_r)) db₂ db₃ tt collected),
    )

not_less :
    (b : ℤ) (m : Money)
    → m.money_currency ≡ Currency.bdt
    → m.amount_minor_units ≤ℤ b
    → is_less_than (record { amount_minor_units = b; money_currency = Currency.bdt }) m ≡ ok false
unfolding is_less_than
not_less b m currency covered = ground (arith, currency)

funds_covered :
    (w : Wallet) (m : Money) (db : Db)
    → m.money_currency ≡ Currency.bdt
    → pos 0 ≤ℤ w.balance
    → w.balance ≤ℤ max_big_int
    → m.amount_minor_units ≤ℤ w.balance
    → assert_funds w m db ≡ (ok tt, db)
unfolding assert_funds
funds_covered w m db currency low high covered =
    >>=-step (lift (from_minor_units w.balance Currency.bdt))
      (λ balance. lift (is_less_than balance m) >>= λ short. throw_when short insufficient_funds) db
      db (record { amount_minor_units = w.balance; money_currency = Currency.bdt })
      (ap (λ (x : Result Money). (x, db))
        (from_minor_units-InRange w.balance Currency.bdt (low, high)))
    ∙ >>=-step
        (lift (
          is_less_than (record { amount_minor_units = w.balance; money_currency = Currency.bdt })
            m))
        (λ short. throw_when short insufficient_funds) db db false
        (ap (λ (x : Result Bool). (x, db)) (not_less w.balance m currency covered))

locked_others :
    (t : Transfer) (db : Db) (w : Wallet)
    → lock_participants t db ≡ ok w
    → ((r : Wallet) × (find_participant t.receiver_wallet_id.id db ≡ some r))
      × ((y : Wallet) × (find_active_wallet t.system_wallet_id.id db ≡ some y))
unfolding lock_participants
locked_others t db w h = elim (Option-cases (find_participant t.receiver_wallet_id.id db)) [
  | inl missing ↦ absurd (ground arith)
  | inr r ↦ elim (Option-cases (find_active_wallet t.system_wallet_id.id db)) [
    | inl missing ↦ absurd (ground arith)
    | inr y ↦ (r, y)
  ]
]

active_found :
    (id : Text) (db : Db) (w : Wallet)
    → Distinct (ids db.wallets)
    → find_active_wallet id db ≡ some w
    → find_wallet id db ≡ some w
unfolding find_active_wallet find_wallet
active_found id db w d h =
    find_refined (λ (v : Wallet). v.id) id (λ v. v.is_active) db.wallets w d h

create_transaction_new :
    (row : Transaction) (db : Db)
    → is_uuid row.idempotency_key ≡ true
    → any (clashes row) db.transactions ≡ false
    → create_transaction row db ≡ (ok row, record db { transactions = row ∷ db.transactions })
unfolding create_transaction
create_transaction_new row db uuid new = ground (arith, uuid, new)

body_done :
    (fresh : Fresh) (t : Transfer) (db : Db) (sender : Wallet) (w : Wallet × Wallet) (db' : Db)
    → lock_participants t db ≡ ok sender
    → assert_funds sender t.total_required_amount db ≡ (ok tt, db)
    → create_transaction (transaction_row fresh t) db ≡ (
      ok (transaction_row fresh t),
      record db { transactions = transaction_row fresh t ∷ db.transactions },
    )
    → move_money
        (transaction_row fresh t)
        t
        (record db { transactions = transaction_row fresh t ∷ db.transactions })
      ≡ (ok w, db')
    → transfer_body fresh t db ≡ (ok (response t (transaction_row fresh t) w.0 w.1), db')
unfolding transfer_body
body_done fresh t db sender w db' locked funds created moved =
    >>=-step (λ d. (lock_participants t d, d))
      (λ s.
        assert_funds s t.total_required_amount
        >> (create_transaction (transaction_row fresh t) >>= λ row.
            (move_money row t >>= λ u. pure (response t row u.0 u.1))))
      db db sender (ap (λ (x : Result Wallet). (x, db)) locked)
    ∙ (>>=-step (assert_funds sender t.total_required_amount)
          (λ _. create_transaction (transaction_row fresh t) >>= λ row.
            (move_money row t >>= λ u. pure (response t row u.0 u.1)))
          db db tt funds
        ∙ (>>=-step (create_transaction (transaction_row fresh t))
              (λ row. (move_money row t >>= λ u. pure (response t row u.0 u.1))) db _
              (transaction_row fresh t) created
            ∙ >>=-step (move_money (transaction_row fresh t) t)
                (λ u. pure (response t (transaction_row fresh t) u.0 u.1)) _ db' w moved))

-- A transfer with balanced amounts between participants that the lock finds, whose sender
-- has the total, whose idempotency key is a UUID and whose row is new, succeeds, if the tables are
-- sound (distinct wallet ids and idempotency keys, no negative balance) and the sum of all balances
-- fits a BIGINT.
pub execute_acid_transfer_succeeds :
    (fresh : Fresh) (t : Transfer) (db : Db) (sender : Wallet)
    → IsSound db
    → total db.wallets ≤ℤ max_big_int
    → HasAmounts t
    → IsBalanced t
    → lock_participants t db ≡ ok sender
    → t.total_required_amount.amount_minor_units ≤ℤ sender.balance
    → is_uuid t.idempotency_key ≡ true
    → any (clashes (transaction_row fresh t)) db.transactions ≡ false
    → (r : TransactionResultResponse) × ((execute_acid_transfer fresh t db).0 ≡ ok r)
unfolding find_wallet execute_acid_transfer
execute_acid_transfer_succeeds fresh t db sender sound bound amounts balanced locked covered uuid
      new =
    let at = locked_sender t db sender locked in
    let found = participant_wallet t.sender_wallet_id.id db sender sound.distinct_wallets at in
    let ((vr, found_r), (vy, found_y)) = locked_others t db sender locked in
    let row = transaction_row fresh t in
    let opened = record db { transactions = row ∷ db.transactions } in
    let (low, high) =
      at_most_total (λ v. v.id == t.sender_wallet_id.id) db.wallets sender sound.non_negative
        found in
    let (w, db', moved) =
      move_money_done row t opened sender vr vy sound.non_negative bound amounts balanced found
        (participant_wallet t.receiver_wallet_id.id db vr sound.distinct_wallets found_r)
        (active_found t.system_wallet_id.id db vy sound.distinct_wallets found_y) covered in
    (
      response t row w.0 w.1,
      ap (λ (o : Result TransactionResultResponse × Db). catch_transfer (transaction (λ _. o) db).0)
          (body_done fresh t db sender w db' locked
            (funds_covered sender t.total_required_amount db
              (Currency-one t.total_required_amount.money_currency Currency.bdt) low
              (below _ _ high bound) covered)
            (create_transaction_new row db uuid new) moved),
    )
  where
    below : (a b : ℤ) → a ≤ℤ b → b ≤ℤ max_big_int → a ≤ℤ max_big_int
    below a b h k = omega int_laws

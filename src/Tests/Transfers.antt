-- ===== src/Tests/Transfers.antt =====
-- The theorems on amounts and transfers, at the small database.
use kori.Common.{false, ◌≡◌, ◌≢◌, refl, sym, subst, true, none, some, [], ◌∷◌, arith, inr}
use kori.Common.Int.{ℤ, pos, ◌≤ℤ◌}
use kori.Common.Result.{ok, err, Exception}
use kori.Common.Table.{find, any}
use kori.Common.Text.{text, apart}
use kori.Domain.Enums.{TransactionType, TransactionStatus}
use kori.Schema.{Db, Wallet, User}
use kori.Schema.Enums.{PrismaWalletType, PrismaRole, PrismaAccountStatus}
use kori.Store.{clashes, find_wallet, find_user}
use kori.Store.Laws.{total}
use kori.Common.Table.Keys.{Distinct}
use kori.Store.Balances.{entries_sum, ids}
use kori.Transactions.Service.{perform, send_money_rule}
use kori.Transactions.Service.Laws.{
  Receipt, perform-Receipt, perform-total, perform-IsSound, perform-IsReconciled,
}
use kori.Transactions.Transfer.{
  Transfer, execute_acid_transfer, TransactionResultResponse, participant_restricted,
  insufficient_funds, already_processed, lock_participants, transaction_row,
}
use kori.Transactions.Transfer.Laws.{IsBalanced}
use kori.Transactions.Transfer.Ledger.{IsReconciled}
use kori.Transactions.Transfer.Safety.{IsSound, HasAmounts}
use kori.Transactions.Transfer.Postings.{max_big_int}
use kori.Transactions.Transfer.Success.{execute_acid_transfer_succeeds}
use kori.Transactions.Transfer.Refusals.{
  execute_acid_transfer_insufficient, execute_acid_transfer_conflict, execute_acid_transfer_replay,
  has_key,
}
use kori.Transactions.Transfer.Restrictions.{
  IsRestricted, user_ids, execute_acid_transfer_restricted,
}
use kori.Common.Uuid.{is_uuid}
use kori.Tests.Data.{
  request_key, user, carol, opened, bank, setting, actor, dto, send, send_to_carol, fresh, wallet,
  id_of, alice, bob,
}

abbrev receipt : TransactionResultResponse
receipt = record {
  trx_id = text "TX-1";
  type = TransactionType.send_money;
  amount = text "2500";
  fee = text "500";
  status = TransactionStatus.completed;
  created_at = 5;
  new_balance = text "97000";
}

sent : (perform send_money_rule setting actor dto request_key none bank).0 ≡ ok receipt
unfolding opened
sent = refl

perform-Receipt_example :
    Receipt send_money_rule setting actor dto bank receipt
      (perform send_money_rule setting actor dto request_key none bank).1
perform-Receipt_example =
    perform-Receipt send_money_rule setting actor dto request_key none bank receipt sent

perform-total_example :
    total (perform send_money_rule setting actor dto request_key none bank).1.wallets
    ≡ total bank.wallets
perform-total_example = perform-total send_money_rule setting actor dto request_key none bank

pub bank-Distinct : Distinct (ids bank.wallets)
unfolding opened
bank-Distinct = (
  (apart _ _ refl, (apart _ _ refl, (apart _ _ refl, tt))),
  ((apart _ _ refl, (apart _ _ refl, tt)), ((apart _ _ refl, tt), (tt, tt))),
)

pub bank-IsSound : IsSound bank
bank-IsSound = record {
  distinct_wallets = bank-Distinct;
  non_negative = omega arith;
  distinct_keys = tt;
}

perform-IsSound_example :
    IsSound (perform send_money_rule setting actor dto request_key none bank).1
perform-IsSound_example =
    perform-IsSound send_money_rule setting actor dto request_key none bank bank-IsSound

-- The bank with no money in it, so that its empty ledger is right.
abbrev empty_bank : Db
empty_bank = record bank { wallets = wallet (text "ws") none PrismaWalletType.system (pos 0) ∷ [] }

empty_bank-IsReconciled : IsReconciled empty_bank
unfolding find entries_sum
empty_bank-IsReconciled x b h = ground arith

perform-IsReconciled_example :
    IsReconciled (perform send_money_rule setting actor dto request_key none empty_bank).1
perform-IsReconciled_example =
    perform-IsReconciled send_money_rule setting actor dto request_key none empty_bank
      empty_bank-IsReconciled

abbrev wallet_of_carol : Wallet
wallet_of_carol = wallet (text "wc") (some carol) PrismaWalletType.agent (pos 7)

abbrev carol_row : User
carol_row = user carol (text "+8803") PrismaRole.agent PrismaAccountStatus.suspended

people : Distinct (user_ids bank.users)
unfolding opened
people = ((apart _ _ refl, (apart _ _ refl, tt)), ((apart _ _ refl, tt), (tt, tt)))

carols_wallet : find_wallet (text "wc") bank ≡ some wallet_of_carol
unfolding opened
carols_wallet = refl

carol_there : find_user carol bank ≡ some carol_row
unfolding opened
carol_there = refl

not_active : PrismaAccountStatus.suspended ≢ PrismaAccountStatus.active
not_active h = cc

execute_acid_transfer_restricted_example :
    execute_acid_transfer fresh send_to_carol bank ≡ (err participant_restricted, bank)
execute_acid_transfer_restricted_example =
    execute_acid_transfer_restricted fresh send_to_carol bank bank-Distinct people (
      inr (
        IsRestricted.shut wallet_of_carol carol carol_row carols_wallet refl carol_there
          not_active))

-- Bob, who has 20 poisha, sends 2,500.
abbrev overdraft : Transfer
overdraft = record send {
  sender_wallet_id = id_of (text "wb");
  receiver_wallet_id = id_of (text "wa");
}

abbrev wallet_of_bob : Wallet
wallet_of_bob = wallet (text "wb") (some bob) PrismaWalletType.personal (pos 20)

bob_locked : lock_participants overdraft bank ≡ ok wallet_of_bob
unfolding opened
bob_locked = refl

execute_acid_transfer_insufficient_example :
    execute_acid_transfer fresh overdraft bank ≡ (err insufficient_funds, bank)
execute_acid_transfer_insufficient_example =
    execute_acid_transfer_insufficient fresh overdraft bank wallet_of_bob bob_locked (omega arith)
      refl

-- The bank after the transfer.
abbrev later_bank : Db
later_bank = record bank { transactions = transaction_row fresh send ∷ [] }

abbrev wallet_of_alice : Wallet
wallet_of_alice = wallet (text "wa") (some alice) PrismaWalletType.personal (pos 100000)

alice_locked : lock_participants send later_bank ≡ ok wallet_of_alice
unfolding opened
alice_locked = refl

valid_key : is_uuid request_key ≡ true
unfolding opened
valid_key = refl

key_taken : any (clashes (transaction_row fresh send)) later_bank.transactions ≡ true
unfolding opened
key_taken = refl

execute_acid_transfer_conflict_example :
    execute_acid_transfer fresh send later_bank ≡ (err already_processed, later_bank)
execute_acid_transfer_conflict_example =
    execute_acid_transfer_conflict fresh send later_bank wallet_of_alice alice_locked (omega arith)
      (omega arith) valid_key key_taken

key_in_use : has_key request_key later_bank ≡ true
unfolding opened
key_in_use = refl

execute_acid_transfer_replay_example :
    (e : Exception) × (execute_acid_transfer fresh send later_bank ≡ (err e, later_bank))
execute_acid_transfer_replay_example = execute_acid_transfer_replay fresh send later_bank key_in_use

locked :
    lock_participants send bank
    ≡ ok (wallet (text "wa") (some alice) PrismaWalletType.personal (pos 100000))
unfolding opened
locked = refl

sums_up : total bank.wallets ≡ pos 100027
unfolding opened
sums_up = refl

bank_fits : total bank.wallets ≤ℤ max_big_int
bank_fits = subst (λ (x : ℤ). x ≤ℤ max_big_int) (sym sums_up) (omega arith)

send-HasAmounts : HasAmounts send
send-HasAmounts = record {
  transfer_valid = (omega arith, omega arith);
  fee_valid = (omega arith, omega arith);
  total_valid = (omega arith, omega arith);
}

send-IsBalanced : IsBalanced send
unfolding opened
send-IsBalanced = refl

no_transactions : any (clashes (transaction_row fresh send)) bank.transactions ≡ false
unfolding any
no_transactions = refl

execute_acid_transfer_succeeds_example :
    (r : TransactionResultResponse) × ((execute_acid_transfer fresh send bank).0 ≡ ok r)
execute_acid_transfer_succeeds_example =
    execute_acid_transfer_succeeds fresh send bank
      (wallet (text "wa") (some alice) PrismaWalletType.personal (pos 100000)) bank-IsSound
      bank_fits send-HasAmounts send-IsBalanced locked (omega arith) valid_key no_transactions

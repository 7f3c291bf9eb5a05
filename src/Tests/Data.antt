-- ===== src/Tests/Data.antt =====
-- A small database: two customers, an agent, and the system wallet; and a request of the first
-- customer.
use kori.Common.{ℕ, true, Option, none, some, [], ◌∷◌, ℕ_discrete}
use kori.Common.Int.{ℤ, pos, ◌+ℤ◌, ◌-ℤ◌, ◌*ℤ◌, div_ℤ, rem_ℤ}
use kori.Common.Table.{find, update, update_many, count, any}
use kori.Accounts.{
  has_ordinary_wallet, find_suspendable, freeze_wallet, restrict_user, end_sessions,
  suspend_in_transaction, suspend, reactivate_user, reactivate,
}
use kori.Wallets.Manage.{
  assert_manageable_wallet, set_activity, deactive_wallet, find_wallet_of_active_owner,
  activate_in_transaction, active_wallet,
}
use kori.Wallets.{get_wallet_by_id}
use kori.Common.Uuid.{is_uuid, uuid_value}
use kori.Common.Text.{Text, text, Text-discrete, is_space, trim_start, trim, text_le}
use kori.Domain.Enums.{
  Role-discrete, AccountStatus-discrete, WalletType-discrete, TransactionType-discrete,
  Currency-discrete,
}
use kori.Domain.Money.{from_minor_units, zero_money, add, is_zero, is_less_than}
use kori.Domain.PhoneNumber.{PhoneNumber, ParsedNumber, PhoneParser}
use kori.Domain.PhoneNumber
use kori.Domain.UserId.{UserId}
use kori.Domain.WalletId.{WalletId}
use kori.Domain.WalletId
use kori.Fees.{calculate_fee}
use kori.Fees.Rounding.{divide_round_half_even}
use kori.Schema.{Db, User, Wallet}
use kori.Schema.Enums.{
  PrismaRole, PrismaAccountStatus, PrismaWalletType, PrismaCurrency, PrismaRole-discrete,
  PrismaAccountStatus-discrete, PrismaWalletType-discrete, PrismaCurrency-discrete,
}
use kori.Store.{
  user_has_status, owner_has_status, find_wallet, find_wallet_of_user, find_user,
  find_user_by_phone, update_balance, create_transaction,
}
use kori.Store.Laws.{total}
use kori.Store.Balances.{entries_sum}
use kori.Transactions.Amount.{
  all_digits, is_positive_minor_units, digits_value, calculate_transfer_math,
}
use kori.Transactions.Amount.Laws.{amounts}
use kori.Transactions.Amount.Decimal.{digits, decimal, show_big_int}
use kori.Transactions.Description.{dynamic_ledger_description}
use kori.Transactions.Eligibility.{system_wallets, on_module_init, assert_transfer_eligibility}
use kori.Transactions.Service.{Setting, TransferDto, build, prepare, perform, send_money_rule}
use kori.Transactions.Transfer.{
  Transfer, Fresh, find_participant, lock_participants, assert_funds, debit, credit, collect_fee,
  move_money, transfer_body, execute_acid_transfer,
}
use kori.Wallets.{
  find_active_wallet, get_wallet_state_for_transaction, get_own_wallet_id, find_wallet_by_phone,
  resolve_wallet_id_by_phone,
}

-- Opens the whole model, for runs.
unfoldable pub opened : ℕ
unfolding ℕ_discrete ◌+ℤ◌ ◌-ℤ◌ ◌*ℤ◌ div_ℤ rem_ℤ find update update_many count any text Text-discrete
    is_space trim_start trim text_le Role-discrete AccountStatus-discrete WalletType-discrete
    TransactionType-discrete Currency-discrete from_minor_units zero_money add is_zero is_less_than
    PhoneNumber.from WalletId.from WalletId.equals calculate_fee divide_round_half_even
    PrismaRole-discrete PrismaAccountStatus-discrete PrismaWalletType-discrete
    PrismaCurrency-discrete user_has_status owner_has_status find_wallet find_wallet_of_user
    find_user find_user_by_phone update_balance is_uuid uuid_value create_transaction total
    entries_sum all_digits is_positive_minor_units digits_value calculate_transfer_math digits
    decimal show_big_int dynamic_ledger_description system_wallets on_module_init
    assert_transfer_eligibility prepare perform find_participant lock_participants assert_funds
    debit credit collect_fee move_money transfer_body execute_acid_transfer find_active_wallet
    get_wallet_state_for_transaction get_own_wallet_id find_wallet_by_phone
    resolve_wallet_id_by_phone has_ordinary_wallet find_suspendable freeze_wallet restrict_user
    end_sessions suspend_in_transaction suspend reactivate_user reactivate assert_manageable_wallet
    set_activity deactive_wallet find_wallet_of_active_owner activate_in_transaction active_wallet
    get_wallet_by_id
opened = 0

abbrev pub user : Text → Text → PrismaRole → PrismaAccountStatus → User
user id phone role status = record {
  id = id;
  phone = phone;
  pin = text "hash";
  role = role;
  status = status;
}

abbrev pub wallet : Text → Option Text → PrismaWalletType → ℤ → Wallet
wallet id owner type balance = record {
  id = id;
  user_id = owner;
  type = type;
  is_active = true;
  balance = balance;
  currency = PrismaCurrency.bdt;
  created_at = 0;
}

abbrev pub alice : Text
alice = text "alice"

abbrev pub bob : Text
bob = text "bob"

abbrev pub carol : Text
carol = text "carol"

abbrev pub bank : Db
bank = record {
  users =
      user alice (text "+8801") PrismaRole.customer PrismaAccountStatus.active
      ∷ user bob (text "+8802") PrismaRole.customer PrismaAccountStatus.active
      ∷ user carol (text "+8803") PrismaRole.agent PrismaAccountStatus.suspended
      ∷ [];
  wallets =
      wallet (text "wa") (some alice) PrismaWalletType.personal (pos 100000)
      ∷ wallet (text "wb") (some bob) PrismaWalletType.personal (pos 20)
      ∷ wallet (text "wc") (some carol) PrismaWalletType.agent (pos 7)
      ∷ wallet (text "ws") none PrismaWalletType.system (pos 0)
      ∷ [];
  transactions = [];
  ledger_entries = [];
  trust_devices = [];
  business_approvals = [];
}

-- A parser that takes every text for a valid number of Bangladesh.
abbrev pub any_number : PhoneParser
any_number s = some (record { country = text "BD"; is_valid = true; number = s })

abbrev pub fresh : Fresh
fresh = record { trx_id = text "TX-1"; id = text "t1"; now = 5 }

abbrev pub id_of : Text → WalletId
id_of t = record { id = t }

abbrev pub setting : Setting
setting = record {
  parse = any_number;
  reachable = true;
  cached_system_wallet_id = some (id_of (text "ws"));
  found = bank;
  checked = bank;
  fresh = fresh;
}

abbrev pub actor : UserId
actor = record { id = alice }

abbrev pub dto : TransferDto
dto = record { amount_minor_units = text "2500"; phone = text "+8802"; reference = none }

-- The idempotency key of the request.
abbrev pub request_key : Text
request_key = text "9d1c5b2a-7f01-4c7e-9A10-0b52b7c23f1a"

-- 2,500 poisha from Alice to Bob, with a fee of 500.
abbrev pub send : Transfer
send =
    build send_money_rule (id_of (text "wa")) (id_of (text "wb")) (id_of (text "ws"))
      (amounts 2500 500) request_key none

-- The same to Carol, whose account is suspended.
abbrev pub send_to_carol : Transfer
send_to_carol = record send { receiver_wallet_id = id_of (text "wc") }

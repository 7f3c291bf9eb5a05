-- ===== src/Schema.antt =====
-- backend/prisma/schema.prisma: the rows of the tables, with the columns that the backend reads or
-- writes, and the state of the database. Identifiers are texts, times are numbers.
pub mod Enums
use kori.Common.{ℕ, Bool, Option, List}
use kori.Common.Int.{ℤ}
use kori.Common.Text.{Text}
use Enums.{
  PrismaRole, PrismaAccountStatus, PrismaWalletType, PrismaTxType, PrismaTxStatus, PrismaEntryType,
  PrismaCurrency,
}

pub record User : Type 0 where
  pub id : Text
  pub phone : Text
  pub pin : Text
  pub role : PrismaRole
  pub status : PrismaAccountStatus

pub record Wallet : Type 0 where
  pub id : Text
  pub user_id : Option Text
  pub type : PrismaWalletType
  pub is_active : Bool
  pub balance : ℤ
  pub currency : PrismaCurrency
  pub created_at : ℕ

pub record Transaction : Type 0 where
  pub id : Text
  pub trx_id : Text
  pub idempotency_key : Text
  pub type : PrismaTxType
  pub status : PrismaTxStatus
  pub amount : ℤ
  pub fee : ℤ
  pub reference : Option Text
  pub sender_wallet_id : Text
  pub receiver_wallet_id : Text
  pub created_at : ℕ

pub record LedgerEntry : Type 0 where
  pub transaction_id : Text
  pub wallet_id : Text
  pub type : PrismaEntryType
  pub amount : ℤ
  pub balance_after : ℤ
  pub description : Text

pub record TrustDevice : Type 0 where
  pub id : Text
  pub device_id : Text
  pub user_id : Text
  pub is_authorized : Bool
  pub refresh_session_id : Option Text
  pub current_refresh_jti : Option Text
  pub last_used_at : ℕ
  pub created_at : ℕ

pub record BusinessApproval : Type 0 where
  pub id : Text
  pub phone : Text
  pub role : PrismaRole
  pub approved_by_id : Text
  pub expires_at : ℕ
  pub activated_at : Option ℕ

pub record Db : Type 0 where
  pub users : List User
  pub wallets : List Wallet
  pub transactions : List Transaction
  pub ledger_entries : List LedgerEntry
  pub trust_devices : List TrustDevice
  pub business_approvals : List BusinessApproval

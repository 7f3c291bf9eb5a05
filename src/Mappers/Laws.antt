-- ===== src/Mappers/Laws.antt =====
-- The dictionaries lose nothing in either direction.
use kori.Common.{◌≡◌, arith}
use kori.Mappers.Account
use kori.Mappers.Wallet
use kori.Mappers.Transaction

-- Two functions that undo one another.
abbrev Inverse : {A B : Type 0} → (A → B) → (B → A) → Type 0
Inverse {A} {B} f g = ((a : A) → g (f a) ≡ a) × ((b : B) → f (g b) ≡ b)

Role-Inverse : Inverse Account.to_prisma_role Account.to_domain_role
Role-Inverse = (λ a. ground arith, λ b. ground arith)

AccountStatus-Inverse : Inverse Account.to_prisma_status Account.to_domain_status
AccountStatus-Inverse = (λ a. ground arith, λ b. ground arith)

WalletType-Inverse : Inverse Wallet.to_prisma_type Wallet.to_domain_type
WalletType-Inverse = (λ a. ground arith, λ b. ground arith)

Currency-Inverse : Inverse Wallet.to_prisma_currency Wallet.to_domain_currency
Currency-Inverse = (λ a. ground arith, λ b. ground arith)

TransactionType-Inverse : Inverse Transaction.to_prisma_type Transaction.to_domain_type
TransactionType-Inverse = (λ a. ground arith, λ b. ground arith)

TransactionStatus-Inverse : Inverse Transaction.to_prisma_status Transaction.to_domain_status
TransactionStatus-Inverse = (λ a. ground arith, λ b. ground arith)

-- Each of the six enums is stored and read back without loss, and every stored value is read as
-- one that is stored as the same.
pub mappers_round_trip :
    Inverse Account.to_prisma_role Account.to_domain_role
    × Inverse Account.to_prisma_status Account.to_domain_status
    × Inverse Wallet.to_prisma_type Wallet.to_domain_type
    × Inverse Wallet.to_prisma_currency Wallet.to_domain_currency
    × Inverse Transaction.to_prisma_type Transaction.to_domain_type
    × Inverse Transaction.to_prisma_status Transaction.to_domain_status
mappers_round_trip = (
  Role-Inverse, AccountStatus-Inverse, WalletType-Inverse, Currency-Inverse,
  TransactionType-Inverse, TransactionStatus-Inverse,
)

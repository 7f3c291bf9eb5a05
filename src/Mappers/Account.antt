-- ===== src/Mappers/Account.antt =====
-- backend/src/infrastructure/prisma/mappers/account.mapper.ts.
use kori.Common.Text.{Text}
use kori.Domain.Enums.{AccountStatus, Role}
use kori.Schema.Enums.{PrismaAccountStatus, PrismaRole}

abbrev pub to_domain_role : PrismaRole → Role
to_domain_role PrismaRole.admin = Role.admin
to_domain_role PrismaRole.customer = Role.customer
to_domain_role PrismaRole.agent = Role.agent
to_domain_role PrismaRole.merchant = Role.merchant

abbrev pub to_prisma_role : Role → PrismaRole
to_prisma_role Role.admin = PrismaRole.admin
to_prisma_role Role.customer = PrismaRole.customer
to_prisma_role Role.agent = PrismaRole.agent
to_prisma_role Role.merchant = PrismaRole.merchant

abbrev pub to_domain_status : PrismaAccountStatus → AccountStatus
to_domain_status PrismaAccountStatus.active = AccountStatus.active
to_domain_status PrismaAccountStatus.locked = AccountStatus.locked
to_domain_status PrismaAccountStatus.suspended = AccountStatus.suspended

abbrev pub to_prisma_status : AccountStatus → PrismaAccountStatus
to_prisma_status AccountStatus.active = PrismaAccountStatus.active
to_prisma_status AccountStatus.locked = PrismaAccountStatus.locked
to_prisma_status AccountStatus.suspended = PrismaAccountStatus.suspended

-- The columns that a guard reads, and the payload that it hands on.
pub record RawAccountPayload : Type 0 where
  pub id : Text
  pub role : PrismaRole
  pub status : PrismaAccountStatus

pub record CurrentAccountPayload : Type 0 where
  pub id : Text
  pub role : Role
  pub status : AccountStatus

abbrev pub to_current_account_payload : RawAccountPayload → CurrentAccountPayload
to_current_account_payload raw = record {
  id = raw.id;
  role = to_domain_role raw.role;
  status = to_domain_status raw.status;
}

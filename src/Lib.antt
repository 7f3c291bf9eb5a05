-- ===== src/Lib.antt =====
-- Verification of the Kori wallet backend (backend/src), a mobile money service: users hold
-- wallets, move money between them, and authenticate by a PIN and one-time codes.
--
-- How the parts interact. A request reaches TransactionsService
-- (backend/src/modules/transactions/transactions.service.ts), which parses the amount, computes the
-- fee (backend/src/common/utils), looks the wallets up through WalletsService
-- (backend/src/modules/wallets/wallets.service.ts), checks that the parties may trade, and moves the
-- money in one database transaction that also writes a double-entry ledger; the idempotency
-- interceptor (backend/src/common/interceptors) stands before it. AccountRestrictionService
-- (backend/src/modules/accounts) and WalletsService decide who may take part. AuthService
-- (backend/src/modules/auth) opens accounts, logs in, and keeps one session per trusted device;
-- OtpService and AuthProofService (backend/src/modules/auth/services) keep one-time codes and
-- authorizations in Redis and run Lua scripts there. All of them write to one database, and System
-- puts their writes together.
--
-- Which module models what:
--   Common        texts as lists of UTF-16 units, BigInt (Int), results with the exceptions of Nest
--                 and Prisma (Result), tables and their queries (Table, Table.Keys), the UUID column
--                 of idempotency keys (Uuid)
--   Domain        backend/src/domain: enums and value objects
--   Fees          fee-calculator.util.ts, and round-half-even.ts in Fees.Rounding
--   Schema        backend/prisma/schema.prisma: rows and the state `Db` of the database
--   Mappers       backend/src/infrastructure/prisma/mappers
--   Store         the Prisma queries as actions on `Db`; `transaction` is prisma.$transaction
--   Wallets       wallets.service.ts; Wallets.Manage has deactiveWallet and activeWallet, and
--                 Wallets.Freezing their laws
--   Transactions  transactions.service.ts: Amount (calculateTransferMath), Description, Eligibility
--                 (onModuleInit, assertTransferEligibility), Transfer (executeACIDTransfer), and
--                 Service (sendMoney, cashIn, cashOut, payment; `perform` is their common body,
--                 `Rule` what differs)
--   Accounts      account-restriction.service.ts
--   Auth          Redis (the server as an interface with laws), RedisService (redis.service.ts), Otp
--                 (verify-otp.script.ts), SendOtp and VerifyOtp (otp.service.ts), Proof
--                 (auth-proof.service.ts and its two scripts); auth.service.ts is in Session
--                 (refreshTokens, the logouts, listTrustedDevice, revokeTrustedDevice), Login,
--                 Register and Business (approveBusinessAccount, registerBusiness); Routes has the
--                 routes of auth.controller.ts that keep the refresh cookie, Devices lemmas on the
--                 table of devices
--   Http          Idempotency (idempotency.interceptor.ts), BigInts (bigInt.interceptor.ts) on the
--                 values of Value, Guards (the guards that read the account) and Filter
--                 (all-exceptions.filter.ts); Auth.Claims has the validation of tokens' payloads
--   System        every write of the services as a step of one relation, with its runs; Effect and
--                 Openings say what each step makes of the tables, and Bank is the abstract view
--   Tests         runs and instances on a small database and a small Redis
--
-- Conventions of the model. An action takes the database and returns a result or an exception with
-- the database after it. Row locks make the body of a transfer one step; between the lookups, the
-- checks and that step of a call the database may be any other, which `Setting` holds as `found`
-- and `checked`; `Pauses` and the like hold what other requests do between the queries of a call of
-- AuthService, and `LoginFresh.between` those of a login. The transaction of registerBusiness runs
-- as one step. Balances are integers with the range of BIGINT written out where a row is updated.
-- Loops of the source are structural recursion on lists. Only the digits of a number, which the
-- source leaves to `toString`, run on fuel, the successor of the number itself, which is enough: the
-- number falls in each round. Texts are shut, and open only in the runs.
--
-- Parameters, for code that is not of this repository: the phone parser of libphonenumber-js, the
-- availability of database and Redis, Redis itself (record `Redis`, whose laws state the documented
-- behaviour of GET, SET, DEL, INCR, EXPIRE and of expiry), the hashes of tokens and
-- of PINs, the JWT library, the message of an error, and fresh values (ids, times, random codes and
-- tokens).
--
-- Not modelled: the other controllers, configuration, logging and Nest's wiring; the attributes of
-- cookies and the hashing of PINs, which are settings and calls of libraries; the checks of
-- class-validator; and spellings of a UUID other than the one with hyphens, which a UUID column may
-- take too: here such a key is refused, and the case of its letters is forgotten. The other UUID
-- columns hold identifiers that the program has made or read, and are compared as texts.
pub mod Common
pub mod Domain
pub mod Fees
pub mod Schema
pub mod Mappers
pub mod Store
pub mod Wallets
pub mod Accounts
pub mod Auth
pub mod Transactions
pub mod Http
pub mod System
mod Tests

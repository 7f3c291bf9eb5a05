-- ===== src/Tests.antt =====
-- Runs of the model on a small database, and an instance of each theorem that has hypotheses.
mod Data
mod Transfers
mod Restrictions
mod Server
mod Codes
mod Authorizations
mod Amounts
mod Sessions
mod Openings
mod Requests
mod Payloads
mod Routes

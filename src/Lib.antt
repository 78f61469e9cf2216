-- ===== src/Lib.antt =====
-- M-Duara backend: the money of savings groups ("chamas"). This library models the services that
-- move or lock money and states what they guarantee; each definition follows one function of the
-- TypeScript sources, whose paths are given from the repository's root.
--
-- The parts and how they interact. Ledger (src/shared/business-logic.ts,
-- src/services/charge-ledger.service.ts) posts double-entry journals and keeps
-- `chamas.pooled_amount` in step with them; everything else posts through it. Commitment
-- (src/services/commitment.service.ts) is the escrow of a membership's deposit. Loan
-- (src/services/loan.service.ts) takes an application through guarantors and officials to a
-- payout, which it posts to the ledger when the provider confirms it. Rotation
-- (src/services/mgr.service.ts) pays the members of a merry-go-round in turn. Penalty
-- (src/jobs/penalties.ts, src/services/financial-math.ts) charges late contributions and escalates
-- missed ones. Reconciliation (src/services/ledger.service.ts) compares a provider's records with
-- the journals. Roles (src/shared/chama-roles.ts) and Mpesa (the payload of a payout's result) are
-- what they share. Transaction (src/db/transaction.ts) is the retry loop that every service runs
-- in. Credential (src/services/credential.service.ts, src/services/otp.service.ts,
-- src/services/token.service.ts, with the handler verifyOtp of src/controllers/auth.controller.ts
-- and src/middlewares/auth.middleware.ts) is the accounts: passwords, one-time codes and tokens.
-- Poll (src/services/poll.service.ts) is the votes of a chama. Payment
-- (src/services/payment.service.ts) is the M-Pesa payments of contributions, which post to the
-- ledger and refresh the score of the member, Trust (src/services/trust-score.service.ts).
-- Subscription (src/services/subscription.service.ts) is what a chama pays for its plan and what
-- the plan allows. The database's triggers (migrations/001_initial_schema.sql) stand in
-- Ledger.Triggers and Commitment.Trigger, as tests that the operations are shown to pass.
--
-- How it is modelled. A table is the list of its rows (Prelude.Rows), with `find` for a SELECT
-- that takes its first row, `update_where` for an UPDATE, `sum_where` and `count_where` for
-- aggregates. A transaction is a function from the tables to an Outcome: its result and the new
-- tables, or the error that it throws, after which the old tables stand. Each operation runs under
-- a row or advisory lock or is SERIALIZABLE, so operations are sequences of such steps:
-- Ledger.Calls, Commitment.Requests and Loan.Requests name the steps, and the theorems about
-- histories run over lists of them. Where a service commits before it calls the payout gateway
-- (Loan.Service.approve_and_dispatch), the gateway is an argument and the steps are separate
-- functions. The operations on accounts keep what they wrote when they throw (Transaction.Work),
-- since there the rollback itself matters: Transaction.Retries runs such a work with the failures
-- that connecting, BEGIN and COMMIT may have, and Credential sends its requests through it. A
-- COMMIT that fails has committed nothing there: a connection that is lost after the server has
-- committed is left out. bcrypt, HMAC and JSON web tokens are the parameter Crypto of these
-- operations.
--
-- Numbers are the native naturals. Amounts are bigint in the source, of any size, and have been
-- checked to be positive before they are stored; where the source may see a negative one the
-- argument is an integer (Prelude.Int). Ids stand for uuids and are natural numbers: they are
-- compared and ordered, never computed with. Texts are lists of code units, with JavaScript's
-- `trim`. Times are milliseconds. The percentages of a poll are doubles (Poll.Double). The loop of
-- withDatabaseTransaction runs on fuel, `max_retries + 1`, which with_database_transaction-ends
-- shows to be enough; the scaling of a double runs at most 1074 times, the largest exponent. Every
-- other loop runs over a list.
--
-- Not modelled: HTTP routing, registration, memberships and invitations, goals and rewards, the
-- job that accrues interest (its journals are those of Ledger.Journals), the scheduler,
-- notifications, uploads, reports and the requests to the payment provider, the SQL that only
-- reads for display, the text of error messages, the metadata of a journal, and concurrency inside
-- a transaction, which the locks exclude. `toLowerCase` is modelled on ASCII letters only.
pub mod Prelude
pub mod Transaction
pub mod Ledger
pub mod Commitment
pub mod Roles
pub mod Mpesa
pub mod Loan
pub mod Penalty
pub mod Reconciliation
pub mod Rotation
pub mod Credential
pub mod Poll
pub mod Trust
pub mod Payment
pub mod Subscription

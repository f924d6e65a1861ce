-- ===== src/Lib.antt =====
-- A model of the server of the cafe and retail software (apps/web/src/server), and theorems about it.
--
-- The parts, with the files of apps/web/src/server that they translate:
--   Money (money.ts): amounts and quantities in hundredths, and the texts they travel as.
--   Result (errors.ts): exceptions as values. A transaction's body is a function from the database to an error
--     or a result with the new database: on an error nothing is written, as the driver rolls back.
--     Result/Keeps states that an action leaves a part of the state alone, with the rules that derive it.
--   Mongo: the database driver, a package outside the repository, as a record of the calls and of the laws that
--     its documentation states; Mongo/Lists is an instance.
--   Documents and its children: the documents of the collections, with the fields that are decided by or
--     computed; names, notes, texts for display and time stamps are left out.
--   Database (db.ts, query.ts): the state, all collections and counters; nextId, requiredRow.
--   Security (security.ts; billing.ts, authorizedBranch; query.ts, audit; accounts.ts, requireStepUp).
--   Inventory (inventory.ts), Ledger (ledger.ts), Closing (closing.ts; financial.ts, writableDay),
--   Replay (financial.ts, replay and saveReplay), Purchasing (purchasing.ts), Cafe (cafe.ts),
--   Billing: the quote (Quote, Cart, Lines; billing.ts, quote), the checkout (Sale, Tender, Requested, Numbers,
--     Checkout; billing.ts, checkout), the bills of the cafe (Sources, Bill; cafe-billing.ts), payments,
--     cancellation and drafts (Collect, Drafts; financial.ts). Of its theorems, Priced, Asked, Taken, Paid and
--     Series are about one step of a checkout each, Steps and Outcome about their sequence.
--   Consistency (consistency.ts, sync/reconcile).
-- A handler's steps stand in the order of the source, each guard where the source has it. Orders, table sessions
-- and invoice payments ask writable_day of Closing, a checkout looks for the same record of the day itself;
-- Purchasing, Inventory and the checkout write the same stock of Database; invoices and payments are posted to
-- the customer's ledger by post_ledger of Ledger; the issue of a draft is a checkout.
--
-- Conventions: a calendar day is its number, a random identifier and a digest are numbers that the caller
-- gives, an identifier that is null or 0 is none. JavaScript numbers are exact here: amounts are checked against
-- 2 ^ 53 - 1 where the source checks them, sums and products of them are not rounded, and a quotient is rounded
-- once, as Math.round rounds the exact one. print_from runs on fuel one above the number, which has no more
-- digits than that. A role's check that a later one implies is given once, and the
-- result that a repeated request gets is the document itself, also where the source wraps it for display. A draft, which
-- answers no request, has the request's hash 0 and a random key.
--
-- Not modelled: HTTP routing, GET handlers, logins and cryptography, indexes and connections, reports,
-- planning.ts, public-cafe.ts, settings and master data, and the user interfaces.
pub mod Billing
pub mod Cafe
pub mod Closing
pub mod Consistency
pub mod Database
pub mod Documents
pub mod Inventory
pub mod Ledger
pub mod Money
pub mod Mongo
pub mod Prelude
pub mod Purchasing
pub mod Replay
pub mod Result
pub mod Security
pub mod Tests

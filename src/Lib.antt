-- ===== src/Lib.antt =====
-- The Zyra Net API: prepaid vouchers and payouts of internet service providers (ISPs).
--
-- An ISP issues vouchers to resellers, its agents, who sell them for cash and hand the cash over
-- later. services/agent_ledger.go records every movement of that money as an entry that is never
-- changed; an agent's balance is the sum of the entries. Customers of other ISPs pay into a shared
-- shortcode, and services/payout.go sends each ISP its share. An issue mints its vouchers by
-- services/voucher.go in its own transaction, so that both commit or fail together.
--
-- Base, Int, Words and Text hold what the parts share: lists as tables, integers over the native
-- naturals, the wrap-around of int64, and byte strings with the standard library's functions on them.
--
-- Models holds the rows that several services use (models/*.go); soft-deleted rows are left out of the
-- tables. A decimal column is its number of hundredths, a time its number of nanoseconds.
--
-- Ledger models services/agent_ledger.go.
--   Ledger.Rows: the tables of models/agent.go.
--   Ledger.Tx: the database, the refusals (`ledgerErr`), and transactions as functions from a database to a
--     result with the new database, where a failure drops what was written. `Env` holds what a request
--     meets: the time, which statements fail, the random source, SHA-256, and what other requests
--     commit before a second look at the key.
--   Ledger.Idempotency: `runIdempotent`, with `lockAgent`, `replayed`, `saveKey`. A transaction is one step:
--     the row lock that it holds orders all of an agent's writes.
--   Ledger.Checks, Ledger.Issue: `IssueToAgent`, by its stages: `check_issue`, `find_offer`, `terms_of`,
--     `check_limit`, `write_batch` (`insert_batch`, `mint`, `insert_entries`), `load_batch`, whose reads of the
--     vouchers and the entries of the batch are taken to succeed.
--   Ledger.Entries: `RecordHandover`, `RecordAdjustment`, `ReverseEntry`; also where the source does not look
--     at the error of a count, which then is zero.
--   Ledger.Return: `ReturnAgentVouchers` and `dedupe`; `MarkAgentVoucherSold` is in Voucher.Redeem.
--   Ledger.Statement: `BuildAgentStatement`, but for its memo of vouchers sold.
--   Ledger.Commission, Ledger.Money: `CommissionFor`, `FormatCents`, `max64`.
-- Voucher.Generate models `GenerateTx` and `uniqueCode` of services/voucher.go, with the 20 draws of its
--   loop as fuel: the loop itself ends after as many. Voucher.Redeem models `Redeem` as one step, as its
--   row lock makes it; the SMS behind it is left out.
-- Payout models services/payout.go.
--   Payout.Price: `Price`, `EffectiveCommission`. The operations of float64 and of the package math are
--     parameters (`FloatArith`), with what is assumed of amounts below 2^37 cents in `FloatLaws`.
--   Payout.States: `Destination`, `Unsettled`, `CreatePayout`, `Cancel`, `Fail`, `MarkPaid` over the conditional
--     updates of `transition` and `releasePayments`. Its table of zones has the soft-deleted ones too, as
--     `UnsettledPayments` does. A transaction is one step here as well.
--   Payout.Runs: any sequence of these calls, each with statements of its own that fail.
--
--   Payout.B2b: the request of a payout over M-Pesa B2B (`b2bConfig`, `b2bPayload`, `payoutCallbackURL`) and
--     what an answer means (`classifyB2BResponse`). Payout.B2b.Send is `SendB2B` in the two parts that other
--     calls can come between, Payout.B2b.Result is `HandleB2BResult` and `HandleB2BTimeout`. Encryption, URL
--     parsing, the Daraja token, the exchange over HTTP, JSON decoding and float64 are parameters; the
--     payout that a call returns is the row that it leaves.
--   Payout.B2b.Once: any sequence of calls, with the requests that are in flight and those that stand.
-- Mpesa models the choice of a Daraja app for a payment (services/mpesa.go, services/cache.go).
--   Mpesa.Creds: `resolveMpesaCreds`, with `withDirectSettlement` and the platform's settings.
--   Mpesa.Routes: the methods of `mpesaCreds`, `CollectionChannel`, `GetPaymentInfo` and the texts of a push.
--   Mpesa.Cache: the caches of settings and credentials, and the reads through them.
--   Mpesa.C2b: paybill payments. Who a payment belongs to (`matchC2BCustomer` of handlers/c2b_match.go), whether
--     Safaricom's record agrees with a confirmation, and parking one (services/c2b_verify.go); float64
--     amounts and their comparison are parameters.
--   Mpesa.Stk: what becomes of a payment by STK push. Stk.Rows has its tables, Stk.Payer `AdjustCredit`
--     (services/credit.go) and `payerFor` with services/tenant_scope.go, Stk.Granting and Stk.Success
--     `ProcessPaymentSuccess`, `ProcessUnderpayment` and `ProcessPaymentFailure`, Stk.Callback
--     `HandleCallback`, Stk.Query `QueryAndUpdateSTKStatus` and the job of services/money_jobs.go. A call
--     is one step from its first update on; a call that began with an older copy of the row is covered,
--     since the copy is an argument. Go's float64 and the exchange with Daraja are parameters; SMS and
--     RADIUS are left out.
--   Mpesa.Stk.Actions: services/router_actions.go, with what a router answers as a parameter.
--   Mpesa.Stk.Runs: any sequence of these calls, each with statements of its own that fail.
-- Router.Health models services/router_health.go: whether a zone takes payments, check-ins of its router, and
--   the time given back after an outage. What an address is good for (`net.ParseIP`) is a parameter;
--   `ReconcileCustomer` is outside, and the customers it is called for are kept in order.
-- Router.Watchdog models the sweeps of services/watchdog.go over silent routers and over customers whose
--   time is up (Router.Watchdog.Overload), with the calls that routers get as a list.
-- Utils models the helpers of utils: telephone numbers, the end of a subscription (the calendar's month is
--   a parameter), subdomains, and the ports of a router.
-- Access models middleware: `AdminAuth`, `PlatformAuth`, `CustomerAuth` and the guards behind them
--   (Access.Sessions: auth.go, rbac.go), the ISP of the portal that a request came from, and the cache of
--   ISPs (Access.Tenant: tenant.go), and the address of a visitor (Access.RealIp: realip.go). Which claims
--   a token carries, the parsing of URLs, and addresses with their ranges are parameters.
--
-- The loops are by structural recursion. The fuel of `digits_onto` is the number that it prints, and that
-- of `group_thousands` the number of digits, each at least the number of rounds.
--
-- Not modelled: summaries of agents, the start of a push, the watchdog's ticker and the router API,
-- messages, HTTP handlers, the tokens of platform and customers, configuration and commands. The
-- database engine, SHA-256,
-- the clock and the random source are parameters.
pub mod Base
pub mod Int
pub mod Words
pub mod Text
pub mod Json
pub mod Utils
pub mod Models
pub mod Ledger
pub mod Voucher
pub mod Payout
pub mod Mpesa
pub mod Router
pub mod Access

-- ===== src/Lib.antt =====
-- CollMind backend: trade budgets, their approval, and the plans that spend them.
--
-- The program is a NestJS service over PostgreSQL. A tenant has budget envelopes; agreements and
-- plans reserve from them by transactions in a table with unique idempotency keys; a view sums the
-- transactions and the ledger to the amount that is available. Plans and agreements pass through
-- approval requests with levels. Off-invoice transactions of an agreement are bounded by its cap and
-- posted to the ledger. The approval workflow of a plan puts the three together: it checks
-- the budget, makes a request, reserves, and on a review approves, rejects, returns or escalates.
-- Budget allocations keep budgeted, reserved and utilized amounts of both sides of the invoice in
-- their own columns, with a log of what changed them. The KPI engine calculates the KPIs of SKUs,
-- FUs and plans by formulas, and rates them red, amber or green. Long-term agreements give the
-- discounts of a customer for a period, by channel and category.
--
-- Files, and the code they model (paths from the repository's root):
--   Base            numbers, tests, lists and texts that the other modules share.
--   Entities        the rows: src/database/entities/ (budget-envelope, budget-transaction,
--                   ledger-entry, agreement, agreement-transaction, approval-request, plan,
--                   plan-approval-history, tactic, budget-allocation, budget-transaction-log,
--                   lta-agreement, lta-rate, lta-plan-override, and in Catalogue forecasting-unit,
--                   sku, channel and category; kpi is in Kpi/Rows).
--   Db              the tables as one record, and actions on them: a method takes the database and
--                   returns a value or throws, with the database that it leaves. Db/Ends has the
--                   predicate on how a call ends and a rule for each step of a method.
--   Budget          src/modules/shared/budget/: Repository for budget.repository.ts and the view of
--                   src/database/migrations/1704067740000-CreateBudgetSummaryView.ts, Service for
--                   budget.service.ts, with createEnvelope in Envelopes and getBudgetStatus in
--                   Status. A function has the method's name in snake case.
--   Approval        src/modules/shared/approval/: approval.service.ts and approval.repository.ts.
--   Agreements      src/modules/modes/actuals-first/agreement/: Repository for
--                   agreement.repository.ts, and agreement.service.ts in parts: Service for the
--                   life cycle, Terms for update, Creation for create, Codes for the codes that
--                   create gives.
--   Ledger          src/modules/modes/actuals-first/ledger/: ledger.service.ts and
--                   ledger.repository.ts.
--   Transactions    src/modules/modes/actuals-first/agreement-transaction/: Repository for
--                   agreement-transaction.repository.ts, Service for create and batchImport of
--                   agreement-transaction.service.ts.
--   Allocations     src/modules/shared/budget/budget-allocation.service.ts: Queries for its queries
--                   and writes, Service for createAllocation and updateAllocation, Availability for
--                   checkAvailability, Reports for the reports, which read the columns by Number.
--   Plans           src/modules/modes/planning-first/plan/: Submission and Review for
--                   approval-workflow.service.ts, Spend for its spend breakdown and the tactic spend
--                   of plan.service.ts, Service for the life cycle in plan.service.ts, Editing for
--                   its calls on a draft, Recalculation for recalculatePlanWithKpiEngine,
--                   Repository for plan.repository.ts, Dto for dto/.
--   Formula         validateFormula and extractDependencies of
--                   src/modules/shared/kpi-engine/formula-parser.service.ts, as functions on texts.
--   Kpi             src/modules/shared/kpi-engine/kpi-engine.service.ts: Aggregate and Engine for
--                   the three calculations, Cache for its two caches; and execute of
--                   formula-parser.service.ts.
--   Lta             src/modules/shared/lta/: Repository for lta-agreement.repository.ts, Service for
--                   the calls of lta-agreement.service.ts that write, Rates for its rates and
--                   overrides, Calculation for lta-calculation.service.ts.
--   Examples        the theorems applied to a small database, and runs of the model on it.
--
-- Choices of the model:
--   - An id is a natural number, compared only. The database's generated ids are a supply `uuids`,
--     of which `drawn` are used (randomUUID of a batch draws from it too); `now` is what `new Date()`
--     reads during a call.
--   - Amounts are integers of hundredths, as the decimal columns keep two places. The driver gives
--     decimals as texts. They are modelled by their values where the code makes numbers of them, by
--     Number, `-`, or a comparison with a number, and `text_at_most` compares two of them as
--     texts. The floating-point products of the spend breakdown are a
--     parameter, `Products`; its sums are exact. `Calculator` adds those of the recalculation: the
--     share of a SKU in the spend, and the ROI.
--   - The rows of FUs and SKUs are kept in the row of their plan, in the order in which they were
--     added, and the master data is the parameter `Catalogue`. The recalculation writes the rows of
--     its FUs and SKUs in one step, as it reads back only what it has just written. A SKU
--     that was deleted softly is not loaded: the recalculation throws on it, and what it has
--     written before stays. A product that the code keeps unrounded until its sum is stored is
--     rounded here, so a stored spend can differ by cents.
--   - A time is a number of milliseconds since 1970. The month of a time in the server's calendar is
--     a parameter, `month_of`. `Platform` adds the year, and whether a query builder shows deleted
--     rows for agreements; the queries of allocations and of long-term agreements hide them. A date
--     column is read as the Date that its entity declares. The master data of other services is a
--     parameter, `MasterData`; foreign keys hold.
--   - The KPI engine works on any type of numbers, with the operations that it uses as the parameter
--     `Numbers`, and on any evaluation of formula texts, the parameter `Evaluation`. Its three
--     calculations take the list of KPIs that the cache gives, and execute a formula with the type
--     of its row; Kpi/Cache has what the caches make of both.
--   - The dates of a long-term agreement are numbers of days; `today` is the day of a time in the
--     server's calendar. Which CPLs exist, and the SKU of a plan that the calculation joins, are
--     parameters. A relation that a query does not join is absent. Rates are not soft-deleted. The
--     save of an agreement writes the columns of its row.
--   - A findOne without an order takes the first row of the table's list; an ordered query for one
--     row takes the first of the best.
--   - Tables list their newest row first, as the queries order by creation. A row has a flag for its
--     `deletedAt`. Columns that no modelled code reads, as descriptions, are left out.
--   - A query is the rows that its conditions select. LIKE patterns hold no wildcard characters. An
--     idempotency key is kept as its parts.
--   - A formula's regular expression for references is read as the runs of word characters, and
--     lower-casing acts on ASCII letters, which is all that the forbidden patterns can meet.
--   - No method opens a database transaction, so a throw leaves earlier writes in place, and the
--     model keeps them. Calls run one after the other; the row lock and races are not modelled.
--   - The values of enum columns and of validated request fields are those of the enum.
--   - A loop over a list is structural recursion. The two loops for a free agreement code have the
--     code's own limit of ten attempts. Digits of n are taken with n + 1 as the bound on their
--     number, which is enough as each division by ten makes a positive number smaller.
--
-- Not modelled: the reservations of plans in budget allocations, which join texts of decimal columns,
-- the KPI results and the available tactics of agreements, the creation of plans and
-- the reads checkBudget, calculateKpis and getAnalysis, spend calculation, the evaluation of
-- formula texts, the percentages and alerts of allocations, finance reports, the on-invoice
-- import, master data, customers, tenants, users and notifications; controllers, guards and the
-- framework; and the queries that only list rows.
pub mod Base
pub mod Entities
pub mod Db
pub mod Budget
pub mod Approval
pub mod Agreements
pub mod Ledger
pub mod Allocations
pub mod Transactions
pub mod Lta
pub mod Plans
pub mod Formula
pub mod Kpi
pub mod Examples

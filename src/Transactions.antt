-- ===== src/Transactions.antt =====
-- agreement-transaction.service.ts and agreement-transaction.repository.ts
-- (src/modules/modes/actuals-first/agreement-transaction): off-invoice transactions of agreements.
pub mod Repository
pub mod Service

-- ===== src/Governance.antt =====
-- backend/app/governance: approvals, policy, budgets, redaction and the audit ledger.
pub mod Approvals
pub mod Policy
pub mod Budget
pub mod Redact
pub mod Audit

-- ===== src/Governance/Policy.antt =====
-- backend/app/governance/policy: the risk score, the tenant's rules and the engine that decides.
pub mod Risk
pub mod Rules
pub mod Engine

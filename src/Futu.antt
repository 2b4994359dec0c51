-- ===== src/Futu.antt =====
-- apps/agent_futu/futu: the read-only broker connection.
pub mod Audit
pub mod PgAudit

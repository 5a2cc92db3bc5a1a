-- ===== src/PerfAudit.antt =====
-- frontend/web-app/scripts/perf-audit.mjs: the audit of the built frontend. The manifest is that of the
-- build; what the audit measures in a browser is given.
pub mod Assets
pub mod Main
pub mod Scenario
pub mod Reveal

-- ===== src/TokenPages.antt =====
-- What pages of the token console do with their rows: the filters of the audit log, the legend of the models'
-- chart, the ticker of recent activity with the protocol page above it, and the tabs of the settings.
pub mod Audit
pub mod Legend
pub mod Ticker
pub mod Settings

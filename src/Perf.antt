-- ===== src/Perf.antt =====
-- html/perf.js: the charts of a page of results.
pub mod JQuery
pub mod Drawing
pub mod Ticks
pub mod Options
pub mod Time
pub mod Varying
pub mod Summary
pub mod Page

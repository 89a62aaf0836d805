-- ===== src/Js.antt =====
-- The part of JavaScript that html/perf.js computes with: numbers, values, and property access.
pub mod Number
pub mod Value

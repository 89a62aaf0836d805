-- ===== src/Scenario.antt =====
-- The Java code that counts the messages of a run, runs a scenario over the values of its variables,
-- and writes the results that html/perf.js charts: Stats, SimpleScenarioStats, VaryingScenario and
-- VaryingScenarioStats of com.rabbitmq.perf.
pub mod Runs
pub mod Results
pub mod Counters

-- ===== src/Lib.antt =====
-- The charts of PerfTest results: a model of html/perf.js, of which
-- src/main/resources/static/perf.js is a copy, and of the Java code that writes the results of a
-- run and of a scenario that varies parameters: Stats, SimpleScenarioStats, VaryingScenario and
-- VaryingScenarioStats, in src/main/java/com/rabbitmq/perf; of the producers and the consumers
-- whose messages a run counts: Producer, Consumer, AgentBase, TimeSequenceMessageBodySource and
-- VariableValueIndicator there; and of the queues between them: MulticastParams, TopologyRecording
-- and the loops of MulticastSet.
--
-- A results file is a JSON object of scenarios. A page has elements of class "chart",
-- "small-chart" or "summary", whose attributes say what to show. `render_graphs` walks over the
-- charts (`plot`, which requests a file if the element names one, and `plot0`, which draws a
-- chart by its type) and then over the summaries (`summarise`). The four types of chart are
-- `plot_time`, `plot_series`, `plot_x_y` and `plot_r_l`; each computes its lines, which can throw,
-- and hands them to `plot_data`, which lays out a table round the element and calls flot. The
-- results of a scenario come from its runs, one for each combination of the values of its
-- variables; they hold the dimensions, the values of each, and the data as a tree of maps. The
-- scenarios come from a specification file (`from_json`).
--
-- A producer takes a permit for each message (`acquire`), puts the time into the body (`create`),
-- tracks the message until the broker answers (`track`, `handle_ack`, `handle_nack`), and stops at
-- its message limit (`run_producer`, which is `run` of Producer). Its rate and the size of its
-- messages may vary over time: `intervals` reads the definitions, `start` schedules the updates
-- (`scheduling_period`), and each update (`update`) sets the value.
--
-- A consumer counts a message, measures its latency and asks for acks and commits
-- (`handle_message`), counts down at its message limit, and is stopped by a check when it is idle
-- (`maybe_stop`), with a last ack. Before there are consumers and producers, the topology handler
-- configures the queues (`configure_all_queues`); then it gives each consumer its queue
-- (`configure_queues_for_client`) and each producer its routing key (`create_clients`). A run
-- registers what it opens with a service that closes it in reverse order (`close`).
--
-- The files and what they model:
--   Base            the shared names; Base.Result, exceptions and loops that push; Base.Text,
--                   `split`, `indexOf` and concatenation; Base.Assoc, objects that are written to.
--   Js              JavaScript: Js.Number, the numbers; Js.Value, values, property access,
--                   conversions and the operators `+` and `==`.
--   Perf.JQuery     what is taken from jQuery and the browser, as a parameter.
--   Perf.Drawing    the lines, the options and the calls of a chart, and runs that may throw.
--   Perf.Ticks      `log_transform`, `log_ticks` and the three axis constants.
--   Perf.Options    `plot_data`.
--   Perf.Time       `plot_time`.
--   Perf.Varying    `plot_series`, `plot_x_y` and `plot_r_l`.
--   Perf.Summary    `summarise`.
--   Perf.Page       `plot0`, `plot`, its two handlers, and `render_graphs`.
--   Java            the `long` and the `int` of Java, and the end of its `split`.
--   Scenario.Runs   `run` of VaryingScenario: the keys of the runs, in order.
--   Scenario.Results  `results` of VaryingScenarioStats; Scenario.Results.Charted and .Single,
--                   what `plot0` makes of the results of two variables and of one.
--   Scenario.Counters  Stats and SimpleScenarioStats: the handlers of a run, `report`, `reset` and
--                   `results` (`run_results`); Scenario.Counters.Intervals, the intervals of a run
--                   by the calls of its handlers.
--   Agents.Messages  TimeSequenceMessageBodySource, TimestampProvider, and the extractor of
--                   Consumer.
--   Agents.Confirms  the semaphore and the unconfirmed messages of Producer, and its wait for them;
--                   Agents.Confirms.Balance, the steps of a producer and its broker on one
--                   connection; .Recovery and .Excess, the reset at a recovery.
--   Agents.Publishing  the loop of Producer, and `dealWithWriteOperation` of AgentBase.
--   Agents.Consuming  Consumer: a message, the acks and the limit; Agents.Consuming.Good and
--                   .Settled, which messages are settled; .Exit, the ack before the exit;
--                   .Uncommitted, the transaction that the exit leaves open; .Recovered, what a
--                   recovery changes; .Limit, the message limit; .Idle and .Stopped, the checks
--                   that stop it.
--   Topology        TopologyRecording; Topology.Handlers and .Configuration, the topology handlers
--                   of MulticastParams; Topology.Clients, `createConsumer`, `createProducer` and
--                   their order in MulticastSet; Topology.Spread, .Consumers, .Recorded, .Ready,
--                   .Queues and .Served, what a sequence of queues leaves; Topology.Recovery, its
--                   recovery.
--   Shutdown        ShutdownService; Shutdown.Once, how often its callbacks are called.
--   Indicator       VariableValueIndicator: the definitions, the intervals and the update;
--                   Indicator.Schedule, the value at each second; Indicator.Period, `gcd` and
--                   `start`.
--   Factory         ScenarioFactory and `setValue` of PerfUtil; Factory.Names, the keys;
--                   Factory.Described and .Accepted, a specification and its scenario.
--   Examples        html/examples/publish-consume-result.js, the two specifications there, and the
--                   scenarios "no-ack" and "message-sizes-large" of html/examples/various-result.js.
--   Tests           concrete numbers and pages.
--
-- State is passed explicitly: a run of a function is the list of its calls of jQuery and flot, and
-- the exception that ended it. A function keeps its name, in this spelling: the part of it that
-- computes the lines has a name of its own (`time_series`, `series_chart`, `x_y_chart`,
-- `r_l_chart`, `summary_rate`), and so has the body of each loop.
--
-- Doubles are the parameter `Number`, with the order that `IsOrdered` states where a theorem needs
-- it; jQuery, its `$.each`, and `JSON.parse` are the parameter `JQuery`, and `IsLawful` states that
-- `$.each` walks over an array. The loop of `log_ticks` takes fuel; it is enough to have as many
-- rounds as there are numbers between the ends of the axis. So does the wait for confirms, for
-- which ten rounds for each second of the timeout and two more are enough. Objects have own
-- properties only, each key once, as `JSON.parse` makes them; a text has one code unit for each
-- character. What Java's reflection, `setUri` and the case of letters do is the parameter
-- `Environment`.
--
-- Not modelled: jQuery, flot and excanvas in html/lib, which are copies of other projects; what the
-- browser makes of the table, and the exceptions of flot (a call of `$.plot` is one of the calls of
-- a run, and is taken to return); the order in which requested files arrive; the histograms, gauges
-- and races of the counters; the rate limiters, message properties and random routing keys of a
-- producer, and the sleeps that are interrupted; `convert` of PerfUtil; a consumer that polls, and
-- its signals of cancellation and shutdown; the arguments of a queue, and the start and the
-- shutdown of a run; and the rest of the Java program. The calls of the broker's channels are the
-- parameters `Broker`, `Delivery`, `Check` and `Answers`. In the results of a scenario those of the
-- single runs are a function of the key. That the results are written as JSON and parsed again is
-- not a step of the model.
pub mod Base
pub mod Js
pub mod Perf
pub mod Java
pub mod Scenario
pub mod Agents
pub mod Topology
pub mod Shutdown
pub mod Indicator
pub mod Examples
pub mod Factory
mod Tests

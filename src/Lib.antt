-- ===== src/Lib.antt =====
-- Post-trade reconciliation pipeline: what its parts keep true.
--
-- The program ingests market ticks, queues them on a Redis stream, stores them, simulates a trade
-- book against them with planted anomalies, and reconciles the book with the stored ticks. The
-- files model its parts, each definition under the name of its function or type:
--
-- - Models: src/posttrade/models, the records and enums.
-- - Storage: src/posttrade/storage. Rows holds the rows of the four tables; Book is BookStore
--   (book_store.py) and Keys its primary key; Ticks is the protocol TickStore of
--   timeseries_store.py, with TimescaleTickStore in Ticks/Timescale, DuckDBTickStore in
--   Ticks/Duckdb, the laws of the first in Ticks/Laws and their agreement in Ticks/Agree.
-- - Queue: src/posttrade/queue/redis_stream.py, with the round trips in Codec; Group is the
--   consumer group with what StreamConsumer asks of it, Entries and Recovery are about what its
--   pending entries keep.
-- - Ingest: AsyncIngestor of src/posttrade/ingest/async_ingestor.py, with the numbering of ticks
--   in Numbering, what ends it in Raising and the loop over connections in Reconnect.
-- - Workers: run_worker of src/posttrade/workers/worker.py, with one round in Batches and what it
--   has done at any moment in Progress; Pool is worker_pool.py.
-- - Bronze: BronzeWriter of src/dataeng/bronze/bronze_writer.py, with its lines in Landing, its
--   buffers and counters in Bounds and its bucket at the end in Flushed.
-- - Capture: src/dataeng/bronze/run_bronze_ingestor.py, the ingestor of Ingest whose hook is the
--   append of Bronze, with what it leaves in the bucket in Landed. Kept is about what the hook is
--   given, Read about what a rebuild of Silver reads of the bucket, Rebuilt about its rows.
-- - Discovery: src/dataeng/discovery.py over the keys of the bucket's objects. Found reads the
--   keys that the bronze writer puts, Landed is about a whole run of it, Once about the set.
-- - Silver: src/dataeng/silver/silver_transform.py, with Rebuild and with the rows' numbers in
--   Numbered; it calls normalize of Ingest, as the code does. Republished compares its rows with
--   the ticks that the ingestor published, message by message in Replayed, with Landed.
-- - Orchestration: src/dataeng/orchestration. Requests is about the sensor of sensors.py, Replay
--   about the job of jobs.py, which calls the transform of Silver, with the directories in Dirs.
-- - Quality: src/dataeng/quality/silver_expectations.py over the files of Silver. Unique says
--   when the rows have no key twice, Verdict what the checks answer.
-- - Reconcile: Reconciler of src/posttrade/reconcile/reconciler.py, with its searches. Frames is
--   what they call of pandas, Specification says without loops what they look for; Unmatched,
--   Drift and Gaps hold the equivalences, Flags, Windows and History what reconcile_symbol makes
--   of the ranges that it reads, Whole is about a range that holds the whole book, Symbols about
--   reconcile_all.
-- - Simulate: TradeBookSimulator of src/posttrade/simulate/trade_book_simulator.py. Nets,
--   Consistent, Recorded, Positions and Logged hold the invariants of the book that it writes;
--   Found, Recall and Gaps are about what the reconciler finds of the anomalies that it plants;
--   Runs is its loop, with Emitted and Counted.
-- - Report: the figures of generate_break_report of src/posttrade/report/report.py, which calls
--   reconcile_all. Scores is about one line of its table, Truth about what it measures of the
--   simulator's drifts, with the ids in Members.
-- - Load: src/posttrade/loadtest/load_harness.py, with its publishers in Publish, a step in Step,
--   its grace loop in Grace, the start and the stop of the workers in Harness and the ramp in Ramp.
-- - Scale: generate_scale_dataset of src/dataeng/scale/generate_dataset.py. Columns is about its
--   columns, Partitions about the rows of each symbol and date.
-- - Prelude: lists, dicts, integers, text and sorting that the parts share.
--
-- State is passed explicitly: a store is the rows of its tables, the simulator a record of its
-- fields with the tables that its stores reach. The random draws and the uuid of a message are
-- inputs of its handler; the reads of a consumer loop are a list of batches, the connections of
-- the ingestor a list of how they end, and a loop recurses on its list, so no fuel is needed:
-- where the list ends the loop still waits. The grace loop of Load recurses on fuel, and one
-- round more than there are half seconds in its time of grace is enough. A raised KeyError or
-- ValidationError is `none`. The simulator starts on any book; what is said of its states is said of
-- those that it reaches from an empty one.
--
-- A datetime is a whole number of microseconds, a Decimal a whole number of units of 10^-8; sums
-- of Decimals are exact, as Python's are up to 28 digits. NUMERIC columns keep a Decimal, DOUBLE
-- columns round it by the parameter `to_double`. TIMESTAMPTZ keeps an instant, DuckDB's TIMESTAMP
-- the wall clock of the parameter `Session`; the reconciler is modelled over a TickStore, whose times
-- have a zone, as those of TimescaleDB have and those of DuckDB have not. ORDER BY and sort_values rearrange the rows in
-- the order of the key and say nothing of ties. pandas is the parameter `Pandas` with the
-- documented laws of sort_values, min and cumsum, numpy the parameter `Numpy` with
-- those of repeat, tile, arange and the size of a draw; a Side that TEXT holds is the enum's value.
--
-- Redis is a client with XADD and a pipeline, of which is assumed that it carries out its
-- commands in their order, and a consumer group that keeps an entry pending until it is
-- acknowledged. Great Expectations is a checkpoint that evaluates every expectation and succeeds
-- if all are met; pydantic's JSON, `json.loads`, the constructor of Decimal and `fromisoformat`
-- are parameters. S3 is a list of objects, in the order in which they were put; a text is a list of
-- code points.
--
-- Not modelled: connections, schema setup, logging and metrics, which are input and output; the
-- DataFrame of breaks_to_df; the transactions of PostgreSQL, one statement being one step; the
-- charts and the markdown of the report; Dagster's declarations and the runs of dbt; the settings
-- of config.py; the timings and charts of scale_test.py and scale_chart.py.
pub mod Prelude
pub mod Models
pub mod Storage
pub mod Queue
pub mod Ingest
pub mod Workers
pub mod Bronze
pub mod Capture
pub mod Discovery
pub mod Silver
pub mod Orchestration
pub mod Quality
pub mod Reconcile
pub mod Simulate
pub mod Report
pub mod Load
pub mod Scale

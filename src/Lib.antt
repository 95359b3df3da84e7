-- ===== src/Lib.antt =====
-- db-sanitizer copies a PostgreSQL database with its sensitive texts replaced by synthetic ones. A
-- policy names the columns, in groups that share their replacements. The collector reads the
-- distinct values of these columns and stores a keyed digest of each in the registry, a SQLite
-- file; the generator asks a language model for values and assigns one to each digest; Greenmask
-- dumps the database through a mapper process, which writes the replacement of each value; the
-- verifier compares the restored copy with the source, and a report says whether it passed.
--
-- Which file models what, with paths of the repository:
-- - Errors.antt: src/db_sanitizer/errors.py and the error classes of the other modules.
-- - Exec.antt: methods that change an object and may raise, and `with connection:` of sqlite3.
-- - Mapping/Normalization.antt, Mapping/HmacKey.antt: mapping/normalization.py and
--   mapping/hmac_key.py, both under src/db_sanitizer, as all paths below.
-- - Mapping/Tables.antt: the tables and SQL statements of mapping/registry.py.
--   Mapping/Registry.antt: the methods of `MappingRegistry`, each under its own name;
--   Registry/Assign.antt: `assign_replacements`; Registry/Accumulator.antt:
--   `VerificationHmacAccumulator`; Registry/History.antt: any sequence of the calls that change a
--   registry.
-- - Policy/Names.antt, Policy/Models.antt, Policy/Sections.antt: policy/models.py.
--   Policy/Schema.antt: the snapshot of postgres/inspector.py. Policy/Validator.antt:
--   policy/validator.py.
-- - Postgres/Collector.antt: `collect_mapping_keys` of postgres/collector.py.
-- - Llm/Models.antt, Llm/Generator.antt, Llm/Generator/Batches.antt: llm/models.py, llm/base.py and
--   the class `ReplacementGenerator` of llm/generator.py.
-- - Greenmask/Mapper.antt: `JsonlMapper`, `_parse_config` and `run` of greenmask/mapper_process.py;
--   Mapper/Plain.antt is the same without a cache, as a specification.
-- - Verify: verify/checks.py. Connection.antt holds its queries, Checks.antt the outcome of a check
--   and two checks; SchemaColumns.antt, RowCounts.antt, Statistics.antt, ForeignKeys.antt, Keys.antt,
--   Configured.antt and Nonintersection.antt hold one check each. LookupCache.antt is
--   `_ReplacementLookupCache`; Mappings.antt and Aggregate.antt compare a mapped column row by row
--   and in total. Verify/Report.antt: verify/report.py. Verify/Inputs.antt and Verify/Runner.antt:
--   `verify_connections` and `verify_and_write_report` of verify/runner.py.
-- - Settings.antt: settings.py, and `resolve_policy_runtime` of policy/loader.py.
-- - Greenmask/Config.antt: `_table_mapping` of greenmask/config_builder.py.
-- - Graph.antt, Graph/Agent.antt, Graph/Nodes.antt, Graph/Workflow.antt: graph.py. Graph.antt holds
--   the state, the context and what is read from them; Agent.antt is the node that generates
--   replacements, Nodes.antt the others and their order; Workflow.antt is `run_sanitization` and
--   `verify_existing_run`. Workflow/Stages.antt lists the stages of a run, which the state names.
-- - Base.antt and its children: tests on numbers, lists, texts, dicts and sorting. Tests.antt:
--   concrete runs.
--
-- State. A registry is the record of its four tables, and a table is the list of its rows. The
-- generator holds the registry, and a batch holds the generator, since the code shares the one
-- object. The mapper and the verifier's cache hold a registry; of these only the verifier's
-- accumulator writes it, in its own table.
--
-- Choices. A text is the list of its code points. An error is its class: the messages, which the
-- code builds from constants and names of the policy, are left out. A SQL statement succeeds unless
-- a constraint stops it; columns that hold times are left out. Durations count the ticks of some
-- clock, and the temperature of a model counts hundredths. What is not implemented here is a
-- parameter: the tables of Unicode, SHA-256 and HMAC-SHA256, regular expressions, the provider (a
-- function of the number of the request and the request), and the answers of PostgreSQL. The fields
-- of a request to the provider were checked with the policy, so a request does not fail. The queries
-- of the collector are answered, and `verify_connections` is called without snapshots.
--
-- Fuel. `generate_group` has a number of rounds and gives `none` when it runs out; the bound is one
-- round more than the group has keys without replacement, since each round assigns at least one.
-- The workflow gives each group one round more than the table has rows. All other loops are
-- structural.
--
-- The engine of the workflow is LangGraph. It is a parameter, `IsEngine` states what its
-- documentation says of a graph whose nodes stand in a line, and the tests give a concrete one.
-- Between two calls of the engine nothing but the checkpoint and the registry stays.
--
-- Not modelled: the files, processes and network connections around these parts (loading a
-- policy, the providers' HTTP clients, the payloads for Greenmask and its process, database
-- connections, rendering a report, directories, logging, the sample of a demo), the fingerprint of
-- a schema and the command line.
pub mod Base
pub mod Errors
pub mod Exec
pub mod Mapping
pub mod Policy
pub mod Postgres
pub mod Llm
pub mod Greenmask
pub mod Verify
pub mod Settings
pub mod Graph
pub mod Tests

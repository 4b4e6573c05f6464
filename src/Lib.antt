-- ===== src/Lib.antt =====
-- Verification of zapps: benchmark kits and log tools on top of the Zero storage manager.
--
-- The kits (src/kits) keep tables of a database: a table description lists field descriptions
-- (field.h), a row in main memory (row.h, row.cpp) holds one value per field, and the table
-- manager (table_man.cpp) converts rows to and from their disk format before it calls the storage
-- manager, which is not part of the repository.
--
-- The files:
-- - Prelude: results of calls that may fail (an assertion, or an access outside a buffer), lists,
--   tests, and memory as lists of bytes (Prelude.Memory).
-- - Field: src/kits/field.h. `SqlType` is `sqltype_t`, `FieldDesc` is `field_desc_t`, `FieldValue`
--   is `field_value_t`; `setup`, `set_value`, `copy_value` and the typed functions have the names
--   of the source. Field.Access has the functions that set and copy, Field.Reads the ones that
--   return a value, Field.Limits `reset`, `set_min_value` and `set_max_value`. Field.Valid,
--   Field.Stores and Field.Assign prove.
-- - Row: src/kits/row.h and src/kits/row.cpp. `Row` is `table_row_t`, `RepRow` is `rep_row_t`,
--   `setup_row`, `reset_row`, `size` and `set_rep` are their functions. Row.Access has
--   the functions that set and get a field by its type (`row_set_int`, `row_get_int`, ...).
--   Row.Values, Row.Layout and Row.Updates prove.
-- - Format: `format` and `load` of src/kits/table_man.cpp. Both loops pass a `Cursor`, the local
--   offsets. Format.Steps, Format.Copies and Format.Loads describe one field, Format.Region the
--   parts of the buffer, Format.RoundTrip both loops together, Format.Inverse the whole, Format.Nulls
--   null values, Format.Sizes the sizes of records, and Format.Indexed a load with an index.
-- - Table: src/kits/table_desc.h, src/kits/table_desc.cpp, src/kits/index_desc.h and
--   src/kits/index_desc.cpp. `TableDesc` is `table_desc_t`, `IndexDesc` is `index_desc_t`.
--   Table.Indexes and Table.Sizes prove.
-- - Key: `format_key`, `load_key`, `min_key`, `max_key` and `key_size` of src/kits/table_man.cpp.
--   Key.Places and Key.RoundTrip prove.
-- - Manager: `index_probe`, `add_tuple`, `delete_tuple`, `update_tuple` and the other access methods
--   of src/kits/table_man.cpp, in the monad of Manager.Calls, in which a call returns, fails with an
--   error code, or stops at an assertion. `StorageManager` stands for the functions of `ss_m` that
--   are called; Manager.Memory is one in main memory. Manager.Keys, Manager.Runs, Manager.Entries,
--   Manager.Contents, Manager.Keeping, Manager.Probes and Manager.Growth prove.
-- - Random: src/kits/random_input.cpp and src/kits/util/randgen.h, over a generator that is a
--   parameter.
-- - Skewer: src/kits/skewer.h and src/kits/skewer.cpp. Skewer.Intervals, Skewer.Gaps,
--   Skewer.Outside and Skewer.Draws prove.
-- - Tpcb: src/kits/tpcb. Tpcb.Input has the inputs (tpcb_input.cpp), Tpcb.Loader has
--   `xct_populate_db` (tpcb_xct.cpp) and the loader (tpcb_env.cpp); a builder's loop has fuel for
--   one round per account, and needs one per transaction. Tpcb.Batches, Tpcb.Coverage and
--   Tpcb.Ranges prove about these. Tpcb.Stats has the statistics (tpcb_env.h, tpcb_xct.cpp),
--   Tpcb.Run the wrappers of the transactions (shore_env.h) and `run_one_xct`, with the bodies of
--   the transactions as a parameter, and Tpcb.Imbalance the skew (tpcb_env.cpp). Tpcb.Sums,
--   Tpcb.Throughput, Tpcb.Accounts and Tpcb.Mix prove. Tpcb.Schema makes the tables
--   (tpcb_schema.cpp), and Tpcb.Update is `xct_acct_update` with the probes that it calls
--   (tpcb_schema_man.cpp, table_man.h), over the calls of Manager. Tpcb.Balances and Tpcb.Names
--   prove.
-- - Shore: `ShoreEnv` of src/kits/shore_env.h and src/kits/shore_env.cpp. Shore.Settings has its
--   factors, frequencies and skew, Shore.Lifecycle `init`, `start`, `stop`, `close`, `restart` and
--   `load` over a parameter for the storage manager and the benchmark. Shore.Starts,
--   Shore.Restarts and Shore.Stuck prove.
-- - EnvVar: src/kits/envvar.h and src/kits/envvar.cpp, over the contents of the configuration file.
--   EnvVar.Requests and EnvVar.Stored prove.
-- - Verify: src/loginspect/verifylog.h and src/loginspect/verifylog.cpp. Verify.Order proves.
-- - Scanner: `BaseScanner` of src/base/scanner.h and src/base/scanner.cpp, which gives the log
--   records to the handlers; these are numbers, and the state is the sequence of the calls to them.
--   Scanner.Received proves. Scanner.Blocks is `BlockScanner` of the same file, which reads the log
--   files one after the other: the parser, the directory and the files are parameters, and the loop
--   over the files has fuel, of which a round more than there are files is enough. Scanner.Reading
--   proves, over Scanner.First, Scanner.Finalized and Scanner.Records. Scanner.Archives is
--   `LogArchiveScanner`, over the runs that the directory lists and the records that the storage
--   manager reads from them. Scanner.Chains proves.
-- - Aggregate: `AggregateHandler` of src/loginspect/agglog.h and src/loginspect/agglog.cpp, over
--   the types of the log records. Aggregate.Counts proves.
-- - Worker: src/kits/trx_worker.h, src/kits/shore_worker.cpp, src/kits/reqs.h and
--   src/kits/util/condex.h. Worker.Queue is `srmwqueue`, Worker.Threads is a step relation in which
--   a worker, any number of writers and the callers of `stop`, `start` and `pause` take turns, up to
--   the end of a worker that is stopped.
--   Worker.Commands, Worker.Orderly, Worker.Fifo and Worker.Wakeup prove. Worker.Serve is
--   src/kits/trx_worker.cpp, with the statistics: serving requests, and aborting those that are
--   left at a stop. Worker.Served proves.
-- - Client: src/kits/shore_client.cpp, `submit_one` of src/kits/tpcb/tpcb_client.cpp and
--   `condex_pair` of src/kits/util/condex.h. A client leaves the sequence of what it submits and
--   waits for; its loop over batches has fuel for a round per transaction. Client.Submits and
--   Client.Batches prove.
--   Client.Signals is a step relation in which the client and the threads that serve its requests
--   take turns, and proves.
-- - Tests: the theorems at concrete inputs.
--
-- Memory: a buffer is the list of its bytes, and a pointer into it the rest of the list. New memory
-- has the contents of a parameter `heap`. A failed assert ends a call with `assertion`, an access
-- behind the end of a buffer or through NULL with `bad_access`. Numbers are stored low byte first.
-- Offsets and sizes are numbers without a bound; the `int` numbers of accounts, and the product
-- that an interval of a skewer is computed from, wrap. Loops run over the fields, and need no fuel;
-- the other loop with fuel prints the size of a field, a short, with five digits.
--
-- Not modelled: the storage manager, starting and joining threads, command lines, printing, the
-- bodies of the microbenchmarks, merging archives, scanning pages, and the modules
-- copied from other projects.
pub mod Prelude
pub mod Field
pub mod Row
pub mod Format
pub mod Table
pub mod Key
pub mod Manager
pub mod Random
pub mod Skewer
pub mod Shore
pub mod Tpcb
pub mod EnvVar
pub mod Verify
pub mod Worker
pub mod Aggregate
pub mod Client
pub mod Scanner
pub mod Tests

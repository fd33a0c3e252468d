-- ===== src/Lib.antt =====
-- Bingsan, an Iceberg REST catalog: a model of its core with the theorems that make it correct.
--
-- A commit to a table (internal/api/handlers/table.go) hands the table's metadata, a decoded JSON
-- document, and a list of updates to the update processor (internal/api/handlers/updates). The
-- processor copies the metadata, parses every update, and applies the updates action by action in
-- a fixed order to its copy. The handler runs all that in a transaction on the table's locked row,
-- which is tried again where the lock cannot be had in time (internal/db/lock.go).
--
-- Beside it: the handlers of namespaces, and of the lists, renames and drops of tables and views
-- (namespace.go, table.go, view.go); the middleware that finds out who a request comes from and what
-- that one may do (internal/api/middleware), with the handlers that give out API keys and tokens
-- (apikeys.go, oauth.go), which work on the same rows; and the background tasks
-- (internal/background/tasks.go), which run on the node that leads (internal/leader/election.go) and
-- delete rows that have expired. Besides: the broker that hands events to the subscribers of their
-- topics (internal/events) and the handler that streams them to a client (events.go); and the plans
-- of scans (scan.go).
--
-- Files:
--   Prelude, Prelude/Tests, Prelude/Lists, Prelude/Int: names of the libraries, Boolean tests,
--     and Go's signed integers.
--   Go/Float64: float64, its conversion to int64 and the decoding of an integer literal.
--   Go/Value, Go/Value/Decoded: the values of `any` in a document, and the trip through JSON.
--   Go/Map, Go/Slice: `map[string]any` as an association list, `[]any`, and their laws.
--   Updates/Types: types.go, the parsed updates; the errors of the handlers.
--   Updates/Exec: a handler as a function from the processor's metadata to a result and the
--     metadata after it. What is written before an error stays written.
--   Updates/Util: util.go. Updates/Util/Laws: what its writes leave in the metadata.
--     Updates/Util/Removal: removeItemsByID.
--   Updates/Properties, Schema, Partition, SortOrder, Snapshot, Statistics: the handlers of the
--     files of these names, applyAddSchema as apply_add_schema and so on.
--   Updates/Dispatch: the switches of processor.go, with the order of the actions.
--   Updates/Processor: parseUpdates, Apply, NewProcessor and Result of processor.go.
--     Below it Induction (from the handlers to Apply), Order and Known (grouping and
--     the table of actions), Correct (the specification), Safety (which errors it returns).
--   Updates/Frame: the keys that a handler may write.
--   Updates/Integrity: the integrity of the metadata under Apply. Slices and
--     Unique (how a slice of items changes), Ids, Pointers, Refs, Dangling, Sync, Progress.
--   Updates/Precision: snapshot ids of more than 53 bits.
--   Updates/Tests: the theorems at a concrete table.
--   Db/Lock: lock.go, WithLock as with_lock and executeWithLock as execute_with_lock. Below it
--     Atomic (what a call leaves in the database) and Retry (attempts and errors). Db/Tests.
--   Tables/Requirement: validateRequirement of table.go. Tables/Commit: CommitTable, the function
--     in its transaction as commit_tx and the whole as commit_table; its SQL works on lists of
--     rows of the tables in internal/db/migrations/000001_initial_schema.up.sql.
--     Tables/Rows: what its statements do to each row. Tables/Atomic: what a commit leaves in the
--     tables. Tables/Drop: LoadTable, DropTable and
--     TableExists. Tables/Create: CreateTable and RegisterTable; Tables/Inserted and
--     Tables/Created: the table that they make. Tables/Tests.
--   Transactions: transaction.go, CommitTransaction as commit_transaction. Transactions/Unchanged:
--     what it leaves in the tables. Transactions/Tests.
--   Auth: the rows of api_keys and oauth_tokens. Auth/Credentials and Auth/Middleware: auth.go, Auth
--     as auth. Auth/Permissions: authz.go, with the permission by method of internal/api/server.go.
--     Auth/Keys: the handlers of apikeys.go; Auth/Listed: ListAPIKeys. Auth/Oauth: ExchangeToken.
--     Auth/Duration: parseDuration.
--     Auth/Sound (whom auth lets in), Named (the namespace of a path), Permitted (whom authz lets pass), Rotation and Rotation/Handler
--     (which keys open a row that was rotated), RoundTrip (what is given out and what it opens).
--     Auth/Tests, Auth/Tests/Keys.
--   Leader: election.go. Leader/System: nodes over a lock server, as a step relation;
--     Leader/Exclusion and Leader/Loss: who leads. Leader/Tests.
--   Tasks: tasks.go, executeTask as execute_task. Tasks/Cleanup, Tasks/Execution, Tasks/Tests.
--   Catalog: the rows of namespaces, tables and views. Catalog/Pages: the lists, and Pages/Cursor
--     where their pages end. Catalog/Namespaces: the other handlers of namespace.go, with Create,
--     Delete and Update below. Catalog/Items: renames, DropView and ViewExists, with Rename,
--     Renamed and Drop below. Catalog/Tests.
--   Events: types.go and determineTopic. Events/Broker: broker.go over channels that are numbered.
--     Events/Spec: its specification, a feed of subscriptions with queues. Events/Registry and
--     Events/Channels: the map of subscribers and the channels; Events/Refinement, with Publish,
--     Close, Unsubscribe and Receive below: when the broker stands for a feed; Events/Runs and
--     Events/Bounds: any sequence of calls. Events/Stream: the loop of EventStream;
--     Events/Connection: who may open a stream. Events/Audit: audit.go. Events/Tests.
--   Views: LoadView of view.go. Views/Create: CreateView. Views/Replace: ReplaceView, the function in
--     its transaction as replace_tx. Views/Replaced: what it leaves in the views. Views/Tests.
--   Scan: scan.go. Scan/Final and Scan/Submitted: which plans change. Scan/Tests.
--
-- Bounds: `int` and `int64` have 64 bits; the numbers of a document are taken as the integers that
-- they hold, and the one addition, of a next id, wraps round. A conversion of a float64 out of
-- range gives the least integer, as on amd64. NaN and infinities do not occur in JSON. All loops
-- run over lists but that of a stream, whose rounds are counted; no other fuel is needed, except
-- for the at most 64 halvings in Go/Float64, which are enough for a number of 64 bits.
--
-- Parameters: json.Unmarshal into the structs of types.go is a record of functions (Decoder).
-- Where Go visits a map in any order, the model has the order of the association list, which is
-- any order too. What PostgreSQL answers to a statement, the clock, and what other transactions do
-- before an attempt are arguments (Attempt, Answers, World); errors.As is a function that finds the
-- code of an error; fmt.Sprintf on the parts of a location, and the first eight bytes of a uuid,
-- are the record Format. A transaction that is not committed leaves the database as it was, and the
-- captured variables as they are; so the `commitErr` of an attempt whose commit fails is still
-- there if a later attempt succeeds.
--
-- Namespaces are given by the list that parseNamespace makes of a path's parameter. For the other
-- handlers a statement that fails is a Boolean; SHA-256 is a function on texts, and new random
-- texts, new ids and the clock are arguments. ORDER BY and `>` on names are those of the database's
-- collation and are parameters. PostgreSQL's advisory locks are the interface LockServer with the
-- laws IsAdvisory. Times are in nanoseconds on unbounded integers, and are stored so, where a
-- TIMESTAMPTZ keeps microseconds: an expiry or the end of a grace period may differ by less than
-- one microsecond. A duration has 64 bits. The constraint that a namespace has one table and one
-- view of a name is the database's, and stands where an INSERT or UPDATE is refused. Nothing
-- happens between the SELECT and the UPDATE of UpdateNamespaceProperties, which takes no lock.
--
-- A call of the broker is one step, and a panic is `none`. Publish takes the broker's mutex for reading
-- only, so two calls of it may overlap in the code and send their events to each channel in any order;
-- overlapping calls are not modelled. A send has room as a Go channel has it. The loop
-- of a stream has 17 rounds, one more than a channel's buffer holds events.
--
-- Not modelled: HTTP and routing; goroutines of the task runner and of the streams; storage
-- clients, configuration, metrics and logs, which are I/O; and the texts of error messages, which
-- are constructors with what they print.
pub mod Prelude
pub mod Go
pub mod Updates
pub mod Db
pub mod Tables
pub mod Auth
pub mod Catalog
pub mod Events
pub mod Leader
pub mod Scan
pub mod Tasks
pub mod Transactions
pub mod Views

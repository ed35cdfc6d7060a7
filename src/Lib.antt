-- ===== src/Lib.antt =====
-- A model of the core of rasql, a Go toolkit for relational databases: how
-- migrations are prepared, selected, run, reverted and reported, how native
-- SQL text is scanned and checked, how named SQL is parsed, compiled and
-- bound, in which order tables are created, how a query is paged behind
-- cursors, and how driver errors are classified.
--
-- The program's parts and where they are modelled:
--
-- * Unicode is the part of Go's unicode/utf8, unicode and strings that the
--   code calls: decoding of UTF-8, utf8.ValidString, unicode.IsSpace, and
--   whether strings.TrimSpace leaves nothing.
-- * MysqlErrno is the tree of a Go error and the search errors.As makes in
--   it, with the reading of a MySQL error number in
--   internal/mysqlerrno/mysqlerrno.go.
-- * Dberror is package dberror: Classify (dberror/classify.go) and the
--   classifiers of the drivers (dberror/mysqlerr, dberror/pgerr,
--   dberror/sqliteerr). The digits of a number take a fuel of one more than it.
-- * Migrate is package migrate. Migration holds a migration, its validation
--   and its checksum (migrate/migration.go), Reason the reasons of a refusal
--   or a failure (the errors that the package builds), Prepare
--   prepareMigrations (migrate/runner.go), History the table of applied
--   migrations with the reads and writes the engines make, Select
--   selectApplies (migrate/apply.go), Unselect selectReverts
--   (migrate/revert.go), Status statusEntries (migrate/status.go), Connection
--   the connection with its lock, its transaction and the failures a database
--   may answer with, Run the runs on the three engines (migrate/runner.go,
--   apply.go, revert.go, postgresql_lock.go, mysql_already_applied.go) and,
--   in Plan, the reads ApplyPlan, RevertPlan and Status,
--   RoundTrip what an apply followed by a revert does.
-- * Sqlscan is internal/sqlscan/sqlscan.go. Lexemes holds the helpers of Scan,
--   each over the bytes from an offset on, Scan the loop with the regions and
--   placeholders it records, Words the three walks over the text outside the
--   regions (FirstKeyword, ExecutableWords, executableTokens), Select
--   ValidateSelect over the tokens. An offset that jumps (i = end) is a count
--   of bytes still to pass. The engine's name comes trimmed and in lower case.
-- * Namedsql is namedsql/namedsql.go. Fields is what it calls of Go's strings
--   and of schema/types.go (ValidateSimpleIdentifier), Parse the template and
--   its parser, Compile the text for a dialect, QueryDef and Bind. Names,
--   Template, Values, Ending and Describe hold the proofs.
-- * TableOrder is internal/migrationorder/tables.go (OrderTables). Count, Degrees,
--   Release and Free hold the lemmas on the degrees, Loop the invariant of the
--   loop over the ready keys, Order and Acyclic what comes out. The loop takes a
--   fuel of the number of tables: each round adds one of their keys to the order.
-- * Cursorcodec is internal/cursorcodec: BigEndian and Base64 what it calls of
--   Go's encoding/binary and encoding/base64, Envelope the frame of a cursor
--   (envelope.go), Value the bytes of a key's value (value.go). An offset into
--   the raw bytes is the rest of the bytes from it on, and an index or a slice
--   out of range is an outcome of its own.
-- * Page is cursor.go and page.go: Spec the page specs and the limit of a page,
--   Keyset keysetPredicate, with a reading of the predicate in SQL's
--   three-valued logic, Cursor the cursor of a row and its decoding, After
--   PageAfter with its two halves, and a client that follows the cursors. A key
--   is data: the pointer, the expression as what the database reads for it,
--   and the function that extracts the value. Fingerprint is the fingerprint of
--   a page, with MatchBaseOccurrences (internal/bindplan/compiled.go), which
--   finds the binds of the query in the statement of the page. What lowers,
--   compiles, prepares and runs a query (query_composition.go, compiler.go,
--   executor.go and the database) is a function of the predicate and the limit;
--   the codecs of a registry and the database's comparison are parameters.
-- * Graphkey is internal/graphkey: the frames of a key's values (value.go), the
--   tuples of rows and the validation of a key's parts (spec.go), with the
--   validation of a column in Column (query/expression.go, query/relation.go).
-- * Pagekey is internal/pagekey/fingerprint.go: the bytes under the fingerprint
--   that a cursor carries, the column types as schema/column_type.go names
--   them.
-- * Prelude holds what these share: Boolean tests, lists, strings as bytes
--   and the search in them, results.
--
-- The parts interact as in the code. A run prepares the supplied migrations,
-- takes the engine's lock, reads the history, selects with Select or Unselect,
-- and runs the selection on the connection. A database is a state: the rows of
-- the history table, the SQL in effect and the open transaction's copy of
-- both. A Go error is a value of Reason; a Go function that returns an error
-- is a function into Result, or into a pair of the state and an option of the
-- error where it changes the connection. The Rollback of a database/sql
-- transaction, whose result the runner drops, is taken to discard it; SQLite's
-- ROLLBACK and the call that marks a connection bad are calls that may fail.
--
-- Strings are lists of bytes. The hash of a checksum or a fingerprint
-- (crypto/sha256), the text of a time in RFC 3339, database/sql's conversion of
-- values and the
-- answers of a database (database/sql and its drivers) are parameters. SQL
-- text has no meaning in the model: to run a source records it among the SQL
-- in effect. Contexts and deadlines are not modelled; an operation that a
-- deadline would stop is an operation that fails.
--
-- All recursion is structural, on lists of bytes, of sources or of
-- migrations, but for validateWithTokens, which runs on fuel: the length of
-- the tokens, since each definition behind WITH takes tokens, so that its body
-- and what follows are shorter; the loop of Parse, on the length of the source,
-- of which a round takes at least four bytes; and the loop of OrderTables, on
-- the number of tables, each of which becomes ready once. What strings.ToUpper
-- does to text that is not ASCII, strconv.Unquote and a dialect's Placeholder
-- are parameters.
--
-- A client of pages asks for as many pages as its fuel says; the number of rows
-- is enough, since a page that is not the last holds a row. Go's int has 64
-- bits. A float is the bits of a float64, a time its seconds and nanoseconds.
--
-- Not modelled are the text of the statements on the history table, the query
-- builder and its rendering, the schema descriptors, the executor, the assembly
-- of graphs, the differences of schemas, and all that reads or writes files,
-- databases' catalogs and Go source.
mod Prelude
pub mod Unicode
pub mod MysqlErrno
pub mod Migrate
pub mod Sqlscan
pub mod Namedsql
pub mod TableOrder
pub mod Page
pub mod Graphkey
pub mod Pagekey
pub mod Cursorcodec
pub mod Dberror

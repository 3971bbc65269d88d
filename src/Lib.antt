-- ===== src/Lib.antt =====
-- bfeed is a feed reader in Go. Its core polls feeds, extracts the full text of articles, and decides
-- when each is due again; around it stand a SQLite store, a fetcher, a parser, and a web interface,
-- which the core reaches through interfaces (internal/core/ports.go). This library models the core,
-- the store, the fetcher, the parser, the image proxy and the export.
--
-- Base holds what all parts share: the integers of Go's int64 (Base.Int, on the native naturals; the
-- wrap-around of a shift and a sum is written out), byte strings (Base.Text), lists, and the monad of
-- Base.Exec, in which an operation passes the state on and returns or panics; `recover_with` is a
-- deferred `recover`, `deferred` a deferred call. Base.Exec.Tally counts what an operation reports,
-- and Base.Exec.Ensures states what holds after it.
--
-- Core is internal/core:
--   Core.Types, Core.Metrics, Core.Ports: types.go, errors.go, metrics.go, ports.go. A time is a count
--     of nanoseconds since the zero time and is not bounded; an error is the chain of sentinels that
--     `errors.Is` finds and its message.
--   Core.Schedule, Core.Reschedule: `AdaptiveInterval`, `PollReschedule`, and the jitter of
--     cmd/bfeed/serve.go. float64 is a parameter (`Float64`) of which nothing is assumed.
--   Core.Cursor: `CursorKey`, `EncodeCursor`, `DecodeCursor`; base64 and strconv are parameters.
--   Core.Urls: the small functions of feed.go and scrape.go on URLs and titles; net/url is a parameter.
--   Core.Text, Core.Category, Core.Opml: text.go (`PlainText`), category.go and opml.go.
--   Core.Feed: feed.go. Core.Feed.World is the state of an attempt: the environment, which all ports
--     share, the feed that the Go code passes by pointer (`feed`), the flag `counted`, and the calls of
--     the metrics port, the newest first. Core.Feed.Record has the ends of an attempt (`recordError`,
--     `recordPanic`, `recordSuccess`, `ingest`), Core.Feed.Poll `PollFeed` and `ResolveAndIngest`,
--     Core.Feed.Subscribe and Core.Feed.Edit the user's operations. A Go function that branches on the
--     result of a call is cut there into steps, each a function of that result.
--   Core.Scrape: scrape.go, in the same way, with `ExtractBackoff`.
--   Core.Poller: poller.go and recover.go: a tick of `dispatch`, and `pollOne`. The select on the jobs
--     channel is a choice that the environment makes.
--
-- Fetch is internal/fetch/fetch.go: Fetch.RetryAfter (`parseRetryAfter`), Fetch.Redirect
-- (`checkRedirect`), Fetch.Host (`hostKey`), Fetch.Guard (`isBlockedIP`, `guardDial`). net/http,
-- net/url, net/netip and strconv are parameters. Fetch.Request is `Fetch` and `FetchStream` on one
-- request, with `acquire` as that request sees it: a token or the error of the context. Fetch.Sems is `acquire` and `unref`: any number of fetches side by side, each step of
-- one of them a step of the client. Fetch.Sems.Invariant is what all reachable states keep.
--
-- Parse is internal/parse/parse.go: Parse.Fields (`joinFields`, `EntryHash`), Parse.Links (`resolve`,
-- `commentsURL`, `Discover`), Parse.Decode (`decodeReader`), Parse.Ttl (`feedTTL` and what it calls) and
-- Parse.Items (`Parse`). gofeed, net/url, encoding/xml, the HTML parser, charset, strconv and the hash
-- are parameters.
--
-- Imgproxy is internal/imgproxy: Imgproxy.Signer (signer.go) and Imgproxy.Handler (handler.go). The
-- handler's client is a parameter, with the state that its requests and the closing of a body change.
--
-- Sanitize is internal/sanitize/sanitize.go but for the policy of bluemonday, a parameter.
--
-- Web.Background is internal/web/inflight.go and `startBackground` of handlers.go: each request and each
-- goroutine takes its steps between those of the others.
--
-- Store is internal/store/sqlite, with the statements that sqlc generates from its queries:
--   Store.Table: tables as lists of rows, and what WHERE, ORDER BY and LIMIT make of them; below it
--     the laws of updates and deletions (Table.Laws), of sorted rows (Table.Order, Table.Slices).
--   Store.Rows: the rows and `Db`, all tables; `feedFromRow`, `entryFromRow`, `toUnix` and the like.
--   Store.Sql: a connection, with a list that says which of the coming statements the driver fails;
--     statements, transactions with their rollback, `mapErr`. Sql.Triple is a triple on the tables with
--     a postcondition for success and one for failure.
--   Store.Queries: sqlc/*.sql.go, a function on the tables for each statement, with the UNIQUE, CHECK
--     and foreign-key constraints and the cascades of the migrations written out.
--   Store.Feeds, Store.Categories, Store.Entries: feeds.go, counts.go, categories.go, settings.go and
--     the operations on single entries of entries.go; Store.Upsert is `UpsertEntries`, Store.Listing
--     `ListEntries` with its cursors, Store.Dedup `EntryDedup`. The pool has one connection, so that operations run one after
--     another.
--   Store.Writes: a history of operations that write; Writes.Sound has the invariant under them,
--     Writes.Deletion the part of `DeleteEntry` in it, Writes.Buried and Writes.Gone what becomes of its
--     tombstone, and Writes.Atomic is on operations that fail.
--   Store.Memory: `UpsertEntries` of the store in memory that the tests use,
--     internal/core/coretest/memstore.go; Store.Memory.Views is what can be seen of an entry in either.
--   Store.Service: the feed service of Core on the store, with its other ports apart from the tables;
--     Core.Feed.Invariance carries an invariant of the ports through an attempt.
--   The rowid that SQLite picks for an entry or a category, `PlainText`, `substr` and the order of
--   COLLATE NOCASE, in which the titles of categories are sorted and compared, are parameters.
--
-- The proofs of Core stand apart: Core.Feed.Pairing and Core.Scrape.Pairing on the metrics,
-- Core.Feed.Scheduling on the next check, Core.Feed.Ingest on the entries that a poll stores,
-- Core.Schedule.Bounds and Core.Reschedule.Backoff on the delays. Tests has concrete services and the examples of the theorems.
--
-- The ports (store, fetcher, parser, sanitiser, extractor, clock) are records of operations on the
-- environment, and each but the clock may panic. The loops are structural, that of
-- `ExtractBackoff` on the rounds left and that of `ingest` on the parsed entries; only `EntryDedup` has
-- fuel, the number of GUIDs, which is enough since each round takes at least one.
--
-- Not modelled: log lines, stack traces, and the five-second limit of a detached write (the store is
-- told only that its context is detached); the readers that only pass on a store call; the poller's
-- goroutines, the scraper's dispatch, full-text search and the migrations of the store, the hook of
-- the parser for <comments>, the pages of the web interface and the configuration.
pub mod Base
pub mod Core
pub mod Fetch
pub mod Parse
pub mod Store
pub mod Imgproxy
pub mod Sanitize
pub mod Web
pub mod Tests

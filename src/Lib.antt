-- ===== src/Lib.antt =====
-- crm-bisync keeps two customer systems in step: it polls both peers, tells its own echoes from
-- foreign changes, resolves conflicts, and writes each change at most once. This development models
-- the parts that decide, as functions with explicit state.
--
-- The parts and their files:
--   * Model: internal/model/record.go. Records, change events and the digest of a record's mapped
--     fields (SnapshotHash). Values are those of Go's `any`; floating point, time formats, fmt and
--     SHA-256 are the parameter `Formats`.
--   * Store: internal/store. Store/Defs.antt has the interface Store as a record of operations on
--     a state, and its contract as the record IsLawful, which every client takes as a parameter.
--     Store/Mem.antt is mem.go (Mem), Store/Overlay.antt is overlay.go (the dry-run Overlay over any
--     store), Store/File.antt and Store/File/Calls.antt are file.go (the log, its replay, and the
--     methods; Store/File/Ordered.antt has the order in which a snapshot is written), and
--     Store/Typed.antt is typed.go (the accessors for links, watermarks, snapshots,
--     origin tags, idempotency entries, deliveries and queue items). UnixNano wraps to an int64.
--   * Watermark: internal/watermark/watermark.go, how far each peer has been read.
--   * Idem: internal/idem/idem.go, the Begin, Commit and Abandon protocol of writes.
--   * Origin: internal/origin/origin.go, the log of our own writes; note_write is Record.
--   * Conflict: internal/conflict/conflict.go. Conflict/Terms.antt has the states, policies and
--     helpers, Conflict/Loops.antt merge and resolvePerField, Conflict/Resolve.antt diff and Resolve.
--   * Identity: internal/identity/identity.go, the key index and the matching of records.
--   * Connector: internal/connector/errors.go, and of connector.go the pages, schemas and results. An
--     error is what errors.As finds on the way down its chain.
--   * Mapping: internal/mapping. Mapping/Directions.antt, Paths.antt and Fields.antt are mapping.go
--     (Narrow and WritesTo; getPath and setPath; New, ToCanonical, FromCanonical and Validate), and
--     Mapping/Transforms.antt is transform.go; the trimming and lower-casing of the standard library
--     are the parameter `Letters`.
--   * Engine: internal/engine. Engine/Queue.antt is the work queue of queue.go, and its children the
--     runs of the queue with its workers. Engine/Parts.antt has the engine's state and what it is
--     built with, from engine.go and plan.go. pipeline.go is Engine/Pipeline.antt (write,
--     commitPair, dropLink, queueReview), Engine/Process.antt (create, reconcile and the stages of
--     process from the echo filter on) and Engine/Running.antt (processDelete, hydrate and
--     process). run.go is Engine/Tasks.antt (dead letters, backoff, runTask, Drain, Submit), and
--     poll.go is Engine/Polling.antt (Poll, PollAll, Commit, Cycle), and webhook.go is
--     Engine/Webhooks.antt (ingest and serveWebhook, with the connector's VerifyWebhook as an
--     argument).
--   * Examples: the theorems at concrete values.
--
-- Correspondence. A method on a mutable object is a function from its state to a result and the
-- next state (Prelude/Result.antt); a mutex makes each method one step. Clocks are arguments: `now`
-- is what the clock gives at the call. Instants count nanoseconds from the zero time, and a
-- time.Duration keeps the bounds of an int64 where the source computes with it. A Go map is an
-- association list of which only lookups are observed. Stored JSON is its decoded document, and a
-- document of another shape is a decoding error. Almost every loop is structural recursion on the
-- data that it ranges over. The printing of a number runs on fuel, which is the number itself and
-- has at least as many units as digits. The loop over the pages of a poll runs on the pages that
-- its bound leaves. Drain runs on fuel, and the attempts that its tasks have left are enough
-- (Engine/Draining.antt). The peers, with their rate limiters, the clock and the random numbers of
-- the backoff, are the interface `Peers` over a state of their own, which the store and the engine
-- do not share. The texts of fmt and encoding/json are the parameter `Texts`. The engine's methods
-- are those of one worker: the locks on records (keyedMutex) give a worker the records that it
-- works on, and are left out, with their keys (lockKey) modelled. The file store's directory is two
-- byte strings; what the operating system answers to each write is the parameter `Os`, and
-- encoding/json is `Json`, of which the record IsFaithful assumes that it gives back UTF-8 strings,
-- int64 numbers and maps in the order of their keys.
--
-- Not modelled: building an engine and starting and stopping its workers (New, Validate, Start,
-- Stop), and the replay of dead letters; the arithmetic of the rate limiter, which counts
-- in floating point; failures of the file store's reads; configuration, the reports, the command
-- line and the fake peers. Errors that Validate joins are in the order of the fields, where the
-- source sorts them by their text. Maps are values: setPath through a map that another field wrote
-- would change that map in place.
pub mod Prelude
pub mod Model
pub mod Connector
pub mod Mapping
pub mod Store
pub mod Watermark
pub mod Idem
pub mod Origin
pub mod Conflict
pub mod Examples
pub mod Engine
pub mod Identity

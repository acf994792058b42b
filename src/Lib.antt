-- ===== src/Lib.antt =====
-- A model of personal_memory, a memory and document server in Go.
--
-- The server stores facts in Qdrant with a payload (a JSON object), recalls them for a client, and
-- indexes files of documents in chunks. What decides whether a stored fact may be told to a client
-- is pure code over payloads and times, which is what is modelled here, with the cutting of
-- documents into chunks.
--
-- Parts, the files that model them, and the source, by paths from the repository's root:
--   Lifecycle/Model, Parse, Payload, Rank: internal/memory/lifecycle/model.go. `parse` is Parse, one
--     function per field in the source's order, each a step that may reject; `validate` is Validate
--     and `apply_to_payload` ApplyToPayload. `sort_candidates` is SortCandidates.
--   Lifecycle/Write: internal/memory/lifecycle_write.go and ValidateRelationshipsForPoint.
--   Lifecycle/Presentation: internal/memory/lifecycle/presentation.go.
--   Recall/Options, Expiry, Present: internal/memory/lifecycle_recall.go, with the date helpers of
--     internal/memory/server.go and the limit of internal/memory/lifecycle_adapter.go.
--     `present_candidates` takes what Qdrant returned and calls the lifecycle parts.
--   Recall/Related: internal/memory/related.go, with relatedSearchPoints of lifecycle_adapter.go.
--   Facts/Subject: internal/memory/subject.go and NormalizeNamespace of internal/memory/id.go.
--   Recall/Cache: internal/memory/cache.go, a method's work under the lock as one step.
--   Recall/Counter: internal/memory/recall_counter.go. An event is what one goroutine does at a time.
--   Maintenance/Status, Classify, Analyze: internal/memory/maintenance/model.go and analyze.go.
--   Maintenance/Request, Service: internal/memory/maintenance/service.go, with QuarantineMaintenance
--     and RestoreMaintenance of internal/qdrant/client.go. `apply` and `run` are steps over a
--     `PointStore`, the calls that leave the program; Reliable says what Qdrant is relied on for.
--   Maintenance/Purge: purgeOne of internal/memory/maintenance/purge.go, for one selected fact.
--   Grouping/Manifest, Run: internal/factgrouping/grouping.go, with SetGrouping of
--     internal/qdrant/grouping.go. A step ends with the fault or none, the journal and the state.
--   Retrieval/MultiList, Rank, Lexical: internal/retrieval/multilist.go, fusion.go, scorer.go. Sums of
--     scores are a `Scores`; what tokenizer.go makes of a text is a `Lexer`.
--   Policy/Budget: internal/aipolicy/budget.go. The file system's answers are arguments of `begin`
--     and `finish`; `run` of Policy/Budget/Runs is a sequence of their calls.
--   Rag/Chunker: internal/rag/chunker.go and isMarkdownHeading of internal/rag/summarizer.go.
--   Go: what the source uses of its standard library: strings as lists of bytes, sort.SliceStable,
--     time.Parse for two layouts, int, float64 scores and the values of a JSON object.
--   Prelude: library names, Boolean tests over the native numbers and lemmas on lists.
--   Examples: runs of the model.
--
-- A map is an association list, in which a deletion removes every entry of a key. An error is a
-- value; the text of a message is left out where nothing compares it. A Go string of a closed set
-- of constants is a data type with one constructor for any other text. A float is nan, an infinity
-- or a multiple of the smallest positive double, so that its comparisons are exact. A time is a
-- number of nanoseconds since a day in the year -1.
--
-- Bounds and fuel: the hard split of a sentence runs for as many rounds as the sentence has bytes,
-- and each round takes at least one byte when the bound is positive; the counter of reservations
-- and the generation of the cache are taken modulo 2 ^ 64, and the sum of a recall count wraps
-- around at 64 bits, while a float64 is relied on to hold a count up to 2 ^ 53 exactly; `format_uint` writes at most
-- 20 digits, and a 64-bit number has no more. All else is structural recursion.
--
-- Not modelled: the HTTP clients and servers (Qdrant, the embedder, the judges), OAuth, the files
-- of configuration and the command-line programs, which are input and output, and the parts of the
-- server that build requests for them.
pub mod Prelude
pub mod Go
pub mod Lifecycle
pub mod Rag
pub mod Recall
pub mod Facts
pub mod Grouping
pub mod Retrieval
pub mod Policy
pub mod Maintenance
mod Examples

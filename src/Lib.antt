-- ===== src/Lib.antt =====
-- The verification library of hydraria, a downloader that fetches a file in ranges by several
-- workers and serves it, while it arrives, from a cache of blocks.
--
-- The parts of the program that are modelled, and how they interact. A worker asks the scheduler
-- (src/schedule.rs) for a claim, a range of bytes to fetch. `fetch_claim` (src/engine.rs) resolves
-- what is left of it to a mirror and a range, and writes what arrives, through a coalescer, to the
-- cache entry of the file (src/cache.rs, `write_range`), moving the cursor of the claim as the bytes
-- land. At the end the worker reports to the scheduler (`finish`, `note_claim_outcome`). A reader
-- takes from the entry what `contiguous_from` says is there, and when it seeks, `refocus_on_reader`
-- takes claims back. A tick of one second calls `reclaim_stalled`. A job (src/download.rs) has the
-- pool of workers, the readers, the scheduler and the entry of one file; its methods hand claims out,
-- take them back, and start, drain or abort the workers. `IsKept` of
-- Fetch/Stream/Attempts/Resuming gives what `finish` asks of a worker: nothing is reserved behind its
-- cursor. The settings of a task (src/models.rs), the map of hosts (src/hostmap.rs), the resolver of
-- their targets (src/dns.rs) and the rate limiter (src/ratelimit.rs) stand around this.
--
-- The files:
--   * Prelude and its children: shared names, Boolean tests, lists, 64-bit words.
--   * Cache/Intervals: the received intervals of a block (`merge_interval`,
--     `interval_set_covers`). Intervals/Merge and Intervals/Full: their laws.
--   * Cache/Bitmap: `has_block` and the bit that `write_range` sets. Bitmap/Laws.
--   * Cache/Blocks: the loop over the blocks of a write. Blocks/Geometry: its arithmetic.
--     Blocks/Step and Blocks/Marking: what one round and the whole loop record.
--   * Cache/Meta: `CacheMeta` and `cache_meta_compatible`. Meta/Identity.
--   * Cache/Entry: `CacheEntry` with `write_range` and `contiguous_from`. Entry/Written, Entry/Runs
--     and Entry/Contiguous.
--   * Cache/Coalescer: `WriteCoalescer`, the buffer in front of `write_range`. Coalescer/Stages,
--     Coalescer/Durable, Coalescer/Ends and Coalescer/Working. Entry/Accepted: writes that
--     returned `Ok`.
--   * Cache/Staging: `acquire_staging` and `release_staging`. Staging/Counts: the entry of a key and its
--     directory. Staging/Visits: streams that come and go while directories are removed.
--   * Schedule/Ranges: the unclaimed ranges (`subtract`, `insert_unclaimed`). Ranges/Subtract and
--     Ranges/Insert.
--   * Schedule/State: the records of the scheduler and of its claims, and the search in the
--     volumes. State/Layout.
--   * Schedule/Create: `Scheduler::new`. Create/Initial.
--   * Schedule/Sizing: the length of a claim. Schedule/Float: floating-point rates, a parameter.
--   * Schedule/Select: `pick_gap`, `pick_victim` and the choice in `hedge`. Select/Chosen.
--   * Schedule/Assign: `claim` with its three tiers. Schedule/Release: `finish`,
--     `refocus_on_reader` and `reclaim_stalled`.
--   * Schedule/Owners: who answers for a byte, and the invariant. Owners/Counting, Taking,
--     Stealing, Claiming, Removing, Finishing, Rounds and Sweeping: each operation's effect on it.
--   * Ratelimit: the sliding window of src/ratelimit.rs, one round of `acquire_sliding_window` at a
--     time. Ratelimit/Window.
--   * Plan: how src/engine.rs cuts a request (`plan_chunks`, `plan_chunks_with_head`,
--     `slice_span_by_volumes`). Plan/Tiling and Plan/Slicing.
--   * Schedule/Adapt: what outcomes and refusals teach the scheduler (`note_claim_outcome`,
--     `note_overload`, `overload_backoff`, `ClaimWall`) and its setters. Adapt/Sizes, Adapt/Pause.
--   * Fetch/Pipeline: `apply_reverse` of src/plugins/mod.rs. Fetch/Target: `resolve_target` of
--     src/engine.rs and its choice of a mirror. Target/Inside, Target/Starts.
--   * Fetch/Stream: the loop of `fetch_claim` over the bytes of one response. Stream/Items,
--     Stream/Durable, Stream/Complete. Stream/Attempts: its attempts. Attempts/Resuming.
--   * Hostmap: the rules of src/hostmap.rs, their table and its lookup, and `merged_rules`.
--     Hostmap/Lookup with Lookup/Tables and Lookup/Order, and Hostmap/Merged.
--   * Settings: `TaskConfig` of src/models.rs. Settings/Usable. Settings/Entry: `apply_update`. Entry/Accepting,
--     Entry/Refusing. Settings/Samples: `ThroughputSampler`.
--   * Dns: the messages of src/dns.rs (`build_query`, `parse_answer`, `skip_name`). Dns/Names,
--     Dns/Queries, Dns/Answers.
--   * Cache/Entry/Staged: `staged_ranges`, which tells a new scheduler what is on disk.
--   * Download: `build_scheduler` of src/download.rs, `is_drained`, and the test by which a job finds
--     that it is done. Download/Run: the steps that the tasks of a job take on the scheduler and the
--     entry, in any order. Run/Invariant, Built, Kept, Answered and Drained; they use
--     Schedule/Owners/Winning and Schedule/Adapt/Tuning.
--   * Download/Pool: `Workers`, the slots, and the tasks that are spawned for them. Pool/Invariant,
--     Spawned, Filled, Ended, Emptied and Staffed: what holds without `respawn`. Pool/Doubled: what
--     `respawn` does. Schedule/Owners/Stranding: what `hand_back` loses.
--   * Download/Job: `CacheJob`, its readers and its control. Job/Outcome: what `run_worker` does at
--     the end of a claim and of its loop. Job/Calls: calls that follow one another.
--     Job/Published, Job/Outcome/Failures, Job/Control. Job/Sections: calls that overlap, with
--     Sections/Marked and Sections/Spent.
--   * Chacha: src/plugins/chacha20.rs, the key stream over the slices of a buffer, the volumes that
--     `forward` writes, `plan_volume_sizes` and `transform`. Chacha/Keystream, Sizes, Sent, Opened.
--   * Header: src/engine.rs, `parse_range_header`, and the range that `build_stream_response` of
--     src/routes.rs sends. Header/Spans and Header/Within.
--   * Streaming: src/engine.rs, `stream_range`, which serves a request from memory: the chunks, and
--     when a fetcher is spawned for each. Streaming/Windows, Spawning and Warming. Streaming/Run:
--     the steps of the fetchers and the serializer, in any order. Run/Fed, Run/Served, Run/InOrder.
--   * The files Tests: runs at concrete inputs.
--
-- Choices. An operation under a lock is a function of the state. The atomics of a claim are shared
-- between the worker and the scheduler; the model has one copy, in the live list. A machine word is
-- a number with its wrap-around written out (`wrapping_add`, `% 2 ^ 32`). The file system is a
-- parameter of the cache entry: a positional write and the replacement of the stored bitmap, each
-- with the new disk and whether it succeeded. The rates of the scheduler are a parameter (FloatOps),
-- since its safety does not rest on floating-point arithmetic. The loop of `contiguous_from` runs on
-- fuel, one more than the limit: each round that goes on adds a byte at least. The loops over blocks
-- and over claims are structural.
--
-- The loop of `plan_chunks` runs on fuel as many rounds as there are bytes: a chunk has a byte.
-- `acquire_sliding_window` is modelled by its rounds, which the lock puts in a row; the sleep between
-- two of them only lets time pass. What the network does to `fetch_claim` is a list of values: for
-- each attempt the response, and for each item of its body what the shared atomics hold then. A
-- transform of bytes is a parameter that keeps the length, as a change in place does.
-- In Hostmap, Settings, Dns and Header a string is the list of its bytes, and `trim` and the parsers of
-- addresses are parameters, since they are the standard library's. The loop of `skip_name` runs on
-- fuel, one round for each byte of the message and one more: each round moves on by a byte at least.
-- The async runtime is a map from handles to tasks: an abort marks a task, which may still run to its
-- end as long as it does not wait. In Download/Run a step is what one task does under one lock, with
-- any arguments, the late `finish` of an aborted task and any sweep included. `IsFair` says of a step
-- what the code means its task to have made sure of, and tests nowhere: the results on a run of steps
-- ask it of each step. Not fair, among others, is a hedge that wins over a part of what its primary
-- has left, taking a claim from a worker that has reserved bytes behind the end of it, and a `finish`
-- that takes a claim which its worker got later. In Download/Job a method is one function of the job,
-- and a sequence of `Call` has one end before the next begins; Job/Sections cuts the methods into
-- their loads and stores, which come in any order. `release_staging` is its section under the lock and
-- then the removal of the directory, which may fail; in Staging/Visits other streams come in between.
-- The loop of `staged_ranges` runs on fuel, one round for each byte and
-- one more: each round moves on by a byte at least. The cipher is a parameter with the byte of its key
-- stream at each position and the reach of its seek. The loops over slices, buffers and volume sizes
-- run on fuel, one round for each byte: each takes a byte at least. The loop of `try_spawn_more`
-- runs on fuel, one round for each chunk of the window: each round marks one as spawned. In
-- Streaming a channel takes whatever is sent, and an item that waits for the client is still in its
-- channel.
--
-- Not modelled: the token bucket, which stands on floating-point numbers; the requests, the files
-- and the tasks of the runtime, the other routes, the web interface and the command line, which are input
-- and output; the cipher of the plugin, which is a library. `DownloadManager`, the store of the
-- cache with its directories, the parsers of sizes and of file names, and what `fetch_chunk_to` of
-- `stream_range` requests are left out too.
pub mod Prelude
pub mod Cache
pub mod Schedule
pub mod Ratelimit
pub mod Plan
pub mod Fetch
pub mod Hostmap
pub mod Settings
pub mod Dns
pub mod Download
pub mod Chacha
pub mod Header
pub mod Streaming

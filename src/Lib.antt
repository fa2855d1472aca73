-- ===== src/Lib.antt =====
-- donkey is a proxy for container registries: it fetches the blobs of images from several
-- upstream nodes, caches them, and runs jobs that export, extract and copy images. This library
-- models the parts that carry its own logic, as functions translated from src/*.rs, and proves
-- what they keep.
--
-- * Chunk models how src/scheduler.rs cuts a blob into byte ranges and how many of them it
--   fetches at once (chunks, effective_chunk_size, effective_concurrency,
--   stream_download_config).
-- * Transfer models the fetching of one range (download_chunk, stream_response_to_file,
--   append_response_to_file) and the merge of the parts (download_parallel) of src/scheduler.rs.
--   Its ranges are those of Chunk.
-- * Fetch models the sequential and the resumed download (download_whole, download_resume),
--   verify_file, recover_verified_blob and the end of fetch_uncached of src/scheduler.rs: which
--   file is admitted to the cache in the end.
-- * Relay models relay_stream_blob_inner of src/registry.rs, which streams a blob to a client
--   while it is fetched, one range after the other (Relay.Stream) or several in parallel
--   (Relay.Parallel), resumes it from other nodes, and gives the file to the cache.
-- * Planner models src/blob_planner.rs, which decides between one request and ranges, and whose
--   numbers of chunks are those of Chunk; Schedule models the orders in which src/scheduling.rs
--   tries the nodes for them.
-- * Selection models src/node_selection.rs, which gives Schedule its candidates and remembers how
--   the nodes did (the delays of the backoff crate are a parameter).
-- * Route models src/registry_routes.rs, the table of registry routes with its unique indexes and
--   the calls that change it, and route_registry_path of src/registry.rs, which finds a request's
--   route and upstream path in it (the parsers of authorities and addresses are a parameter).
-- * Security models src/security.rs: the denied networks, the names of connection overrides, and
--   the URLs of upstreams, with the addresses that a client is pinned to.
-- * Auth models the limit on login attempts and the targets of returns of src/auth.rs.
-- * Capacity models the leases of src/resource_budget.rs (NodeCapacity) that such fetches take.
-- * Cache models src/cache.rs over src/cache/repository.rs: the admission of fetched blobs and
--   the eviction for it, hits and their buffer in memory, removal, clearing, expiry, and the
--   reconciliation of records and files at the start.
-- * Job models the image jobs of src/image_tools.rs and src/image_tools/job_store.rs over the
--   statements of src/db.rs: Job has the states, Job.Store the statements, Job.Service the
--   operations, Job.Direct the writes that ask for no owner, and Job.Steps the histories of all of
--   them; the other modules below Job prove what holds there.
-- * Error has the errors of src/error.rs, and Base what all of them share.
--
-- State is passed explicitly: a table is a list of rows, an update with a filter is update_where,
-- and an operation returns the new state with its result. What runs concurrently is a list of
-- steps, each one transaction, that carries what its worker read earlier. The network and the
-- disk are lists of events: a response's frames, a broken connection, a short write. Errors are
-- values of Result, and a panic or a lack of fuel is none of Option. Numbers are natural; u64
-- arithmetic keeps its wrapping (add64, sub64) and its saturation.
--
-- Fuel: the loops of chunks and of relay_parallel_ranges advance a byte in each round at least,
-- so they get one round more than there are bytes; the loops of eviction and of expiry remove a
-- record in each round but the last, so they get one round more than there are records. All of it
-- is proved to be enough. The waits of download_chunk, of fetch_parallel_chunk and of acquire are
-- given as lists, one item for each wake-up, and so are the resumptions of a stream.
--
-- Not modelled: the HTTP server and client, the web pages, SHA-256 (a parameter of Fetch and
-- Relay) and other cryptography, files and file locks, the scores of cached objects (the order of
-- eviction is a parameter that is only assumed to offer rows of the table, each once), floats (a
-- type and its operations are a parameter of Planner, Schedule and Selection), the eviction of
-- keys from in-memory caches, failures of the database, which roll a transaction back (other than
-- those of the writes of hits, which are kept in memory), the idempotency key and the other
-- columns of a job that no step here reads, and the timing of leases other than by the time that
-- each step is given.
pub mod Auth
pub mod Base
pub mod Cache
pub mod Capacity
pub mod Chunk
pub mod Error
pub mod Fetch
pub mod Job
pub mod Planner
pub mod Relay
pub mod Route
pub mod Schedule
pub mod Security
pub mod Selection
pub mod Transfer

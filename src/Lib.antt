-- ===== src/Lib.antt =====
-- nedomi, a caching HTTP reverse proxy: a model of its core, and what was proved of it.
--
-- A request comes to the caching handler (handler/cache), which asks the storage for the object's
-- metadata and parts, and the upstream for what is missing. What comes from the upstream is cut into
-- parts of a fixed size, and the cache algorithm (cache/lru) says which parts stay.
--
-- Prelude: the names and lemmas that all modules share, and results that may be a panic.
-- ContainerList: Go's container/list as the cache uses it, each element with an address of its own.
-- Lru: cache/lru/lru.go. The map from hashes to elements is a function, the tiers are lists of
--   elements, a method is a function on the state. `Lru.Resize` has ChangeConfig, the statistics and
--   removeIfMissing, `Lru.Bulk` the slices of throttledRemove, and `Lru.Run` the sections under the
--   mutex as the steps of a run.
-- PartWriter: handler/cache/part_writer.go. The zone's algorithm and storage are a record of
--   functions on a state of their own. `write` runs on fuel, three rounds for a byte and two more.
-- Balancing: upstream/balancing. `Balancing` has round robin and the random choice,
--   `Balancing.Weighted` the choice by weight, `Balancing.Search` the binary searches and
--   `Balancing.Ring` the rings of ketama and legacyketama, `Balancing.Rendezvous` the scores, over the
--   operations of float64. The digests, the random source, the formatting of strings and sort.Sort are
--   parameters.
-- Scheduler: storage/scheduler.go. The cases of the two goroutines' loops are functions, and
--   `Scheduler.Steps` is a step relation on them and the callers whose messages are on their way.
-- Ranges: utils/httputils/request_range.go and response_range.go, on texts of code points, with the
--   functions of strings and strconv that they use in `Ranges.Strings`.
-- MockStorage: mock/storage.go, the storage in memory, with the inner maps as lists of pairs.
-- Writers: utils/writers.go, utils/composite_error.go and
--   utils/httputils/flexible_response_writer.go, over any writers.
--
-- Respond: lazilyRespond and getContents of handler/cache/handler_helpers.go and utils/indexes.go. The
--   storage, the algorithm, the next handler and the response are a record of functions on a state of
--   their own; a reader is the stream of bytes that it delivers. The loop runs on fuel, one round for a
--   part at most. `Respond.Pieces` and `Respond.Cut` say which bytes of the object a reader has.
-- PartReader: handler/cache/part_reader.go, over any reader.
-- Headers and CacheControl: utils/httputils/headers.go, utils/cacheutils/cachable.go and the freshness
--   of utils/functions.go. The parser of Cache-Control and of times are parameters.
-- Handler: handle, knownRanged and knownFull of handler/cache/handler.go, over Respond, and the hook
--   of handler_helpers.go in `Handler.Hook`.
-- Disk: storage/disk. `Disk.Files` is a file system whose calls fail as a list of faults says, with a
--   path as its segments; `Disk.Names` has the names of part files, `Disk.Settings` New and the settings
--   on the disk, `Disk.Iterate` the walk over all objects. encoding/json is a parameter, and
--   the text of a size of a part is that of ByteSize.
-- LocationMuxer: app/location_muxer.go. The trie is the list of its entries, visited in any order.
-- Purge: purgeAll of handler/purge/handler.go and the callback of storage/utils.go, over the calls of
--   the storages and algorithms of the locations.
-- ByteSize: types/byte_size.go, the sizes of the configuration; a text is a list of bytes.
--
-- Numbers are those of the source: uint32 and uint64 wrap around where the source computes with
-- them. Logging, the debug checks and locking itself are not modelled: each section under a mutex is
-- one function.
--
-- Not modelled: the partial reads of the readers, the proxy and the other handlers, the
-- configuration and the application's start and shutdown. They are for the most part calls of
-- net/http and of the operating system. Paths are not cleaned as filepath.Join does it: a cache
-- key is one segment.
pub mod Balancing
pub mod ByteSize
pub mod CacheControl
pub mod ContainerList
pub mod Disk
pub mod Handler
pub mod Headers
pub mod LocationMuxer
pub mod Lru
pub mod MockStorage
pub mod PartReader
pub mod PartWriter
pub mod Prelude
pub mod Purge
pub mod Ranges
pub mod Respond
pub mod Scheduler
pub mod Writers

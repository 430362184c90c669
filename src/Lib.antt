-- ===== src/Lib.antt =====
-- Verification of the backend of the video platform: the shared helpers of core/pkg and
-- core/common, the device state and the messages of the GB28181 service (core/app/sev/vss), and the
-- recording plans of the cron service (core/app/sev/cron).
--
-- The parts and their files:
-- * XMap (core/pkg/xmap/main.go), the generic map behind a lock. A method holds the lock
--   from start to end, so it is one step on a map, which is an association list (GoMap); a nil
--   receiver is `none`. Go leaves the order of `range` open, and every theorem about a loop over a
--   map holds for every order (RangeOrder). XMap/Ops.antt compares it with a partial function,
--   XMap/Snapshots.antt is about the methods that list it, and XMap/Keyed.antt carries the laws that
--   the device state uses.
-- * CSet (core/pkg/set/main.go), the generic set, likewise; Arrays (core/pkg/functions/array.go),
--   helpers on slices.
-- * Gbs (core/app/sev/vss/internal), the state of devices. The service context of
--   internal/types/types.go is a record of three maps, of the channels as queues, and of the calls
--   made of the database service. Gbs/Register.antt and Gbs/Keepalive.antt are the handlers
--   internal/logic/gbs_sip/register.go and keepalive.go; Gbs/Heartbeat.antt, Gbs/Online.antt and
--   Gbs/Catalog.antt are the loops internal/logic/gbs_proc/heartbeat_offline_loop.go,
--   set_device_online_state_loop.go and catalog_loop.go, each with a goroutine that receives and a
--   tick. The handlers send to the loops, and the heartbeat loop to the online loop. Gbs/System.antt
--   puts them together: an event is one handler, one message taken from a queue, or one tick, and a
--   run is any sequence of events. A sent message joins the end of its queue, whatever the capacity
--   of the Go channel. Gbs/Check.antt is a pass of check_device_online_state_loop.go over the streams
--   that are pulled, whose goroutines send to the online loop. Gbs/Online.antt also has the tick in two
--   parts, between which a message may be received. The goroutines of a tick run in any order, each in
--   one step before the next event.
-- * Recording (core/common/stream/plain.go and
--   core/app/sev/cron/internal/logic/crontab/video-project.go), plans of 168 hours, and the pass
--   that starts and stops recordings. The answers of Redis and of the RPC services, the day of the
--   week and the start of the day in the local zone are parameters of a pass.
-- * Broadcast (core/pkg/broadcast/main.go), named channels with a usage count.
-- * Stream (core/common/stream/main.go), names of streams, and the counter that goroutines share.
-- * Version (core/pkg/functions/version.go), the comparison of version numbers.
-- * Categories (core/pkg/categories/main.go), trees from rows that name their parents. The pointers
--   of the list may be nil; a tree is a first child / next sibling forest.
-- * Audio (core/pkg/audio/g711codec.go and rtp_session.go), the A-law and mu-law codes of a sample,
--   the coding of streams, and the packets of a talk (Audio/Rtp.antt).
-- * Crypto (core/pkg/functions/encryption.go), padding, encryption and base64 of a token. The block
--   cipher and the coding are an interface with the laws that the code relies on. A key has 16 bytes
--   or AES refuses it: keys of 24 and 32 bytes, which are too long for the initial vector that the
--   code makes of them, are left out.
-- * Gatekeeper (core/pkg/gatekeeper), tokens, the blacklist and the rate limit. It uses Crypto;
--   Redis and the coding of JSON are interfaces (Gatekeeper/Store.antt, Gatekeeper.antt).
--   Gatekeeper/Access.antt has the operations, Gatekeeper/Sweep.antt the clean-up and new ids. A
--   goroutine that an operation starts is a task in its result, and each reading of the clock and
--   the state of the lock of the clean-up are arguments.
-- * Throttle (core/pkg/dt), the leading throttle, the throttle with a fixed grid (Throttle/Grid.antt)
--   and the debounce (Throttle/Debounce.antt), with the concurrent map they use as an interface. In
--   the fixed grid a call, a timer that fires and a round of the idle runner are one step each.
-- * Buffers (core/pkg/bmap/main.go), buffers of bytes by a key, with the copy that Get keeps.
-- * Query (core/pkg/orm/orm.db.condition.go), the conditions of a where clause as text and arguments.
--   Query/Build.antt checks and renders the items, which form a tree; the items that the source
--   changes are part of the result. Query/Phrases.antt describes the result without the trimming of
--   logical operators, and Query/Sentence.antt proves that they agree; Query/Grammar.antt has the rules
--   of a grammar that the clauses belong to, with the columns that they may name. A value of interface{} is an
--   element of a type, with the conversions that the builder makes of it. Query/Bulk.antt is the
--   statement of orm.db.act.update.go that updates many rows, Query/Order.antt the order of a query.
-- * Upload (core/pkg/s3obs/s3_upload_queue.go), the queue of uploads. Upload/Steps.antt has what each
--   goroutine does between two channel operations, Upload/Runs.antt any sequence of those steps, and
--   Upload/Retry.antt the attempts of one task. The tasks that workers have in hand, the buffers of
--   the dispatcher and the results that are put back are part of the state; sort.Slice and the calls
--   of the object store are parameters. A channel of capacity 0 takes nothing. After a panic of an
--   upload the result is nil, which stands in the channel of the results as `none`.
-- * Sip (core/app/sev/vss/internal/logic/gbs_sip/alarm.go and catalog.go), the handlers of alarms and
--   catalogs, with the calls of the database service as their results and its answers as parameters.
--   The parser of times of the standard library is a parameter.
-- * Text, strings as lists of bytes with what the program uses of the standard library; Prelude, the
--   names and lemmas that all files share.
--
-- Integers: times are natural numbers, and where the source subtracts them the terms are moved to
-- the other side. The lifetime of a registration is an integer, and its conversions to uint64 and
-- int64 are written out with their wrap-around. The counter of playbacks stays below 2^63.
-- Samples are integers of 16 bits, and sequence numbers and time stamps of packets keep their
-- wrap-around. Loops run over lists. The recursion of makeTrees and findParents has fuel, since rows
-- in a cycle make it endless; where a height falls from parents to children, fuel above the height of
-- the root is enough. `%d` and the digits of an id are given more fuel than they have digits.
--
-- Not modelled: the parser of SIP messages (gosip), the digest of a password, the database and RPC
-- services and Redis, which are parameters; the sending loops and the other SIP handlers; the media
-- server clients, of which some are copies of another project; the HTTP, websocket and SSE endpoints,
-- which pass requests on; the generated gRPC code; the limits and caches of the query builder; the stream of results of the upload queue; the trailing debounce; the
-- hash of passwords.
pub mod Prelude
pub mod Text
pub mod GoMap
pub mod Arrays
pub mod XMap
pub mod CSet
pub mod Gbs
pub mod Recording
pub mod Broadcast
pub mod Stream
pub mod Version
pub mod Categories
pub mod Audio
pub mod Crypto
pub mod Gatekeeper
pub mod Throttle
pub mod Buffers
pub mod Query
pub mod Upload
pub mod Sip

-- ===== src/Lib.antt =====
-- A model of the backend of Constell, a chat service of Go programs under backend/: communities with
-- channels, members, roles and messages, over PostgreSQL, NATS and an in-process cache.
--
-- The parts and the files that model them.
--
-- Prelude has what the parts share: Boolean tests, lists, integers, bits, Go's `==`, functions with a
-- state and errors (`Prelude.Exec`), text and decimal numbers.
--
-- GroupCache (backend/pkg/groupcache/groupcache.go). `GroupCache.Lru` has `lruCache`: container/list
-- is a list of element identities over a store of entries, so that the map, the list and the entries
-- share elements as the pointers of the code do. `Lru/View` reads it as a list of pairs, the most
-- recent first. `GroupCache.Peers` has hashKey, resolveOwner and dedupePeers. `GroupCache.Cache` has
-- Cache with its options, NewCache, Get, Set, Remove and the update that watchPeers makes. The
-- filler of a cache acts on a state `W` of its own. Calls run one after another: the mutex and
-- singleflight, which join calls that overlap, are not modelled, nor are Close and the goroutine of
-- watchPeers.
--
-- Sql, Redis, Rpc. `Sql` is what the repositories share: a statement as a step on the tables of a
-- service, and the part of SQL that the statements use. The database server is a stream of
-- decisions: whether the n-th statement fails, its gen_random_uuid() and its now() (microseconds
-- since 1970). `Redis` has SET with a time to live, GET and DEL; the n-th command may fail and has a
-- time. `Rpc` has the codes of Connect and the pages of proto/common/v1.
--
-- Community (backend/services/community-service). `Community.Rows` and `Community.Database` are the
-- rows and the tables of deploy/migrations. `Community.Repository` has the
-- statements of repository.go: `X_sql` says what a statement does to the tables, `X` runs it.
-- Foreign keys, primary keys and ON DELETE CASCADE are written out where a statement meets them. The
-- statements that look up, add or delete a member by both ids compare UUIDs (`Sql.Uuids`), as the
-- columns do: in any case of the letters and with or without hyphens. The other statements compare ids
-- as texts, which is the same for ids as the database prints them, and a row keeps the text that a
-- request gave; a text that is no UUID is an id of its own, where PostgreSQL fails the statement.
-- `Community.Permissions` is permissions.go; a permission set is a non-negative BIGINT.
-- `Community.Service` has the handlers of service.go, the caches of cache.go over GroupCache, and
-- the events that are published. A handler is a function of the service's state that returns a
-- value or a code; the texts of errors and the log are left out. The caller's id is an argument,
-- empty where the interceptor found no user. JSON between a row and its cached bytes is left out.
-- `Service/Wiring` says what holds between requests, `Service/Handling` and `Service/Exchange` go
-- through the handlers, and `Service/Running` through sequences of requests. `Service/Outcomes` has
-- rules on how a handler ends, for `Service/Posting` (SendMessage), `Service/Authorship` (who
-- edits and deletes messages), `Service/Authority` (checkPermission) and `Service/Membership` (who
-- removes members).
--
-- Auth (backend/pkg/jwt, backend/pkg/middleware, backend/services/auth-service). `Auth.Tokens` has
-- GenerateToken and ParseToken over golang-jwt, `Auth.Interceptor` the interceptor that finds the
-- caller of a request, `Auth.Service` Register, Login and RefreshToken over the table of users and
-- Redis. golang-jwt, bcrypt and SHA-256 are parameters; what the theorems need of them is named there.
--
-- User (backend/services/user-service). `User.Rows` has the tables, `User.Repository` the statements,
-- `User.Service` the caches of cache.go, whose keys hold two user ids, and the handlers. The cursor
-- of GetDMConversations is the time that its text stands for. Strings are ordered by code points,
-- as their bytes in UTF-8 are; ids are UUIDs in lower case, whose order as texts is the database's.
--
-- Gateway (backend/services/ws-gateway). `Gateway.Frames` is the frame format of protocol.go, over a
-- `Codec`, which stands for the protobuf library, and `Frames/Sockets` its ReadMessage and WriteMessage. `Gateway.Connections` is connmgr.go, with a socket
-- as an identity. `Gateway.Routing` is router.go, over the RPC clients of the two services, and
-- `Gateway.Push` the delivery of push.go, over the write on a socket, with the subscription in
-- `Push/Subscribing`. `Gateway.Registry` is registry.go
-- over Redis. `Gateway.Server` is server.go with auth.go and heartbeat.go: the upgrade, readPump and its
-- clean-up. readPump is a recursion on the reads of its socket, each a message or an error at a time;
-- the server is a state with a stream of decisions on whether the n-th write and the n-th publication
-- succeed. `Server/Loops` runs the loops of many sockets: an event is an upgrade, or one read of one
-- socket with all that its loop does before the next read. Loops whose steps interleave more finely
-- are not modelled.
--
-- Notify (backend/services/notify-service). `Notify.Store` is store.go on the tables that it touches,
-- `Notify.Service` the handlers of service.go. Counts and totals of type int32 are their bits, a
-- number below 2^32. `Notify.Preview` is truncate of subscriber.go, and `Notify.Subscriber` its handlers
-- of events, which read Redis (`ws:uid:<user>`) and publish to the topics of the gateways. A Go map
-- whose keys are ranged over is the list of its keys, in one of the orders that Go may take.
--
-- File (backend/services/file-service). `File` has the statements of repository.go and the handlers of
-- service.go, `File.Multipart` those of multipart.go. The calls of MinIO's client act on a state `W` and
-- may fail; nothing is assumed of them. generateThumbnail, which decodes images, is an argument. The
-- table `attachments` of the other services is the list of the ids that it refers to.
--
-- Search (backend/services/search-service). `Search.Terms` is prefixTsquery, `Search` the statements and
-- Search itself. How PostgreSQL matches and ranks a text is a parameter; its vectors are of any type.
-- The four searches are concurrent in the code; they only read, and any error of one is an error of all.
--
-- System. How the services work together. `System.Calls` has the clients of
-- backend/services/ws-gateway/main.go, which forward the token of a connection and not the sender's id,
-- and the interceptor in front of the handlers that they call. The network before the services is a
-- stream of what becomes of each call (`Transit`): it is answered, it is lost before the service
-- handles it, or its reply is lost after, as at the deadline of five seconds that server.go sets; where
-- the deadline also stops the handler, a statement of the handler fails. With the clients of the
-- router, `System.Sending` and `System.Posting` follow a message from Route to the tables.
-- `System.Pushes` is the JSON of a push between NotificationPush and PushPayload, with its numbers as
-- float64, and what a gateway hears of the pushes that were published. `System.Delivery` and
-- `System.Broadcast` follow an event from the service that publishes it over the notify service to the
-- sockets of a gateway. A subject of NATS is taken to deliver once and in order, and what
-- encoding/json makes of bytes that are no UTF-8, as where a preview is cut within a character, is a
-- parameter.
--
-- Loops. The eviction loop of `Add` gets as many rounds as the list has elements, and one: each round
-- removes an element. A client that scrolls (`Repository/Scroll`) gets a number of requests; more
-- than there are messages is enough. All else is structural recursion.
--
-- Numbers. Times, seqs, sizes and permissions are natural numbers; int32 fields that the handlers
-- only store are integers. A seq is read from its decimal text with the bound of int64
-- (`Prelude.Decimal`), and the theorem on scrolling assumes that seqs stay within it.
--
-- Not modelled: the API gateway, which passes HTTP requests on to the services, thumbnails, the start
-- of the servers, configuration, logging, metrics, the
-- clients of PostgreSQL, Redis, NATS and MinIO, and the code that protoc generates.
--
-- `Examples` has runs on small states and applies each theorem below to one.
pub mod Prelude
pub mod Sql
pub mod Redis
pub mod Rpc
pub mod GroupCache
pub mod Community
pub mod Auth
pub mod User
pub mod Gateway
pub mod Notify
pub mod File
pub mod Search
pub mod System
pub mod Examples

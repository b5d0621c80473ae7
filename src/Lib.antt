-- ===== src/Lib.antt =====
-- myrpc, an RPC framework over net/rpc codecs: a client that sends calls over a connection and
-- retries them over a selector of connections, and a server that reads requests, routes them to
-- services through hooks of plugins, and answers them.
--
-- The files and the code they are about, by paths from the repository's root:
--   Base: what all share; Go strings as lists of bytes, signed integers, lists over native numbers.
--   Common/Errors: common/errors.go; Error, NewError, Format, Append, With, Return.
--   Common/ErrorTypes: common/error_type.go; ErrorType, RPCError, the constants, and the byte that
--     carries a type in front of an error text.
--   Common/Names: common/utils.go; SnakeString, CamelString, CheckSname.
--   Common/Trace: common/utils.go; PanicTrace, from the text of the stack.
--   Common/Wire: the two headers of net/rpc.
--   Plugin/Container: plugin/plugin.go; Add, Remove, GetByName.
--   Plugin/Whitelist: plugin/ip_whitelist/ip_whitelist.go; the goroutine that Allow starts for the
--     pattern `*` is `settled_allow`.
--   Plugin/AppointCodec: plugin/appoint_codec/appoint_codec.go.
--   Plugin/Auth: plugin/auth/authorization.go.
--   Plugin/Compression: plugin/compression/compression.go; the writing side of a compressing connection.
--   Codec/Wire: a connection as its codecs and plugins see it: the pieces that a read gives, the writes.
--   Codec/Bson: codec/bson/bson_codec.go.
--   Codec/Buffered, Codec/Gob: bufio.Writer, and codec/gob/gobrpc.go over it.
--   Codec/Conn: client/client_codecconn.go and server/server_codecconn.go.
--   Client/Invoker: client/client_invoker.go; Go, send, Close, input and its end. `send` is cut in
--     two (`send_begin`, `send_end`), since the codec writes between them; the loop of `input` is
--     `receive` and `receive_failed`, and its end is `terminate`. Client/Invoker/Steps has the
--     interleavings: `reqMutex` is the field `sending`, and the place of `input` is the field `input`.
--   Client/Pending: the map of an invoker from numbers to calls.
--   Client/Selector, Client/Direct: client/selector.go and client/selector/direct.go.
--   Client/Caller: client/client.go; Call with its five modes, over any selector.
--   Client/Dial: client/client.go; init and newInvoker with its dials. Client/Direct knows a dial by its
--     error alone.
--   Client/Closing: client/client.go; Go and Close.
--   Client/Hooks, Client/Wrapper: client/client_plugin.go and client/client_wrapper.go; the hooks
--     of plugins and the deadlines around each operation of the codec.
--   Server/Store, Server/Context: server/server_context.go; the data store, the context, and the
--     connection with what its codec gives for each read and write.
--   Server/Hooks: server/server_plugin.go; the hooks of plugins, in order.
--   Server/Slices: the slices of path segments, which groups share: arrays in a heap, with Go's append.
--   Server/Uri: server/uri.go; URIEncode, which spells the segments in its caller's array, and URIParse.
--   Server/Methods: server/service.go; suitableMethods and NewServices, and the types of the
--     values that Call passes.
--   Server/Register: server/server.go; Group, NamedRegister, register. `log.Fatal` is an outcome.
--   Common/Sorting: sort.Strings.
--   Server/Requests: readRequestHeader, readRequestBody (server/server_context.go) and readRequest
--     (server/server.go).
--   Server/Responses: writeResponse (server/server_context.go), call and sendResponse
--     (server/server.go).
--   Server/Serve: ServeConn, ServeRequest, getContext and putContext (server/server.go); the rounds of
--     the loop and the goroutines of the requests as a list of events.
--   Server/Listen: server/server.go; the loop of serveListener, and ServeHTTP.
--   Server/Shutdown: server/server.go; close, and the loops of ServeConn in finer steps.
--   Server/Grace: server/grace.go; the variables of the package, and `shutdown`, from the return of
--     `count.Wait()` on, as a list of events.
--   Codec/ConnHooks: doPostConnected and doPostConnAccept, which change the connection; Client/Hooks and
--     Server/Hooks know these two by their errors alone.
--   Log/File: log/logging/file.go; a log file and its rotation, over files as a function from paths. Each
--     call of the system has its error in `Faults`; the goroutines that delete old files are counted in
--     `deleters`, and each runs as a step of its own.
--   Rpc: a client and a server joined: Go, ServeConn, the method, its answer, and `input`.
-- The modules below each of these hold the proofs, and the modules named Tests run the definitions.
--
-- A client's Call goes over a selector to invokers; an invoker registers a call under a number, and
-- the response of that number completes it. On the server a connection's loop reads a request with
-- its number; the request is answered by a goroutine, or at once where it was refused. What an
-- invoker gets from its codec, the parameters of `send_end` and `receive`, comes through the wrapper.
--
-- Bounds: an invoker's numbers wrap at 2^64, and what is said of its runs is said of fewer than 2^64
-- events, so that no number comes twice. The loops of Failover and Failtry run on MaxTry as their
-- code does, and the search for a free log name on the 999 rounds of its code. All other loops are over
-- lists. Error types are Go's int8.
-- BSON's int is Go's of 64 bits, so that the shifts of its length do not wrap.
--
-- Given by parameters: what a codec reads and writes, with its errors, also those of writes behind the
-- close of its connection; what a service's method, a
-- plugin's hook and URIParse return; what a dial gives; what an invoker answers to a client's Call.
-- An argument, a reply and a key of the store are byte strings. A hook sees the context and changes
-- its path, query and store, and the object behind a body, as the interface of Context allows.
-- Strings are ASCII where letters are changed. An answer is one step, by the lock `sending`; for
-- its goroutine the order of its steps among those of the others is any.
--
-- Left out: the source panics where it sends a response without an error text and without a reply,
-- which needs a URIParse or an error whose text is empty; `reply_of` has nil there. A server that waits
-- for a `close` that blocks does not come to where the model of `shutdown` begins.
--
-- Not modelled: how listeners, HTTP, KCP and TLS work, signals and restarts (server/grace_reboot_*.go,
-- gracenet/), the codecs but BSON and gob (codec/), the marshalling of documents, the compressors, the
-- formats and levels of the logger (log/), and net/url. How much a slice grows, and the order in which a
-- map is ranged over, are any.
pub mod Base
pub mod Common
pub mod Plugin
pub mod Client
pub mod Server
pub mod Codec
pub mod Rpc
pub mod Log

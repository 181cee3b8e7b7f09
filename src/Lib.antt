-- ===== src/Lib.antt =====
-- singleproxy: a server that multiplexes public HTTP, tunnel clients and SOCKS5 on one port,
-- and two kinds of tunnel clients that forward requests to a target behind a firewall. This
-- library models the Go code of pkg/ and cmd/ and proves what its parts and their interplay do.
--
-- The parts. A public request reaches the server (pkg/server), which finds the tunnel of its
-- key, gives it a request ID and a stream, and sends it as a tunnel message (pkg/protocol) over
-- a WebSocket or into the queue of a polling client. The client (pkg/client) forwards it to its
-- target and sends the answer back as messages with the same ID; the server writes them to the
-- stream of that ID. pkg/config combines flags and files, pkg/logger sets the log up, and
-- cmd/singleproxy starts the service of the mode.
--
-- The files.
--
-- - Base and its children: shared names; Base/Text is the part of Go's strings package that is
--   used, Base/Maps are Go maps as association lists, Base/Int is Go's int with its sign.
-- - Http, Http/Header, Http/Status, Http/Address: the parts of net/http and net that are used
--   (http.Header, StatusText, SplitHostPort, JoinHostPort).
-- - Protocol/Message: pkg/protocol/message.go, TunnelMessage and its two functions.
--   Protocol/Http: pkg/protocol/http.go, Request and SerializeHTTPRequest.
-- - Config/Types, Config/Merge, Config/Load: pkg/config/config.go and pkg/config/file.go,
--   Config, Validate, MergeWithFileConfig, LoadConfigFile, LoadWithFile. Config/Save:
--   SaveConfigFile and GenerateExampleConfig. Config/Precedence has their proofs.
-- - Logger: pkg/logger/logger.go. Main: cmd/singleproxy/main.go; Main/Starts has its proofs.
-- - Server/Conn: prefixedConn and singleConnListener of pkg/server/types.go. Server/Writer: its
--   httpResponseWriter.
-- - Server/Route: ServeHTTP and the keys in paths, of pkg/server/server.go and
--   pkg/server/handlers.go.
-- - Server/State: the fields of SinglePortProxy as a record, with a store for the objects
--   behind pointers; Go's panics are values of Outcome.
-- - Server/Limits: getKeyLimiter and getIPLimiter of pkg/server/handlers.go, over the rate
--   library as an interface. Server/Public: handlePublicHTTPRequest, cut at the select where it
--   waits.
-- - Server/Tunnel: clientReadLoop and the registration of pkg/server/server.go. Server/Polling:
--   the HTTP long-polling handlers of pkg/server/handlers.go.
-- - Server/Serve: ServeHTTP and the two tunnel handlers that it calls, each up to the point
--   where it waits. Server/Connection: Start, handleConnection and handleHTTPConnection of
--   pkg/server/server.go.
-- - Client/Url: the addresses that the clients call; Client/Url/Calls sets them against the
--   server's routes, with the path that net/url finds in them as a parameter. Client/Reconnect:
--   the delays of Run in pkg/client/client.go. Client/Stream: the messages that
--   handleHTTPRequest and streamResponseBody of pkg/client/client.go queue. Client/Tunnel: the
--   WebSocket client of pkg/client/client.go, its Connect and Run; Client/Tunnel/Loops its
--   goroutines, Client/Tunnel/Steps their steps in any order. Client/Poll: the polling client,
--   pkg/client/http_client.go, over what http.Client does as a record.
-- - Http/Forward: pkg/utils/http.go.
-- - Server/Proxy: the path proxy, handleHTTPProxy of pkg/server/handlers.go.
--   Server/Tunnel/Streams: the streams that share a tunnel. Server/Tunnel/Order: the order of
--   range in the registration.
-- - Server/System: the steps of a server in any order, with WebSocket tunnels only; a public
--   request is one step if nothing comes between, or its admission, the registration of its
--   stream and its message are steps of their own. Server/System/Overlap cuts
--   handlePublicHTTPRequest before its message and takes two requests there;
--   Server/System/Over, Rests and Timeout: requests that are over. Server/Polling/Channels,
--   Queue and Crashes: the channels of polling clients. Server/Polling/Cleanup: the goroutine
--   cleanupHTTPTunnelClient.
-- - Relay: client, wire format and server together; Relay/Request goes from the arrival of a
--   public request to the end of its response. Relay/Mux follows a request while other requests
--   share its tunnel: the client's goroutines take turns in any order, and the server reads
--   frames of other tunnels in between (Client/Tunnel/Steps/Sole, Shares, Own, Delivered and
--   Drain, and Server/Public/Prefix, have the two sides). Relay/Poll runs the polling client on
--   the server's handlers, Relay/Poll/Drain for as many rounds as requests are queued.
--   Relay/Stale follows a message of the WebSocket client over a lost connection.
--   Protocol/Wire: the bytes of any message. Samples and the modules named Tests: concrete
--   values, and runs of the theorems at them.
--
-- Conventions. Bytes, IDs and times are native natural numbers; a uint64 wraps where the code
-- adds to it. Loops recur on their lists, so no fuel is used but in strings.SplitN, which is
-- given one piece more than the text has bytes, and in printing a decimal number, which is
-- given the number plus one rounds. A critical section of the code is one function, and so is a
-- run of a handler up to a wait; interleavings are sequences of such functions.
-- handlePublicHTTPRequest takes its locks one at a time and holds none from one to the next,
-- nor while it writes: public_request is its run with nothing in between, and Server/System has
-- its parts as steps, between which others may come. A call of WriteMessage is one step
-- everywhere: gorilla allows one writer at a time, the server does not see to it, and what
-- happens where two calls overlap on one connection, a panic among it, is outside the model.
-- Time is an argument, in nanoseconds.
--
-- Parameters. http.ReadResponse, http.ReadRequest, http.Client, the paths that net/url finds in
-- URLs, the upgrade to WebSocket, the YAML library, the file system, the network, the rate
-- library and the outcome of a WebSocket write are arguments or records, with the documented
-- behaviour that is used as named fields. What a connection accepts is a flag of the writer.
--
-- Not modelled: TLS, the SOCKS5 library, what log/slog writes, and timers themselves (the case
-- that a select takes is an argument). The polling client's loop has no end, so it is run for a
-- number of rounds. The goroutine cleanupHTTPTunnelClient is run for a number of ticks, six of
-- which are enough for a client that calls no more.
mod Base
pub mod Http
pub mod Protocol
pub mod Config
pub mod Server
pub mod Client
pub mod Logger
pub mod Main
mod Samples
pub mod Relay

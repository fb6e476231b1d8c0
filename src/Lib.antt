-- ===== src/Lib.antt =====
-- velocity-mcp: the core of an MCP server.
--
-- A server of the Model Context Protocol takes JSON-RPC messages from a transport. The package
-- jsonrpc parses them; the package server checks the protocol metadata, routes each request to
-- the handler of its method, and adds the members of the result envelope; the package transport
-- carries the messages and checks the headers that state their method and target; the package
-- client writes these headers, and negotiates the connection that its requests travel over.
--
-- The files, and the code that they are about:
--   Base, Base/*        numbers, Booleans, options and lists.
--   Bytes, Bytes/*      strings of Go, as lists of byte codes below 256: search, prefixes, trimming.
--   Base64, Base64/*    encoding/base64, standard alphabet, strict and lenient.
--   Assoc, Assoc/Laws   maps keyed by strings, as association lists in which a key stands once.
--   Json, Json/*        encoding/json: the reader, with the nesting limit of 10000; Unmarshal into
--                       any, string and map[string]json.RawMessage; Marshal of strings and maps.
--   Jsonrpc             jsonrpc/jsonrpc.go: ID (`MessageId`), Error, Request, Notification, Response.
--   Jsonrpc/Parse       jsonrpc/parse.go: ParseRequest, ParseNotification, IsNotificationBytes.
--   Jsonrpc/ParseResponse    jsonrpc/parse.go: ParseResponse.
--   Transport/HeaderValue    transport/headervalue.go: EncodeHeaderValue, DecodeHeaderValue.
--   Transport/McpHeaders      transport/mcp_headers.go: ValidateHeaders, as `validate_headers` of the
--                       lines that a request states for each header.
--   Transport/Status    transport/status.go: replyStatus.
--   Client/Headers      client/headers.go: mirroredHeaders, encodeHeaderValue.
--   Client/Versions     client/protocol_version.go: preferredProtocolVersion,
--                       supportsProtocolVersion.
--   Client/Errors, Client/Act
--                       client/errors.go: failures, and the methods that may fail.
--   Client/Unfinished   client/unfinished.go: unfinishedResult, applyContinuation.
--   Client/Results      client/results.go and client/discover.go: the results of the handshakes.
--   Client/Caching      client/caching.go and client/mirrored.go: lifetimeOf, integralNumber.
--   Client/Transport    client/transport.go: what the protocol asks of a transport.
--   Client/Protocol     client/protocol.go: attempt, exchangeFrame, withdrawn, serveServerFrame.
--   Client/Negotiation  client/negotiation.go: handshake, probe, fallback, initialize, discover.
--   Client/Connection   client/protocol.go: settle, connectLocked, standingConnection, exchangeFor.
--   Server/Protocol     server/protocol.go: the versions, and what Initialize settles on.
--   Server/Meta, Server/Meta/Validate
--                       server/meta.go: InspectMessage, validateProtocolMeta, validateArguments.
--   Server/UriTemplate  server/uritemplate.go: MatchURITemplate, parseTemplate.
--   Server/Pagination   server/pagination.go: CursorPaginator, as `paginate` of its fields.
--   Server/Context      server/context.go: Context, ResolveResource, PerPage.
--   Server/Caching, Server/Envelope
--                       server/caching.go and server/envelope.go: applyResultEnvelope.
--   Server/ArgPath      server/argpath.go: resolvePath, lookup, and engineValue.
--   Server/Completion   server/completion.go: CompleteValues.
--   Server/Session      server/session.go: tags of session ids.
--   Server/Catalog, Server/Catalog/*
--                       server/tool_catalog.go: Limits and Registry (the options, the names), Reply,
--                       Batch and Render (replies and their sizes), Fit (clipping), Terms and Search
--                       (search_tools), Calls and Execute (execute_tools), Handlers (both handlers).
--   Server/Results, Server/Initialize, Server/Handle
--                       server/handle.go: handle, route, handleInitialize, handleToolCall.
-- The children of a file prove what it does, and its Tests run it at concrete inputs.
--
-- State and effects. A method handler is a function of the context and the request which leaves
-- the context, a response that may be nil, and an error that holds a JSON-RPC error or any other.
-- The events that the server dispatches are returned in order. Of the context that a handler may
-- change, only the negotiated version is read again by the code behind it.
--
-- Integers. `int` is 64 bits wide: `Int64` holds a number that is negative or not, and the one
-- sum that may leave the range, of an offset and a page size, is written with its wrap
-- (`add_int`); a slice with a negative end is a panic, here `none`. Numbers in JSON are kept as
-- their tokens and read into an `int` or checked against the range of float64 where the code does.
--
-- Fuel. The reader of JSON spends one unit for each element or member of an array or object, and
-- has one more than the text has bytes, which Json/Fuel shows to be enough; its depth is the limit of
-- encoding/json. parseTemplate has
-- one more than the template has bytes, and each placeholder shortens the rest; resolvePath has one
-- more than the path has bytes, and each segment shortens it. An exchange of the client takes
-- at most `max_turns` frames, a parameter of its code, since the source bounds them by the context of
-- the exchange alone; under `IsBounded`, two more than the time that is left are enough.
--
-- Parameters. The HMAC of the framework, its comparison in constant time, the generator of session
-- ids, the case folding and the prefix test of completions, and the handlers of methods are parameters.
-- So are, for the tool catalog, the messages of the validator, the case folding and the classes of
-- characters, the tools, which read and change a world of the application, and whether that world
-- has cancelled the request. A transport of the client is a record of operations on a world of its
-- own, with the clock and the context of an exchange.
--
-- Not modelled: bytes.TrimSpace beyond ASCII space, since no token of JSON has other space at its
-- edges; the decoder of strictUnmarshal, which reads one value and the end, is Unmarshal of the
-- whole text; the durations of events, the frames that a handler streams, and loggers; how a tool of
-- the catalog describes itself in a payload, and the failures of progress reports; of the client,
-- the encoding of frames, params and headers, progress, the texts of errors, the gate between
-- concurrent callers and the methods of Client; authorization and the network transports, for which
-- the package boundaries above are the interface.
pub mod Base
pub mod Bytes
pub mod Base64
pub mod Assoc
pub mod Json
pub mod Jsonrpc
pub mod Server
pub mod Transport
pub mod Client

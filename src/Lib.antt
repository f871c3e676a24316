-- ===== src/Lib.antt =====
-- orbitproxy-go, the Go SDK of orbitproxy: a model of the code that connects a machine to its edge and
-- serves the machine's endpoints, with theorems about it.
--
-- The program. A Service keeps one control connection to the edge alive. On it the edge installs and
-- removes endpoints, opens work connections, and asks for checks, stops, restarts and updates. A work
-- connection goes to the application's listener (in_process), to a local address (forward), or over the
-- exec bridge to a child process that speaks JSON-RPC on its standard streams (exec). The child
-- processes live in a pool with limits; their answers are brought to the callers by request id; their
-- exits are diagnosed and reported. A probe monitor reports the health of an endpoint.
--
-- The files, and the code that each is about:
--   Prelude, Prelude/*        tests, lists, Go strings as code points, Go maps as association lists,
--                             machine integers, strconv.FormatInt, path/filepath on Unix
--   Wire/Types, Wire/Message, Wire/Message/Structs
--                             wire/*.go: the messages and their type bytes
--   Wire/Codec, Wire/Codec/*  wire/codec.go: Read, Write, readFrame, encode, decode
--   Mcp/Pool, Mcp/Pool/*      internal/mcp/mcpstdio/pool.go: RegisterEndpoint, UnregisterEndpoint,
--                             GetOrCreate, Invalidate, CloseAll, reapIdle
--   Mcp/SpawnConfig           the configurations of spawn.go and session.go, configChanged of pool.go
--   Mcp/JsonRpc, Mcp/JsonRpc/*
--                             internal/mcp/mcpstdio/jsonrpc.go: message kinds, Reader, Writer, PendingMap
--   Mcp/Tail, Mcp/Tail/*      internal/mcp/mcpstdio/diagnostic.go: StderrBuffer
--   Mcp/Diagnostic, Mcp/Diagnostic/*
--                             the same file: ClassifyExit, Sanitize, Deduplicator
--   Mcp/Env, Mcp/Env/*        internal/mcp/mcpstdio/envfile.go; buildEnv of spawn.go and what
--                             Spawn makes of its list
--   Mcp/Session, Mcp/Session/*
--                             internal/mcp/mcpstdio/session.go: NewSession, Call, SendNotification,
--                             readLoop, Close, waitProc
--   Mcp/Shutdown, Mcp/Shutdown/*
--                             internal/mcp/mcpstdio/shutdown.go: Shutdown and the file of PIDs
--   Mcp/Bridge, Mcp/Bridge/*  internal/mcp/mcpstdio/bridge.go: HandleWorkConn
--   Mcp/Errors, Mcp/Errors/*  internal/mcp/mcperr/mcperr.go
--   Mcp/Schema, Mcp/Schema/*  internal/mcp/toolschema/sanitize.go
--   Mcp/Discover, Mcp/Discover/*
--                             internal/mcp/discover/client.go
--   Mcp/Userenv, Mcp/Userenv/*
--                             internal/userenv: Home, LookPath, the directories of npm
--   Mcp/Preflight, Mcp/Preflight/*
--                             internal/mcp/preflight/command.go and run.go
--   Mcp/Payload               ParseExecPayload of bridge.go, filesystem_root.go
--   Health, Health/*          internal/health/observation.go and monitor.go
--   Endpoint/Delivery, Endpoint/Listener, Endpoint/Runtime, Endpoint/Manager and their children
--                             internal/endpoint/*.go
--   Control, Control/*        internal/gateway_ctl/control.go and control_handlers.go
--   Control/Dispatcher and its children
--                             internal/gateway_ctl/dispatcher/dispatcher.go
--   Service, Service/*        service/service.go and internal/backoff/backoff.go
--
-- How the code is rendered. A struct is a record, a method is a function from the old state to the new
-- one and its results. Code under a mutex is one function; where goroutines interleave, each section
-- is a step of a relation and the theorems are about every sequence of steps (Mcp/Pool/Steps,
-- Endpoint/Listener, Control/Dispatcher) or about every list of operations (Mcp/JsonRpc/Pending/Run).
-- A pool's decisions and its bookkeeping stand in functions named after the Go methods in lower case.
-- A Go panic that the code could reach (a send on a closed channel, a second close, a write out of
-- range) is the result `none`. Counters keep their widths: `int` and `int32` are bit patterns with
-- their wrap-around, the length field of a frame is an int64.
--
-- The parts of MCP meet where the code has them meet: a Call registers with PendingMap and is woken by
-- the channels that Dispatch, the timers and CloseAll act on; the bridge answers by what Call gives and
-- cleans the answer; a preflight checks the command, starts a transport and lists its tools. What a
-- goroutine of a session does between two waits is one function.
--
-- Fuel: StderrBuffer.write has one unit for each byte and one more; each round of its loop writes at
-- least one byte, and the theorems say that the result is there. readLoop of the dispatcher has one
-- unit for each round, and the length of the stream and one more is enough. sanitizeJSONSchema has one
-- unit for each level of nesting, and all amounts above the nesting give the same. The pages of a
-- listing have one unit each; 101 are enough where each page has a tool, and a server whose pages have
-- none can keep the loop going. All other loops are structural.
--
-- Parameters, for code outside of the repository: encoding/json (the record Json of Wire/Codec, with
-- the law that a message is decoded from its own encoding where a round trip is stated, the functions
-- `unmarshal` and `unmarshal_exec`, JsonText of Mcp/Schema/Body, Json of Mcp/Discover and Codec of
-- Mcp/Bridge), net/http in Mcp/Bridge, package regexp in Sanitize, the file system and filepath.Join in
-- Mcp/Env/File, the process environment in Mcp/Env/Build, and the machine of a preflight: its file
-- system, its environment, and what npm, uv and the search for a command give; the kernel and the PID
-- file in Mcp/Shutdown, and json.Marshal of a line in Mcp/JsonRpc/Lines.
--
-- Not modelled: the rest of Spawn, the HTTP and stdio transports of discovery, the data sessions, the
-- signatures of the hello messages, the Windows variants, and what is only input and output: dialling,
-- TLS, yamux, logging, downloads. The pool takes a NewSession as a step with any outcome, and the
-- service takes a login and the end of a session as a script.
pub mod Control
pub mod Endpoint
pub mod Health
pub mod Mcp
pub mod Prelude
pub mod Service
pub mod Wire

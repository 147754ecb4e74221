-- ===== src/Lib.antt =====
-- A model of suse-ai-up, a gateway in Go between users and MCP servers, and what holds of it.
--
-- Parts and files:
-- - Permissions (pkg/services/user_group.go, `permissionMatches`): which pattern grants which
--   permission. Permissions.Grants describes it apart from the code, by what the texts look like.
-- - Users: `User` and `Group` of pkg/models/adapter.go; Users.Memory and Users.Groups are the
--   stores in memory of pkg/clients/user_group_store.go; Users.Api holds the interfaces `UserStore`
--   and `GroupStore`, Users.Laws what the service relies on, Users.Instances and
--   Users.GroupInstances make the stores in memory instances. Users.Files are the stores on file.
-- - Files: `saveToFile` and `loadFromFile` of pkg/clients, once for every type of value.
-- - Access (pkg/services/user_group.go): `HasPermission`, `CanAccessServer` and the default groups;
--   Access.Members: who is in which group, written to both stores one after the other.
-- - Assignments (pkg/clients/adapter_group_assignment_store.go): which group may use which
--   adapter, in memory and on file.
-- - Sessions (pkg/session/store.go): the session store, its tokens in Sessions.Tokens.
-- - Cache (pkg/mcp/cache.go): the response cache; its keys and `Invalidate` in Cache.Keys.
-- - Ports (pkg/proxy/port_manager.go): the ports of the sidecar containers.
-- - Plugins (pkg/plugins/manager.go): the plugin services, their health in Plugins.Health, and which
--   of them serves a path. Routes (internal/service/dynamic_router.go): which requests go to one,
--   what is sent and what comes back.
-- - Adapters: the data of an adapter of pkg/models/adapter.go; Adapters.Store is the store of
--   pkg/clients/adapter_store.go.
-- - Tokens (pkg/clients/user_adapter_token_store.go): the tokens of users for adapters;
--   Tokens.Pairs is the store that the interface promises.
-- - Auth (pkg/auth): Auth.Manager and Auth.Refresh are token_manager.go, Auth.Users and a part of
--   Auth.Middleware user_middleware.go, the rest of Auth.Middleware adapter_middleware.go and
--   middleware.go; Auth.Jwt holds what is used of the JWT library, with its laws, and
--   Auth.Times what is used of package time.
-- - Files.Crypto (pkg/clients/crypto.go): the encryption of a file.
-- - Capabilities (pkg/mcp/capability_cache.go): what a server can do, kept for five minutes.
-- - Router (pkg/mcp/message_router.go): where a message goes. It reads and writes Cache,
--   Capabilities and Sessions; Router.Requests builds the request to a server.
-- - Errors (pkg/mcp/error_handler.go), Security (pkg/mcp/security.go) and McpSessions
--   (pkg/mcp/session_manager.go).
-- - Discovery (pkg/scanner/discovery_store.go): the store of discovered servers; Discovery.Locks
--   has its calls as steps of goroutines that wait for the lock.
-- - Monitor (pkg/mcp/monitoring.go): the log and the counters of the operations; Monitor.Reports
--   has what is read of them.
-- - Scans (pkg/scanner/scan_manager.go): the jobs of scans and their goroutines.
-- - Servers (pkg/clients/mcp_server_store.go, mcp_server_store_file.go and
--   internal/service/mcp_store.go): the stores of MCP servers and of scans.
-- - Tests: runs at concrete inputs.
-- - Prelude: lists, Go's maps as association lists, the functions of package strings, and the
--   names of the libraries.
--
-- The service calls a store only through its interface; Users.Laws holds the laws that the
-- theorems on the service assume. A store on file changes its map before it saves, so it lacks the
-- law that an error changes nothing.
--
-- How the code is read. A method that writes takes the state and returns the new one, with its
-- `error` as an option; a read returns a result. Each call is one step, as the mutexes of the
-- stores make it, save in Discovery.Locks; calls of the service are not interleaved. A map is a
-- list of keys and values without repeated keys, whose order stands for the order of a `range`
-- loop. Every `time.Now()` is an argument, a number of nanoseconds, of which `Unix()` keeps the
-- whole seconds, or a number of seconds in Auth.Refresh and Tokens. An error keeps what went
-- wrong, not its text. A token of a session is reached through an address into a heap, since the
-- store keeps the caller's pointer; elsewhere pointers and slices are values. Where a method reads
-- the clock more than once in Auth and Security, each reading is an argument of its own. The
-- counters and durations of type int64 do not wrap around, but for the product with `time.Hour` in
-- Auth.Times.
--
-- Parameters: bcrypt, MD5, SHA-256 with its hexadecimal digits, encoding/json, AES-GCM, base64,
-- the JWT library, random bytes, the calls of the operating system in one operation, the HTTP
-- client and the header functions of net/http, the decimal digits of a number, and the choice of
-- stores. What is assumed of them stands in Users.Laws, Files.RoundTrip.Reads,
-- Files.Sealed.CipherLaws, Auth.Jwt.JwtLaws and Auth.Refresh.TextsLaws. `strings.ToLower` is
-- written out where the code compares its result with ASCII texts.
--
-- Fuel: `AllocatePort` searches with the number of ports of its range, `maxPort + 1 - minPort`, as
-- its fuel; the loop of the code ends at `maxPort`, so nothing is cut off. All other loops run
-- over lists.
--
-- Not modelled: the Gin handlers, MCP transports and the protocol handler, proxies, deployments,
-- the network scanner, the registry, what a plugin's discovery adds to it, configuration and
-- logging; most of them exchange messages with other processes.
pub mod Access
pub mod Adapters
pub mod Assignments
pub mod Auth
pub mod Cache
pub mod Capabilities
pub mod Discovery
pub mod Errors
pub mod Files
pub mod McpSessions
pub mod Monitor
pub mod Permissions
pub mod Plugins
pub mod Ports
pub mod Prelude
pub mod Router
pub mod Routes
pub mod Scans
pub mod Security
pub mod Servers
pub mod Sessions
pub mod Tests
pub mod Tokens
pub mod Users

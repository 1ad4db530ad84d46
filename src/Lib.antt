-- ===== src/Lib.antt =====
-- PortFlow, a panel that manages TCP and UDP port forwarding on many nodes. A control plane keeps
-- users, nodes and rules in a store and serves them over HTTP; an agent on each node reports to it,
-- fetches the node's rules and hands them to a forwarder that opens the listeners. This library
-- models the decisions of these parts and proves what makes them correct.
--
-- Files and code (paths from the repository's root):
--   Prelude, Dict      shared helpers: tests, lists, texts, results, sorting; Go maps as lists of
--                      entries, with their laws
--   Domain             internal/domain/model.go: Node, ForwardRule, Validate, ProtocolsOverlap,
--                      ValidTunnelAddress
--   Store              internal/store/store.go and the state of internal/store/memory.go (Memory)
--   Store.Users        CreateInitialUser, CreateUser, UpdateUser, DeleteUser, SetUserMFA,
--                      ConsumeRecoveryCode, ListUsers, UserByUsername, UserByID
--   Store.Sessions     CreateSession, SessionUserByTokenHash, DeleteSessionByTokenHash
--   Store.Enrollment   CreateEnrollmentToken, EnrollAgent
--   Store.Rules        CreateForwardRule, UpdateForwardRule, DeleteForwardRule, ListForwardRules,
--                      ConfigForAgent, SetAgentConfig and the locked helpers
--   Store.Telemetry    UpdateAgentHeartbeat, recordMetricLocked, recordAgentLogsLocked,
--                      ListActiveConnections, ListNodes, RecordAudit, ListAudit, ListAgentLogs,
--                      TrafficHistory
--   Forward            internal/forward/tcp.go: what a forwarder reports, and the interface that the
--                      agent relies on; Forward.Prepare is prepareRules, Forward.Permits is permits
--   Forward.Manager    internal/forward/tcp.go: Manager, Apply and Close; Forward.Manager.Running is the
--                      manager as the agent's runtime drives it (cmd/agent/main.go joins the two)
--   Forward.Udp        internal/forward/udp.go: the sessions of a UDP forwarder
--   Forward.Tcp        internal/forward/tcp.go: the accept loop, handle and close of a TCP forwarder
--   Forward.Statistics internal/forward/tcp.go: Stats and connectionStats
--   Forward.Copying    internal/forward/tcp.go: limitedWriter.Write
--   Forward.Bandwidth  internal/forward/bandwidth.go: bandwidthLimiter, with exact numbers in place
--                      of float64
--   Agent.Logs         internal/agent/log_buffer.go: LogBuffer
--   Agent.Config       internal/agent/config.go: Config.Validate
--   Agent.Runtime      internal/agent/runtime.go: synchronize, Run and retryDelay
--   Auth               internal/auth/auth.go: passwords' lengths and user names, and recovery codes;
--                      Auth.Totp is internal/auth/totp.go: TOTPCode and ValidateTOTP
--   Control.Http       internal/control/server.go: requests, responses, the server's state and what its
--                      handlers share (decodeJSON, sessionToken, audit)
--   Control.Login      setupAdmin, setupStatus, login, logout and me
--   Control.Mfa        mfaSetup, mfaEnable and mfaDisable
--   Control.Users      users and user
--   Control.Enroll     enrollmentTokens, enrollAgent, requireAgentCredentials and agentConfig
--   Control.Heartbeat  agentHeartbeat
--   Control.Forwarding forwardRules, forwardRule and writeForwardRuleStoreError
--   Control.Fleet      nodes, dashboardSummary, trafficHistory, auditEvents, agentLogs and
--                      activeConnections
--   Control.Api        NewServer: the routes as calls, histories of requests, and the step relation on
--                      the store that the handlers keep to
--   Control.Throttle   internal/control/server.go: the throttle of failed logins
--   Control.Rules      internal/control/server.go: buildForwardRule and its tests of hosts
--   Control.Access     internal/control/server.go: requireUser, effectiveNodeStatuses
--   Examples           runs on small inputs, and the theorems at concrete inputs
-- The child modules hold the proofs, each named for what it proves.
--
-- How the code is modelled:
--   - A store operation holds the store's lock from its start to its end, so it is a function from
--     the state before to the reply and the state after. A history of calls is a list of calls.
--   - A Go map is a list of entries in some order; a loop over a map runs over that list. A theorem
--     about every list covers every order of Go's iteration.
--   - sort.Slice is an insertion sort: where the order calls two entries equal, Go leaves their
--     places open and the model fixes one.
--   - A time is its nanoseconds since Go's zero time. A gauge (float64 in the source) is a natural
--     number in a fixed unit; the code that is modelled only copies gauges.
--   - A uint64 counter that is stepped wraps at 2^64. Numbers that the code only compares and copies
--     are unbounded.
--   - Values share no storage, so the copies that the source makes (cloneRule, cloneUser) are the
--     identity.
--   - net.ParseIP and net.ParseCIDR are the two fields of the record Net, which every theorem takes;
--     net.SplitHostPort and the token's digest are arguments. The tests on addresses are written out.
--   - The agent's round takes what it meets outside, the replies, the file, the metrics, the clock
--     and the texts of errors, from a record World. The forwarder that it drives is any that keeps
--     the laws of Forwarder: Apply either puts the new rules in force or leaves the old ones.
--   - A socket of the forwarder is a handle, the number of the call that opened it; whether a call
--     fails, and which rules reflect.DeepEqual takes as equal, comes from a record Host. A call of
--     Apply is one function, and its loops over the desired rules run in one order.
--   - The goroutines of a TCP or UDP forwarder are a step relation: each stretch between two waits is
--     a step, and a history is any sequence of them.
--   - A log entry's number is drawn in one step and the entry appended in a later one, with any steps
--     of other goroutines between the two. The runtime's own messages are logged without such steps,
--     and the other goroutines' messages are left out of the runtime's model.
--   - A handler is a function from the server's state, a request and its decoded body to a response
--     and the state after: it runs without another's steps between its own and at one time. What
--     the handler draws or computes outside (identifiers, tokens, ciphers, digests, password hashes)
--     is in the records Fresh and Environment, and may fail where the source checks for an error.
--     Calls of the memory store that cannot fail are not given a failure. A response is its status
--     with its data or its error's code; texts, headers and cookies' attributes are left out.
--   - A share or a load in a heartbeat is a number of hundredths, a negative number, a NaN or an
--     infinity; the handler refuses the last three.
--   - Every loop is a recursion on a list or on a number that the code counts, but for the loop of
--     Wait, which runs on fuel: its units to grant and two passes are enough; and for the loop of
--     limitedWriter.Write, which has enough with one round for each byte of its buffer.
--
-- Not modelled: the PostgreSQL store (SQL against an external database), NodeMetricHistory and the
-- handler nodeDetail that shows it (averages of floating-point gauges), the handlers health and
-- systemSettings (constants and build data), JSON, the encoding of cookies and headers, bcrypt,
-- SHA-256, HMAC, base32 and AES-GCM, random generators, reading /proc, the steps of the atomic
-- file write, sockets and packets, the wake-ups of the bandwidth limiter, the commands under cmd,
-- the web client and the scripts.
pub mod Prelude
pub mod Dict
pub mod Domain
pub mod Store
pub mod Forward
pub mod Agent
pub mod Auth
pub mod Control
pub mod Examples

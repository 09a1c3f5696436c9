-- ===== src/Lib.antt =====
-- The HTTP client reqwest: how a client and its requests are built, what is sent and where, its
-- policies on retries and redirects, its errors, its bodies and its multipart forms.
--
-- A request runs through a stack of services. `redirect::TowerRedirectPolicy` decides whether a
-- redirect is followed and what the next request carries; below it `retry::Policy` decides whether a
-- result is retried, and after which delay. Both read `error::Error` and copy bodies.
--
-- `ClientBuilder::build` makes a client of its configuration, a connector and the stack.
-- `async_impl::Client` makes of a request what the stack is called with, and polls it with its
-- timers; `proxy::Matcher` gives the headers for a proxy, and `h3_client::pool` the connections.
--
--   Prelude    what all modules share: native numbers, Boolean tests, lists, integers, results
--   Http       the types, operations and documented laws of the crates `http` and `url` that the code
--              relies on, as records; Http/Plain instantiates them over association lists
--   Config     src/config.rs: the timeout that a request carries in its extensions
--   Request    src/async_impl/request.rs: the request, its copies and conversions, and the builder;
--              Builder/Calls is the sequence of its calls
--   Response   src/async_impl/response.rs: bodies read whole and in pieces, statuses, conversions
--   Cookie     src/cookie.rs: the jar and the service around requests
--   IntoUrl    src/into_url.rs: which URLs are accepted, with the client's base URL
--   Middleware src/async_impl/middleware.rs: the chain around what is sent
--   Connect    src/connect.rs: the way to a destination, tunnels and SOCKS proxies
--   Dns        src/dns/resolve.rs: hosts, ports and overrides
--   Blocking   src/blocking: the wait for an answer, with its timeout
--   Logging    src/logging.rs: the service that logs, and the printed headers
--   Util       src/util.rs: the header of basic authentication, the merge of header maps, and bytes
--              printed (Escape)
--   ClientBuilder  src/async_impl/client.rs: `ClientBuilder`, its options (Options, Transport,
--              TlsOptions), their sequences (Calls) and `build` (Backends, Build)
--   Tls        src/tls.rs: versions, certificates and identities
--   Client     src/async_impl/client.rs: `execute_without_middleware` and `PendingRequest::poll`
--   Proxy      src/proxy.rs: `Proxy`, the `Matcher` that it becomes, and the flags that it caches
--   Error      src/error.rs: `Error` and its chain of sources, of which each link is a constructor
--   Body       src/async_impl/body.rs: `Body`, held in memory or as the list of a stream's results;
--              Timeouts has the bodies with a total and a read timeout
--   Multipart  src/async_impl/multipart.rs: the stream of a form, its computed length, the headers of
--              its parts (Encoding) and its boundary
--   H3Pool     src/async_impl/h3_client/pool.rs: the connecting locks, the waiters and the pooled
--              connections; Steps is the relation of their interleavings
--   Retry      src/retry.rs. Backoff is `mod backoff`, Budget `mod budget`, RetryAfter `mod
--              retry_after`, Classify `mod classify` and `is_retryable_error`, Policy the tower policy,
--              Builder the public builder
--   Redirect   src/redirect.rs. Policy is the public policy, Tower the policy for `tower_http`
--
-- Durations and instants are nanoseconds in ℕ. Arithmetic on u32, u64 and u128 has its wrap-around
-- written out, and where the build profile matters it is a Boolean (`checks`) and a panic is `none`.
-- Budgets lie in a store that outlives the map, as their `Arc`s do. What a step reads of its
-- surroundings (time, the random number, features) is the record `Env`. The crates `tower`, `http`,
-- `url`, `hyper_util`, `percent_encoding`, `base64`, `cookie`, `cookie_store`, `mime`,
-- `encoding_rs`, `rustls` and `native_tls` are parameters, records of operations and documented laws.
-- Polling a body to its end has fuel; a body needs one unit more than it has frames.
--
-- Not modelled: sockets and TLS handshakes, the resolvers of the system and of hickory, the
-- connection pools of hyper, the threads of the blocking client, the builder's options for HTTP/3,
-- the wasm client, and the printed forms of errors.
pub mod Blocking
pub mod Body
pub mod Client
pub mod ClientBuilder
pub mod Config
pub mod Connect
pub mod Cookie
pub mod Dns
pub mod Error
pub mod H3Pool
pub mod Http
pub mod IntoUrl
pub mod Logging
pub mod Middleware
pub mod Multipart
pub mod Prelude
pub mod Proxy
pub mod Redirect
pub mod Request
pub mod Response
pub mod Retry
pub mod Tls
pub mod Util

-- ===== src/ClientBuilder.antt =====
-- src/async_impl/client.rs: the configuration of a client, and its defaults.
-- The features `rustls`, `native-tls`, `http2`, `cookies` and those of the decoders are on, `http3`
-- is off, and the platform is Linux with 64 bits. Durations are nanoseconds.
pub mod Options
pub mod Transport
pub mod TlsOptions
pub mod Calls
pub mod Backends
pub mod Build
pub mod Histories
pub mod Errors
pub mod Versions
pub mod Verification
mod Tests
use reqwest.Prelude.{
  ℕ, ◌-◌, ◌*◌, ◌^◌, Bool, true, false, not, ◌&&◌, String, Option, none, some, List, [],
  if◌then◌else◌,
}
use reqwest.Http.{Headers, HeaderValues, Urls}
use reqwest.Error.{Error}
use reqwest.Proxy.{Matchers, Matcher}
use reqwest.Redirect.Policy.{PolicyKind, default}
use reqwest.Tls.{Version, Certificate, Identity, Rustls}

pub data HttpVersionPref : Type 0 where
  http1 http2 all_http : HttpVersionPref

pub record Accepts : Type 0 where
  pub gzip : Bool
  pub brotli : Bool
  pub zstd : Bool
  pub deflate : Bool

-- What the builder only stores for others: its retry policy, middleware, logger, layers, cookies,
-- and the connector of `native_tls` that a caller has built.
pub record Kept : Type 1 where
  pub RetryBuilder : Type 0
  pub default_retry : RetryBuilder
  pub Middleware : Type 0
  pub Logger : Type 0
  pub Layer : Type 0
  pub CookieStore : Type 0
  pub default_jar : CookieStore
  pub TlsConnector : Type 0

abbrev pub secs : ℕ → ℕ
secs n = n * 10 ^ 9

abbrev pub usize_max : ℕ
usize_max = 2 ^ 64 - 1

-- `TlsBackend`.
pub data TlsBackend (k : Kept) (Url : Type 0) (r : Rustls Url) : Type 0 where
  native_tls : TlsBackend k Url r
  built_native_tls : k.TlsConnector → TlsBackend k Url r
  rustls : TlsBackend k Url r
  built_rustls : r.ClientConfig → TlsBackend k Url r
  unknown_preconfigured : TlsBackend k Url r

-- Which of the two libraries is compiled in decides the default; `http3` is off.
abbrev pub default_backend :
    {k : Kept} {Url : Type 0} {r : Rustls Url} → Bool → Bool → TlsBackend k Url r
default_backend has_rustls has_native = if has_rustls && not has_native then rustls else native_tls

-- `Config`, which is all that `ClientBuilder` holds, without its resolver and DNS overrides.
pub record ClientBuilder (h : Headers) (u : Urls) (x : Matchers h u) (k : Kept) (r : Rustls u.Url)
    : Type 0 where
  pub error : Option (Error u.Url)
  pub accepts : Accepts
  pub headers : h.HeaderMap
  pub base_url : Option String
  pub hostname_verification : Bool
  pub certs_verification : Bool
  pub tls_sni : Bool
  pub tls_sslkeylogfile : Bool
  pub connect_timeout : Option ℕ
  pub connection_verbose : Bool
  pub pool_idle_timeout : Option ℕ
  pub pool_max_idle_per_host : ℕ
  pub tcp_keepalive : Option ℕ
  pub tcp_keepalive_interval : Option ℕ
  pub tcp_keepalive_retries : Option ℕ
  pub tcp_user_timeout : Option ℕ
  pub proxies : List (Matcher h u x)
  pub auto_env_proxy : Bool
  pub redirect_policy : PolicyKind u.Url
  pub retry_policy : k.RetryBuilder
  pub middleware : List k.Middleware
  pub request_logger : Option k.Logger
  pub referer : Bool
  pub read_timeout : Option ℕ
  pub timeout : Option ℕ
  pub root_certs : List Certificate
  pub tls_certs_only : Bool
  pub identity : Option (Identity u.Url r)
  pub crls : List (List ℕ)
  pub min_tls_version : Option Version
  pub max_tls_version : Option Version
  pub tls_info : Bool
  pub tls : TlsBackend k u.Url r
  pub connector_layers : List k.Layer
  pub http_version_pref : HttpVersionPref
  pub http09_responses : Bool
  pub http1_title_case_headers : Bool
  pub http1_allow_obsolete_multiline_headers_in_responses : Bool
  pub http1_ignore_invalid_headers_in_responses : Bool
  pub http1_allow_spaces_after_header_name_in_responses : Bool
  pub http2_initial_stream_window_size : Option ℕ
  pub http2_initial_connection_window_size : Option ℕ
  pub http2_adaptive_window : Bool
  pub http2_max_frame_size : Option ℕ
  pub http2_max_header_list_size : Option ℕ
  pub http2_keep_alive_interval : Option ℕ
  pub http2_keep_alive_timeout : Option ℕ
  pub http2_keep_alive_while_idle : Bool
  pub local_address : Option String
  pub interface : Option String
  pub nodelay : Bool
  pub cookie_store : Option k.CookieStore
  pub https_only : Bool
  pub unix_socket : Option String

module _ {h : Headers} {u : Urls} {x : Matchers h u} {k : Kept} {r : Rustls u.Url} where
  -- `ClientBuilder::new`: the values of its two headers are constants, and the backend is the default.
  unfoldable pub new :
      HeaderValues h
      → h.HeaderValue
      → h.HeaderValue
      → TlsBackend k u.Url r
      → ClientBuilder h u x k r
  new v any_type agent backend = record {
    error = none;
    accepts = record { gzip = true; brotli = true; zstd = true; deflate = true };
    headers = h.insert (h.insert v.empty "accept" any_type) "user-agent" agent;
    base_url = none;
    hostname_verification = true;
    certs_verification = true;
    tls_sni = true;
    tls_sslkeylogfile = false;
    connect_timeout = none;
    connection_verbose = false;
    pool_idle_timeout = some (secs 90);
    pool_max_idle_per_host = usize_max;
    tcp_keepalive = some (secs 15);
    tcp_keepalive_interval = some (secs 15);
    tcp_keepalive_retries = some 3;
    tcp_user_timeout = some (secs 30);
    proxies = [];
    auto_env_proxy = false;
    redirect_policy = default;
    retry_policy = k.default_retry;
    middleware = [];
    request_logger = none;
    referer = true;
    read_timeout = none;
    timeout = some (secs 60);
    root_certs = [];
    tls_certs_only = false;
    identity = none;
    crls = [];
    min_tls_version = none;
    max_tls_version = none;
    tls_info = false;
    tls = backend;
    connector_layers = [];
    http_version_pref = all_http;
    http09_responses = false;
    http1_title_case_headers = false;
    http1_allow_obsolete_multiline_headers_in_responses = false;
    http1_ignore_invalid_headers_in_responses = false;
    http1_allow_spaces_after_header_name_in_responses = false;
    http2_initial_stream_window_size = none;
    http2_initial_connection_window_size = none;
    http2_adaptive_window = false;
    http2_max_frame_size = none;
    http2_max_header_list_size = none;
    http2_keep_alive_interval = none;
    http2_keep_alive_timeout = none;
    http2_keep_alive_while_idle = false;
    local_address = none;
    interface = none;
    nodelay = true;
    cookie_store = none;
    https_only = false;
    unix_socket = none;
  }

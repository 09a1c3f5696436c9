-- ===== src/ClientBuilder/Build.antt =====
-- src/async_impl/client.rs, `ClientBuilder::build`: what a configuration becomes.
pub mod Inversion
use reqwest.Prelude.{
  ℕ, Bool, true, false, not, String, Option, none, some, List, [], ◌∷◌, ◌++◌, any, is_some,
  if◌then◌else◌, Result, ok, err, and_then,
}
use reqwest.Http.{Headers, Urls}
use reqwest.Error.{Error, builder_error, text}
use reqwest.Proxy.{Matchers, Matcher, system}
use reqwest.Redirect.Policy.{PolicyKind, is_default}
use reqwest.Tls.{Rustls}
use reqwest.Connect
use reqwest.Connect.{ConnectorService, Backend}
use reqwest.Client.{ClientRef}
use reqwest.ClientBuilder.{
  ClientBuilder, Kept, Accepts, TlsBackend, HttpVersionPref, http2, native_tls, built_native_tls,
  rustls, built_rustls, unknown_preconfigured,
}
use reqwest.ClientBuilder.Backends.{NativeTls, RustlsTls, Libraries, native_tls_of, rustls_tls}

-- The connector's TLS library with its settings.
pub data Tls (k : Kept) (Url : Type 0) (r : Rustls Url) : Type 0 where
  with_native_tls : NativeTls Url r → Tls k Url r
  with_built_native_tls : k.TlsConnector → Tls k Url r
  with_rustls : RustlsTls Url r → Tls k Url r
  with_built_rustls : r.ClientConfig → Tls k Url r

abbrev pub backend_of : {k : Kept} {Url : Type 0} {r : Rustls Url} → Tls k Url r → Backend
backend_of (with_native_tls t) = Connect.native_tls
backend_of (with_built_native_tls t) = Connect.native_tls
backend_of (with_rustls t) = Connect.rustls_tls
backend_of (with_built_rustls t) = Connect.rustls_tls

-- What is set on the builder of the connector.
pub record ConnectorOptions : Type 0 where
  pub timeout : Option ℕ
  pub verbose : Bool
  pub keepalive : Option ℕ
  pub keepalive_interval : Option ℕ
  pub keepalive_retries : Option ℕ
  pub tcp_user_timeout : Option ℕ
  pub local_address : Option String
  pub interface : Option String
  pub nodelay : Bool
  pub tls_info : Bool
  pub unix_socket : Option String

-- What is set on the builder of hyper's client; `none` and `false` leave its default.
pub record HyperOptions : Type 0 where
  pub http2_only : Bool
  pub http2_initial_stream_window_size : Option ℕ
  pub http2_initial_connection_window_size : Option ℕ
  pub http2_adaptive_window : Bool
  pub http2_max_frame_size : Option ℕ
  pub http2_max_header_list_size : Option ℕ
  pub http2_keep_alive_interval : Option ℕ
  pub http2_keep_alive_timeout : Option ℕ
  pub http2_keep_alive_while_idle : Bool
  pub pool_idle_timeout : Option ℕ
  pub pool_max_idle_per_host : ℕ
  pub http09_responses : Bool
  pub http1_title_case_headers : Bool
  pub http1_allow_obsolete_multiline_headers_in_responses : Bool
  pub http1_ignore_invalid_headers_in_responses : Bool
  pub http1_allow_spaces_after_header_name_in_responses : Bool

-- `Client`: `inner` has the fields that sending reads; the others make up the service stack.
pub record Client (h : Headers) (u : Urls) (x : Matchers h u) (k : Kept) (r : Rustls u.Url)
    : Type 0 where
  pub inner : ClientRef h u x
  pub connector : ConnectorService h u x
  pub tls : Tls k u.Url r
  pub connector_options : ConnectorOptions
  pub layers : List k.Layer
  pub hyper : HyperOptions
  pub accepts : Accepts
  pub cookie_store : Option k.CookieStore
  pub redirect_policy : PolicyKind u.Url
  pub shows_redirect_policy : Bool
  pub retry_policy : k.RetryBuilder
  pub request_logger : Option k.Logger
  pub base_url : Option String
  pub referer : Bool
  pub middleware : List k.Middleware

-- An early return of an error.
abbrev pub unless {ℓ κ} : {A : Type ℓ} {E : Type κ} → Option E → Result A E → Result A E
unless (some e) r = err e
unless none r = r

abbrev pub is_http2 : HttpVersionPref → Bool
is_http2 http2 = true
is_http2 _ = false

module _ {h : Headers} {u : Urls} {x : Matchers h u} {k : Kept} {r : Rustls u.Url} where
  abbrev pub connector_options : ClientBuilder h u x k r → ConnectorOptions
  connector_options c = record {
    timeout = c.connect_timeout;
    verbose = c.connection_verbose;
    keepalive = c.tcp_keepalive;
    keepalive_interval = c.tcp_keepalive_interval;
    keepalive_retries = c.tcp_keepalive_retries;
    tcp_user_timeout = c.tcp_user_timeout;
    local_address = c.local_address;
    interface = c.interface;
    nodelay = c.nodelay;
    tls_info = c.tls_info;
    unix_socket = c.unix_socket;
  }

  abbrev pub hyper_options : ClientBuilder h u x k r → HyperOptions
  hyper_options c = record {
    http2_only = is_http2 c.http_version_pref;
    http2_initial_stream_window_size = c.http2_initial_stream_window_size;
    http2_initial_connection_window_size = c.http2_initial_connection_window_size;
    http2_adaptive_window = c.http2_adaptive_window;
    http2_max_frame_size = c.http2_max_frame_size;
    http2_max_header_list_size = c.http2_max_header_list_size;
    http2_keep_alive_interval = c.http2_keep_alive_interval;
    http2_keep_alive_timeout = c.http2_keep_alive_timeout;
    http2_keep_alive_while_idle = c.http2_keep_alive_while_idle;
    pool_idle_timeout = c.pool_idle_timeout;
    pool_max_idle_per_host = c.pool_max_idle_per_host;
    http09_responses = c.http09_responses;
    http1_title_case_headers = c.http1_title_case_headers;
    http1_allow_obsolete_multiline_headers_in_responses =
        c.http1_allow_obsolete_multiline_headers_in_responses;
    http1_ignore_invalid_headers_in_responses = c.http1_ignore_invalid_headers_in_responses;
    http1_allow_spaces_after_header_name_in_responses =
        c.http1_allow_spaces_after_header_name_in_responses;
  }

  -- The proxies, and after them the one of the environment.
  unfoldable pub all_proxies : ClientBuilder h u x k r → List (Matcher h u x)
  all_proxies c = c.proxies ++ (if c.auto_env_proxy then system ∷ [] else [])

  unfoldable pub finished : ClientBuilder h u x k r → Tls k u.Url r → Client h u x k r
  unfolding all_proxies
  finished c tls = record {
    inner = record {
      headers = c.headers;
      total_timeout = record { value = c.timeout };
      read_timeout = c.read_timeout;
      proxies = all_proxies c;
      proxies_maybe_http_auth = any (λ p. p.maybe_has_http_auth) (all_proxies c);
      proxies_maybe_http_custom_headers =
          any (λ p. p.maybe_has_http_custom_headers) (all_proxies c);
      https_only = c.https_only;
      h3_client = false;
    };
    connector = record {
      inner = backend_of tls;
      proxies = all_proxies c;
      user_agent = h.get c.headers "user-agent";
      local_transport = is_some c.unix_socket;
    };
    tls = tls;
    connector_options = connector_options c;
    layers = c.connector_layers;
    hyper = hyper_options c;
    accepts = c.accepts;
    cookie_store = c.cookie_store;
    redirect_policy = c.redirect_policy;
    shows_redirect_policy = not (is_default c.redirect_policy);
    retry_policy = c.retry_policy;
    request_logger = c.request_logger;
    base_url = c.base_url;
    referer = c.referer;
    middleware = c.middleware;
  }

module _ {h : Headers} {u : Urls} {x : Matchers h u} {k : Kept} {r : Rustls u.Url}
    (l : Libraries (NativeTls u.Url r) u.Url r) where
  -- The match on the backend.
  unfoldable pub tls_with :
      TlsBackend k u.Url r → ClientBuilder h u x k r → Result (Tls k u.Url r) (Error u.Url)
  unfolding native_tls_of rustls_tls
  tls_with native_tls c = and_then (native_tls_of l c) (λ t. ok (with_native_tls t))
  tls_with (built_native_tls conn) c = ok (with_built_native_tls conn)
  tls_with (built_rustls config) c = ok (with_built_rustls config)
  tls_with rustls c = and_then (rustls_tls l c) (λ t. ok (with_rustls t))
  tls_with unknown_preconfigured c =
      err (builder_error (text "Unknown TLS backend passed to `use_preconfigured_tls`"))

  unfoldable pub build : ClientBuilder h u x k r → Result (Client h u x k r) (Error u.Url)
  unfolding tls_with finished
  build c = unless c.error (and_then (tls_with c.tls c) (λ tls. ok (finished c tls)))

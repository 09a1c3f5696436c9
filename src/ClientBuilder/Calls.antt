-- ===== src/ClientBuilder/Calls.antt =====
-- src/async_impl/client.rs, `ClientBuilder`: sequences of its calls.
use reqwest.Prelude.{ℕ, Bool, String, Option, List, [], ◌∷◌, Result}
use reqwest.Http.{Headers, Urls}
use reqwest.Error.{Source}
use reqwest.Proxy.{Matchers, Proxy}
use reqwest.Redirect.Policy.{PolicyKind}
use reqwest.IntoUrl.{Given}
use reqwest.Tls.{Version, Certificate, Identity, Rustls}
use reqwest.ClientBuilder.{ClientBuilder, Kept}
use reqwest.ClientBuilder.Options
use reqwest.ClientBuilder.Transport
use reqwest.ClientBuilder.TlsOptions
use reqwest.ClientBuilder.TlsOptions.{Preconfigured}

-- A method of the builder with its arguments.
pub data Call (h : Headers) (u : Urls) (x : Matchers h u) (k : Kept) (r : Rustls u.Url)
    : Type 0 where
  base_url : Given u → Call h u x k r
  user_agent : Result h.HeaderValue (Source u.Url) → Call h u x k r
  no_user_agent : Call h u x k r
  default_headers : h.HeaderMap → Call h u x k r
  cookie_provider : k.CookieStore → Call h u x k r
  redirect : PolicyKind u.Url → Call h u x k r
  referer : Bool → Call h u x k r
  retry : k.RetryBuilder → Call h u x k r
  middleware : k.Middleware → Call h u x k r
  request_logger : k.Logger → Call h u x k r
  proxy : Proxy h u → Call h u x k r
  env_config_proxy : Call h u x k r
  no_proxy : Call h u x k r
  timeout : ℕ → Call h u x k r
  read_timeout : ℕ → Call h u x k r
  connect_timeout : ℕ → Call h u x k r
  connection_verbose : Bool → Call h u x k r
  https_only : Bool → Call h u x k r
  connector_layer : k.Layer → Call h u x k r
  gzip : Bool → Call h u x k r
  brotli : Bool → Call h u x k r
  zstd : Bool → Call h u x k r
  deflate : Bool → Call h u x k r
  cookie_store : Bool → Call h u x k r
  pool_idle_timeout : Option ℕ → Call h u x k r
  pool_max_idle_per_host : ℕ → Call h u x k r
  http1_title_case_headers : Call h u x k r
  http1_allow_obsolete_multiline_headers_in_responses : Bool → Call h u x k r
  http1_ignore_invalid_headers_in_responses : Bool → Call h u x k r
  http1_allow_spaces_after_header_name_in_responses : Bool → Call h u x k r
  http1_only : Call h u x k r
  http09_responses : Call h u x k r
  http2_prior_knowledge : Call h u x k r
  http2_initial_stream_window_size : Option ℕ → Call h u x k r
  http2_initial_connection_window_size : Option ℕ → Call h u x k r
  http2_adaptive_window : Bool → Call h u x k r
  http2_max_frame_size : Option ℕ → Call h u x k r
  http2_max_header_list_size : ℕ → Call h u x k r
  http2_keep_alive_interval : Option ℕ → Call h u x k r
  http2_keep_alive_timeout : ℕ → Call h u x k r
  http2_keep_alive_while_idle : Bool → Call h u x k r
  tcp_nodelay : Bool → Call h u x k r
  local_address : Option String → Call h u x k r
  interface : String → Call h u x k r
  tcp_keepalive : Option ℕ → Call h u x k r
  tcp_keepalive_interval : Option ℕ → Call h u x k r
  tcp_keepalive_retries : Option ℕ → Call h u x k r
  tcp_user_timeout : Option ℕ → Call h u x k r
  unix_socket : String → Call h u x k r
  tls_certs_merge : List Certificate → Call h u x k r
  tls_certs_only : List Certificate → Call h u x k r
  add_root_certificate : Certificate → Call h u x k r
  tls_crls_only : List (List ℕ) → Call h u x k r
  add_crl : List ℕ → Call h u x k r
  add_crls : List (List ℕ) → Call h u x k r
  identity : Identity u.Url r → Call h u x k r
  tls_danger_accept_invalid_hostnames : Bool → Call h u x k r
  tls_danger_accept_invalid_certs : Bool → Call h u x k r
  tls_sni : Bool → Call h u x k r
  tls_sslkeylogfile : Bool → Call h u x k r
  tls_version_min : Version → Call h u x k r
  tls_version_max : Version → Call h u x k r
  tls_backend_native : Call h u x k r
  tls_backend_rustls : Call h u x k r
  tls_info : Bool → Call h u x k r
  tls_backend_preconfigured : Preconfigured k u.Url r → Call h u x k r

module _ {h : Headers} {u : Urls} {x : Matchers h u} {k : Kept} {r : Rustls u.Url} where
  unfoldable pub apply : ClientBuilder h u x k r → Call h u x k r → ClientBuilder h u x k r
  apply b (base_url given) = Options.base_url b given
  apply b (user_agent value) = Options.user_agent b value
  apply b no_user_agent = Options.no_user_agent b
  apply b (default_headers more) = Options.default_headers b more
  apply b (cookie_provider store) = Options.cookie_provider b store
  apply b (redirect policy) = Options.redirect b policy
  apply b (referer enable) = Options.referer b enable
  apply b (retry policy) = Options.retry b policy
  apply b (middleware m) = Options.middleware b m
  apply b (request_logger logger) = Options.request_logger b logger
  apply b (proxy p) = Options.proxy b p
  apply b env_config_proxy = Options.env_config_proxy b
  apply b no_proxy = Options.no_proxy b
  apply b (timeout duration) = Options.timeout b duration
  apply b (read_timeout duration) = Options.read_timeout b duration
  apply b (connect_timeout duration) = Options.connect_timeout b duration
  apply b (connection_verbose verbose) = Options.connection_verbose b verbose
  apply b (https_only enabled) = Options.https_only b enabled
  apply b (connector_layer layer) = Options.connector_layer b layer
  apply b (gzip enable) = Options.gzip b enable
  apply b (brotli enable) = Options.brotli b enable
  apply b (zstd enable) = Options.zstd b enable
  apply b (deflate enable) = Options.deflate b enable
  apply b (cookie_store enable) = Options.cookie_store b enable
  apply b (pool_idle_timeout val) = Transport.pool_idle_timeout b val
  apply b (pool_max_idle_per_host max) = Transport.pool_max_idle_per_host b max
  apply b http1_title_case_headers = Transport.http1_title_case_headers b
  apply b (http1_allow_obsolete_multiline_headers_in_responses value) =
      Transport.http1_allow_obsolete_multiline_headers_in_responses b value
  apply b (http1_ignore_invalid_headers_in_responses value) =
      Transport.http1_ignore_invalid_headers_in_responses b value
  apply b (http1_allow_spaces_after_header_name_in_responses value) =
      Transport.http1_allow_spaces_after_header_name_in_responses b value
  apply b http1_only = Transport.http1_only b
  apply b http09_responses = Transport.http09_responses b
  apply b http2_prior_knowledge = Transport.http2_prior_knowledge b
  apply b (http2_initial_stream_window_size size) =
      Transport.http2_initial_stream_window_size b size
  apply b (http2_initial_connection_window_size size) =
      Transport.http2_initial_connection_window_size b size
  apply b (http2_adaptive_window enabled) = Transport.http2_adaptive_window b enabled
  apply b (http2_max_frame_size size) = Transport.http2_max_frame_size b size
  apply b (http2_max_header_list_size size) = Transport.http2_max_header_list_size b size
  apply b (http2_keep_alive_interval interval) = Transport.http2_keep_alive_interval b interval
  apply b (http2_keep_alive_timeout duration) = Transport.http2_keep_alive_timeout b duration
  apply b (http2_keep_alive_while_idle enabled) = Transport.http2_keep_alive_while_idle b enabled
  apply b (tcp_nodelay enabled) = Transport.tcp_nodelay b enabled
  apply b (local_address addr) = Transport.local_address b addr
  apply b (interface name) = Transport.interface b name
  apply b (tcp_keepalive val) = Transport.tcp_keepalive b val
  apply b (tcp_keepalive_interval val) = Transport.tcp_keepalive_interval b val
  apply b (tcp_keepalive_retries retries) = Transport.tcp_keepalive_retries b retries
  apply b (tcp_user_timeout val) = Transport.tcp_user_timeout b val
  apply b (unix_socket path) = Transport.unix_socket b path
  apply b (tls_certs_merge certs) = TlsOptions.tls_certs_merge b certs
  apply b (tls_certs_only certs) = TlsOptions.tls_certs_only b certs
  apply b (add_root_certificate cert) = TlsOptions.add_root_certificate b cert
  apply b (tls_crls_only lists) = TlsOptions.tls_crls_only b lists
  apply b (add_crl list) = TlsOptions.add_crl b list
  apply b (add_crls lists) = TlsOptions.add_crls b lists
  apply b (identity id) = TlsOptions.identity b id
  apply b (tls_danger_accept_invalid_hostnames accept) =
      TlsOptions.tls_danger_accept_invalid_hostnames b accept
  apply b (tls_danger_accept_invalid_certs accept) =
      TlsOptions.tls_danger_accept_invalid_certs b accept
  apply b (tls_sni sni) = TlsOptions.tls_sni b sni
  apply b (tls_sslkeylogfile on) = TlsOptions.tls_sslkeylogfile b on
  apply b (tls_version_min version) = TlsOptions.tls_version_min b version
  apply b (tls_version_max version) = TlsOptions.tls_version_max b version
  apply b tls_backend_native = TlsOptions.tls_backend_native b
  apply b tls_backend_rustls = TlsOptions.tls_backend_rustls b
  apply b (tls_info info) = TlsOptions.tls_info b info
  apply b (tls_backend_preconfigured tls) = TlsOptions.tls_backend_preconfigured b tls

  unfoldable pub run : ClientBuilder h u x k r → List (Call h u x k r) → ClientBuilder h u x k r
  run b [] = b
  run b (call ∷ calls) = run (apply b call) calls

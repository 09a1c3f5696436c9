-- ===== src/ClientBuilder/Transport.antt =====
-- src/async_impl/client.rs, `ClientBuilder`: the options of the pool, of HTTP and of TCP.
use reqwest.Prelude.{ℕ, Bool, true, String, Option, some}
use reqwest.Http.{Headers, Urls}
use reqwest.Proxy.{Matchers}
use reqwest.Tls.{Rustls}
use reqwest.ClientBuilder.{ClientBuilder, Kept, http1, http2}

module _ {h : Headers} {u : Urls} {x : Matchers h u} {k : Kept} {r : Rustls u.Url} where
  abbrev pub pool_idle_timeout : ClientBuilder h u x k r → Option ℕ → ClientBuilder h u x k r
  pool_idle_timeout b val = record b { pool_idle_timeout = val }

  abbrev pub pool_max_idle_per_host : ClientBuilder h u x k r → ℕ → ClientBuilder h u x k r
  pool_max_idle_per_host b max = record b { pool_max_idle_per_host = max }

  abbrev pub http1_title_case_headers : ClientBuilder h u x k r → ClientBuilder h u x k r
  http1_title_case_headers b = record b { http1_title_case_headers = true }

  abbrev pub http1_allow_obsolete_multiline_headers_in_responses :
      ClientBuilder h u x k r → Bool → ClientBuilder h u x k r
  http1_allow_obsolete_multiline_headers_in_responses b value = record b {
    http1_allow_obsolete_multiline_headers_in_responses = value;
  }

  abbrev pub http1_ignore_invalid_headers_in_responses :
      ClientBuilder h u x k r → Bool → ClientBuilder h u x k r
  http1_ignore_invalid_headers_in_responses b value = record b {
    http1_ignore_invalid_headers_in_responses = value;
  }

  abbrev pub http1_allow_spaces_after_header_name_in_responses :
      ClientBuilder h u x k r → Bool → ClientBuilder h u x k r
  http1_allow_spaces_after_header_name_in_responses b value = record b {
    http1_allow_spaces_after_header_name_in_responses = value;
  }

  abbrev pub http1_only : ClientBuilder h u x k r → ClientBuilder h u x k r
  http1_only b = record b { http_version_pref = http1 }

  abbrev pub http09_responses : ClientBuilder h u x k r → ClientBuilder h u x k r
  http09_responses b = record b { http09_responses = true }

  abbrev pub http2_prior_knowledge : ClientBuilder h u x k r → ClientBuilder h u x k r
  http2_prior_knowledge b = record b { http_version_pref = http2 }

  abbrev pub http2_initial_stream_window_size :
      ClientBuilder h u x k r → Option ℕ → ClientBuilder h u x k r
  http2_initial_stream_window_size b size = record b { http2_initial_stream_window_size = size }

  abbrev pub http2_initial_connection_window_size :
      ClientBuilder h u x k r → Option ℕ → ClientBuilder h u x k r
  http2_initial_connection_window_size b size = record b {
    http2_initial_connection_window_size = size;
  }

  abbrev pub http2_adaptive_window : ClientBuilder h u x k r → Bool → ClientBuilder h u x k r
  http2_adaptive_window b enabled = record b { http2_adaptive_window = enabled }

  abbrev pub http2_max_frame_size : ClientBuilder h u x k r → Option ℕ → ClientBuilder h u x k r
  http2_max_frame_size b size = record b { http2_max_frame_size = size }

  abbrev pub http2_max_header_list_size : ClientBuilder h u x k r → ℕ → ClientBuilder h u x k r
  http2_max_header_list_size b size = record b { http2_max_header_list_size = some size }

  abbrev pub http2_keep_alive_interval :
      ClientBuilder h u x k r → Option ℕ → ClientBuilder h u x k r
  http2_keep_alive_interval b interval = record b { http2_keep_alive_interval = interval }

  abbrev pub http2_keep_alive_timeout : ClientBuilder h u x k r → ℕ → ClientBuilder h u x k r
  http2_keep_alive_timeout b duration = record b { http2_keep_alive_timeout = some duration }

  abbrev pub http2_keep_alive_while_idle : ClientBuilder h u x k r → Bool → ClientBuilder h u x k r
  http2_keep_alive_while_idle b enabled = record b { http2_keep_alive_while_idle = enabled }

  abbrev pub tcp_nodelay : ClientBuilder h u x k r → Bool → ClientBuilder h u x k r
  tcp_nodelay b enabled = record b { nodelay = enabled }

  abbrev pub local_address : ClientBuilder h u x k r → Option String → ClientBuilder h u x k r
  local_address b addr = record b { local_address = addr }

  abbrev pub interface : ClientBuilder h u x k r → String → ClientBuilder h u x k r
  interface b name = record b { interface = some name }

  abbrev pub tcp_keepalive : ClientBuilder h u x k r → Option ℕ → ClientBuilder h u x k r
  tcp_keepalive b val = record b { tcp_keepalive = val }

  abbrev pub tcp_keepalive_interval : ClientBuilder h u x k r → Option ℕ → ClientBuilder h u x k r
  tcp_keepalive_interval b val = record b { tcp_keepalive_interval = val }

  abbrev pub tcp_keepalive_retries : ClientBuilder h u x k r → Option ℕ → ClientBuilder h u x k r
  tcp_keepalive_retries b retries = record b { tcp_keepalive_retries = retries }

  abbrev pub tcp_user_timeout : ClientBuilder h u x k r → Option ℕ → ClientBuilder h u x k r
  tcp_user_timeout b val = record b { tcp_user_timeout = val }

  abbrev pub unix_socket : ClientBuilder h u x k r → String → ClientBuilder h u x k r
  unix_socket b path = record b { unix_socket = some path }

-- ===== src/ClientBuilder/Options.antt =====
-- src/async_impl/client.rs, `ClientBuilder`: headers, cookies, decoding, redirects, retries, proxies
-- and timeouts.
use reqwest.Prelude.{
  ℕ, Bool, true, false, none, some, [], ◌∷◌, ◌++◌, Result, ok, err, if◌then◌else◌,
}
use reqwest.Http.{Headers, Urls}
use reqwest.Error.{Source, builder_error}
use reqwest.Proxy.{Matchers, Proxy, into_matcher}
use reqwest.Redirect.Policy.{PolicyKind}
use reqwest.IntoUrl.{Given, as_str, into_url}
use reqwest.Tls.{Rustls}
use reqwest.Client.{insert_all}
use reqwest.ClientBuilder.{ClientBuilder, Kept}

module _ {h : Headers} {u : Urls} {x : Matchers h u} {k : Kept} {r : Rustls u.Url} where
  unfoldable pub base_url : ClientBuilder h u x k r → Given u → ClientBuilder h u x k r
  base_url b given = elim (into_url u given) [
    | err e ↦ record b { error = some e; base_url = some (as_str u given) }
    | ok parsed ↦ record b { base_url = some (as_str u given) }
  ]

  -- With what `try_into` gives.
  unfoldable pub user_agent :
      ClientBuilder h u x k r → Result h.HeaderValue (Source u.Url) → ClientBuilder h u x k r
  user_agent b (ok value) = record b { headers = h.insert b.headers "user-agent" value }
  user_agent b (err e) = record b { error = some (builder_error e) }

  abbrev pub no_user_agent : ClientBuilder h u x k r → ClientBuilder h u x k r
  no_user_agent b = record b { headers = h.remove b.headers "user-agent" }

  abbrev pub default_headers : ClientBuilder h u x k r → h.HeaderMap → ClientBuilder h u x k r
  default_headers b more = record b { headers = insert_all h b.headers (h.iter more) }

  abbrev pub cookie_provider : ClientBuilder h u x k r → k.CookieStore → ClientBuilder h u x k r
  cookie_provider b store = record b { cookie_store = some store }

  abbrev pub redirect : ClientBuilder h u x k r → PolicyKind u.Url → ClientBuilder h u x k r
  redirect b policy = record b { redirect_policy = policy }

  abbrev pub referer : ClientBuilder h u x k r → Bool → ClientBuilder h u x k r
  referer b enable = record b { referer = enable }

  abbrev pub retry : ClientBuilder h u x k r → k.RetryBuilder → ClientBuilder h u x k r
  retry b policy = record b { retry_policy = policy }

  abbrev pub middleware : ClientBuilder h u x k r → k.Middleware → ClientBuilder h u x k r
  middleware b m = record b { middleware = b.middleware ++ m ∷ [] }

  abbrev pub request_logger : ClientBuilder h u x k r → k.Logger → ClientBuilder h u x k r
  request_logger b logger = record b { request_logger = some logger }

  abbrev pub proxy : ClientBuilder h u x k r → Proxy h u → ClientBuilder h u x k r
  proxy b p = record b { proxies = b.proxies ++ into_matcher p ∷ []; auto_env_proxy = false }

  abbrev pub env_config_proxy : ClientBuilder h u x k r → ClientBuilder h u x k r
  env_config_proxy b = record b { auto_env_proxy = true }

  abbrev pub no_proxy : ClientBuilder h u x k r → ClientBuilder h u x k r
  no_proxy b = record b { proxies = []; auto_env_proxy = false }

  abbrev pub timeout : ClientBuilder h u x k r → ℕ → ClientBuilder h u x k r
  timeout b duration = record b { timeout = some duration }

  abbrev pub read_timeout : ClientBuilder h u x k r → ℕ → ClientBuilder h u x k r
  read_timeout b duration = record b { read_timeout = some duration }

  abbrev pub connect_timeout : ClientBuilder h u x k r → ℕ → ClientBuilder h u x k r
  connect_timeout b duration = record b { connect_timeout = some duration }

  abbrev pub connection_verbose : ClientBuilder h u x k r → Bool → ClientBuilder h u x k r
  connection_verbose b verbose = record b { connection_verbose = verbose }

  abbrev pub https_only : ClientBuilder h u x k r → Bool → ClientBuilder h u x k r
  https_only b enabled = record b { https_only = enabled }

  abbrev pub connector_layer : ClientBuilder h u x k r → k.Layer → ClientBuilder h u x k r
  connector_layer b layer = record b { connector_layers = b.connector_layers ++ layer ∷ [] }

  abbrev pub gzip : ClientBuilder h u x k r → Bool → ClientBuilder h u x k r
  gzip b enable = record b { accepts = record b.accepts { gzip = enable } }

  abbrev pub brotli : ClientBuilder h u x k r → Bool → ClientBuilder h u x k r
  brotli b enable = record b { accepts = record b.accepts { brotli = enable } }

  abbrev pub zstd : ClientBuilder h u x k r → Bool → ClientBuilder h u x k r
  zstd b enable = record b { accepts = record b.accepts { zstd = enable } }

  abbrev pub deflate : ClientBuilder h u x k r → Bool → ClientBuilder h u x k r
  deflate b enable = record b { accepts = record b.accepts { deflate = enable } }

  unfoldable pub cookie_store : ClientBuilder h u x k r → Bool → ClientBuilder h u x k r
  cookie_store b enable =
      if enable then cookie_provider b k.default_jar else record b { cookie_store = none }

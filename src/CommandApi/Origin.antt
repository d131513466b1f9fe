-- ===== src/CommandApi/Origin.antt =====
-- `allowedOriginForRequest` and `clientRateKey` of internal/app/commandapi/http.go. What `net/url` and
-- `net` make of a text comes as `Net`.
use todo_1m.Prelude.{
  String, Bool, false, not, ◌&&◌, ◌||◌, Option, none, some, if◌then◌else◌, ◌==◌, trim_space,
  to_lower, equal_fold,
}
use todo_1m.Platform.Auth.{cut}

pub record Url : Type 0 where
  pub scheme : String
  pub hostname : String
  pub port : String

pub record Net : Type 0 where
  -- `url.Parse`, with `Hostname()` and `Port()` of the result
  pub parse_url : String → Option Url
  -- the host of `net.SplitHostPort`
  pub split_host : String → Option String

unfoldable pub is_loopback_host : String → Bool
is_loopback_host host =
    let h = to_lower (trim_space host) in (h == "localhost") || (h == "127.0.0.1") || (h == "::1")

abbrev pub equivalent_urls : Option Url → Option Url → Bool
equivalent_urls none _ = false
equivalent_urls (some a) none = false
equivalent_urls (some a) (some b) =
    is_loopback_host a.hostname
    && is_loopback_host b.hostname
    && a.port == b.port
    && equal_fold a.scheme b.scheme

module _ (net : Net) where
  unfoldable pub is_equivalent_loopback_origin : String → String → Bool
  is_equivalent_loopback_origin a b = equivalent_urls (net.parse_url a) (net.parse_url b)

  -- The configured origin, then the one that the request names.
  unfoldable pub allowed_origin_for_request : String → String → String
  unfolding is_equivalent_loopback_origin
  allowed_origin_for_request configured request_origin =
      let allowed = trim_space configured in
      let origin = trim_space request_origin in
      if allowed == ""
      then "*"
      else if allowed == "*"
      then allowed
      else if origin == ""
      then allowed
      else if origin == allowed
      then origin
      else if is_equivalent_loopback_origin origin allowed
      then origin
      else allowed

  abbrev host_or : String → Option String → String
  host_or addr none = addr
  host_or addr (some host) = if host == "" then addr else host

  -- `clientRateKey` of the headers X-Forwarded-For and X-Real-IP and the address of the peer.
  unfoldable pub client_rate_key : String → String → String → String
  unfolding cut
  client_rate_key forwarded real_ip remote_addr =
      let fwd = trim_space forwarded in
      let real = trim_space real_ip in
      let addr = trim_space remote_addr in
      if not (fwd == "")
      then elim (cut b',' fwd) [ none ↦ fwd | some (first, rest) ↦ trim_space first ]
      else if not (real == "")
      then real
      else host_or addr (net.split_host addr)

-- ===== src/Ingress/Prepare.antt =====
-- src/ingress.rs, `prepare`: the headers that only the runner sets, and the route of a request.
use mathlib.Core.Option
use openworkers_runner.Common.{
  Bool, List, Option, String, [], false, get_or, if◌then◌else◌, nat_eq, none, not, option_eq, some,
  string_eq, true, ℕ, ◌*◌, ◌==◌, ◌∷◌,
}
use openworkers_runner.Common.Lists.{any, contains}
use openworkers_runner.Common.Text.{
  is_empty_text, split_once, strip_prefix, to_ascii_lowercase, trim_end_matches,
}
use openworkers_runner.NetGuard.Addresses.{IpAddr, to_ipv4_mapped, v4, v6}
use openworkers_runner.Ingress.Headers.{HeaderMap, first}
use openworkers_runner.Ingress.Names.{first_of, scanner_probe, worker_route, worker_upload}

abbrev pub runner_headers : List String
runner_headers =
    "x-worker-id" ∷ "x-worker-name" ∷ "x-openworkers-internal" ∷ "x-openworkers-depth"
    ∷ "x-request-id" ∷ "forwarded" ∷ "x-forwarded-for" ∷ "x-forwarded-host" ∷ "x-forwarded-port"
    ∷ "x-forwarded-proto" ∷ "x-real-ip" ∷ "cf-connecting-ip" ∷ []

pub data Peer : Type 0 where
  tcp : IpAddr → Peer
  unix : Peer

-- `Peer::ip`.
abbrev pub ip : Peer → Option IpAddr
ip (tcp addr) = some addr
ip unix = none

-- `IpAddr::to_canonical` of Rust's std::net.
abbrev pub to_canonical : IpAddr → IpAddr
to_canonical (v4 addr) = v4 addr
to_canonical (v6 addr) = get_or (Option.map v4 (to_ipv4_mapped addr)) (v6 addr)

-- The parts of `Config` that `prepare` reads, with networks of a type of crate ipnet.
pub record Config (Net : Type 0) : Type 0 where
  pub dashboard_hosts : List String
  pub api_worker : String
  pub worker_domains : List String
  pub allowlist : Option (List Net)
  pub client_ip_header : Option String

-- What the crates answer: an authority that is a header value, the host of a Host header, a
-- trimmed address, an address as a text, a UUID, an address in a network.
pub record Crates (Net : Type 0) : Type 0 where
  pub is_header_value : String → Bool
  pub parse_host : String → Option String
  pub parse_ip : String → Option IpAddr
  pub show_ip : IpAddr → String
  pub is_uuid : String → Bool
  pub contains_ip : Net → IpAddr → Bool
  pub decode : String → String

pub data Stream : Type 0 where
  sse websocket : Stream

pub data Route : Type 0 where
  worker_route_of latency probe bad_host : Route
  logs : String → Stream → Route

-- src/logs.rs, `route`.
abbrev pub stream_of : String → Option Stream
stream_of endpoint =
    if endpoint == "logs" then some sse else if endpoint == "ws-logs" then some websocket else none

abbrev pub logs_of : (String → Bool) → Option (String × String) → Option (String × Stream)
logs_of is_uuid none = none
logs_of is_uuid (some (id, endpoint)) =
    if is_uuid id then Option.map (λ stream. (id, stream)) (stream_of endpoint) else none

abbrev pub after_prefix : Option String → Option (String × String)
after_prefix none = none
after_prefix (some rest) = split_once b'/' rest

unfoldable pub logs_route : (String → Bool) → String → Option (String × Stream)
logs_route is_uuid path = logs_of is_uuid (after_prefix (strip_prefix "/api/v1/workers/" path))

-- What an allowlisted proxy says of the client: its address, and whether it came over HTTPS.
pub record Forwarded : Type 0 where
  pub client : Option IpAddr
  pub https : Option Bool

abbrev pub nothing_forwarded : Forwarded
nothing_forwarded = record { client = none; https = none }

-- src/request_body.rs: UPLOAD_MAX_BODY_BYTES.
abbrev pub upload_max_body_bytes : ℕ
upload_max_body_bytes = 30 * 1024 * 1024

module _ (map : HeaderMap) {Net : Type 0} (crates : Crates Net) (config : Config Net) where
  -- The parts of a request that `prepare` reads and writes.
  pub record Request : Type 0 where
    pub headers : map.Store
    pub authority : Option String
    pub path : String
    pub body_limit : Option ℕ

  -- `allowed`, for the allowlist of the configuration.
  unfoldable pub allows : IpAddr → Bool
  allows peer = elim config.allowlist [
    | none ↦ true
    | some networks ↦ any (λ network. crates.contains_ip network (to_canonical peer)) networks
  ]

  abbrev pub trusted : Peer → Bool
  trusted (tcp addr) = allows addr
  trusted unix = true

  -- The client header, if it holds an address.
  abbrev pub client_in : Option String → Option IpAddr
  client_in none = none
  client_in (some value) = crates.parse_ip value

  abbrev pub https_in : Option String → Option Bool
  https_in none = none
  https_in (some value) =
      if value == "https" then some true else if value == "http" then some false else none

  abbrev pub forwarded_in : String → map.Store → Forwarded
  forwarded_in header headers = record {
    client = client_in (first (map.get_all header headers));
    https = https_in (first (map.get_all "x-forwarded-proto" headers));
  }

  unfoldable pub forwarded_by_proxy : map.Store → Peer → Forwarded
  unfolding allows
  forwarded_by_proxy headers peer = elim config.client_ip_header [
    | none ↦ nothing_forwarded
    | some header ↦ if not (trusted peer) then nothing_forwarded else forwarded_in header headers
  ]

  -- The target names the host before the Host header does.
  abbrev pub with_authority : Option String → map.Store → map.Store
  with_authority none headers = headers
  with_authority (some authority) headers =
      if crates.is_header_value authority then map.insert "host" authority headers else headers

  -- The loop over RUNNER_HEADERS.
  abbrev pub strip : List String → map.Store → map.Store
  strip [] headers = headers
  strip (name ∷ names) headers = strip names (map.remove name headers)

  abbrev pub scheme : Forwarded → Bool → String
  scheme forwarded tls = if get_or forwarded.https tls then "https" else "http"

  abbrev pub with_client : Option IpAddr → map.Store → map.Store
  with_client none headers = headers
  with_client (some client) headers =
      let value : String = crates.show_ip (to_canonical client) in
      map.insert "cf-connecting-ip" value
        (map.insert "x-forwarded-for" value (map.insert "x-real-ip" value headers))

  abbrev pub first_client : Forwarded → Peer → Option IpAddr
  first_client forwarded peer = first_of forwarded.client (ip peer)

  -- `host`: the Host header, without the final dots, in lowercase.
  abbrev pub host_of : Option String → Option String
  host_of none = none
  host_of (some parsed) =
      let host : String = to_ascii_lowercase (trim_end_matches b'.' parsed) in
      if is_empty_text host then none else some host

  abbrev pub parsed_host : Option String → Option String
  parsed_host none = none
  parsed_host (some value) = crates.parse_host value

  unfoldable pub host : map.Store → Option String
  host headers = host_of (parsed_host (first (map.get_all "host" headers)))

  -- A request for a host of the dashboard.
  abbrev pub dashboard : Option (String × Stream) → Request → Route × Request
  dashboard (some (id, stream)) request = (logs id stream, request)
  dashboard none request =
      if request.path == "/api/health/latency/proxy" then (latency, request) else (
        worker_route_of,
        record request {
          headers = map.insert "x-worker-name" config.api_worker request.headers;
          body_limit =
              if worker_upload request.path then some upload_max_body_bytes else request.body_limit;
        },
      )

  abbrev pub to_worker : Option (String × String) → Request → Route × Request
  to_worker none request = (worker_route_of, request)
  to_worker (some (header, name)) request =
      (worker_route_of, record request { headers = map.insert header name request.headers })

  -- From the host on.
  unfoldable pub route : Option String → Request → Route × Request
  unfolding worker_route logs_route
  route none request = (bad_host, request)
  route (some host) request =
      let request' : Request = record request {
        headers = map.insert "x-forwarded-host" host request.headers;
      } in
      if scanner_probe (to_ascii_lowercase (crates.decode request'.path))
      then (probe, request')
      else if contains host config.dashboard_hosts
      then dashboard (logs_route crates.is_uuid request'.path) request'
      else to_worker (worker_route crates.is_uuid host config.worker_domains) request'

  -- The headers before the route, with a new request id.
  unfoldable pub own_headers : String → map.Store → Peer → Bool → map.Store
  unfolding forwarded_by_proxy
  own_headers request_id headers peer tls =
      let forwarded : Forwarded = forwarded_by_proxy headers peer in
      with_client (first_client forwarded peer) (
        map.insert "x-forwarded-proto" (scheme forwarded tls)
          (map.insert "x-request-id" request_id (strip runner_headers headers)))

  unfoldable pub prepare : String → Request → Peer → Bool → Route × Request
  unfolding own_headers route host
  prepare request_id request peer tls =
      let headers : map.Store =
        own_headers request_id (with_authority request.authority request.headers) peer tls in
      route (host headers) (record request { headers = headers; authority = none })

-- ===== src/Ingress/Tests.antt =====
-- Requests of the tests of src/ingress.rs, and what the theorems say of some.
use openworkers_runner.Common.{
  Bool, List, Option, String, [], false, if◌then◌else◌, inr, map, nat_eq, none, ok, option_eq, refl,
  some, string_eq, true, ℕ, ◌==◌, ◌∷◌, ◌≡◌,
}
use openworkers_runner.Common.Maps
use openworkers_runner.Common.Text.{
  contains_code, is_empty_text, split, strip_prefix, strip_suffix, trim_end_matches,
}
use openworkers_runner.NetGuard.Addresses.{IpAddr, v4, v6}
use openworkers_runner.Ingress.Headers.{value_lists, value_lists-HeaderLaws}
use openworkers_runner.Ingress.Names.{
  named, scanner_probe, under_domain, worker_route, worker_upload,
}
use openworkers_runner.Ingress.Prepare.{
  Config, Crates, Request, Route, allows, forwarded_by_proxy, host, logs_route, own_headers,
  prepare, route, tcp, worker_route_of,
}
use openworkers_runner.Ingress.Config.{
  Answers, Settings, addr_of, allowlist_of, client_cert_of, client_ip_header_of, from_vars,
  https_addr_of, internal_port_of, list, listeners_of, socket_has_tls, tls_of, unix_path,
}
use openworkers_runner.Ingress.Config.Accepted.{Accepted, from_vars_lem}
use openworkers_runner.Ingress.Routes.{IsUnder, worker_route_lem}
use openworkers_runner.Ingress.Trust.{prepare_lem, prepare_untrusted}

abbrev uploads : Bool × Bool × Bool
uploads = (
  worker_upload "/api/v1/workers/w1/upload",
  worker_upload "/api/v1/workers//upload",
  worker_upload "/api/v1/workers/a/b/upload",
)

only_the_upload_path : uploads ≡ (true, false, false)
unfolding worker_upload strip_prefix strip_suffix
only_the_upload_path = refl

probes_of : List String → List Bool
unfolding scanner_probe split strip_prefix strip_suffix
probes_of paths = map scanner_probe paths

finds_the_probes :
    probes_of (
      "/.env" ∷ "/app/.git/config" ∷ "/.env.local" ∷ "/wp-login.php" ∷ "/x.php7" ∷ "/id_rsa.pub"
      ∷ "/etc/passwd" ∷ "/" ∷ "/php" ∷ "/.well-known/acme" ∷ "/blog/etc/passwd" ∷ "/a.phps" ∷ [])
    ≡ true ∷ true ∷ true ∷ true ∷ true ∷ true ∷ true ∷ false ∷ false ∷ false ∷ false ∷ false ∷ []
unfolding probes_of
finds_the_probes = refl

reads_lists : list (some " A.example. ,,b") "" ≡ "a.example" ∷ "b" ∷ []
unfolding list
reads_lists = refl

-- A network is the first octet of its IPv4 addresses; an id starts with a digit.
abbrev in_octet : ℕ → IpAddr → Bool
in_octet octet (v4 addr) = addr.a == octet
in_octet octet (v6 addr) = false

abbrev sample : Crates ℕ
sample = record {
  is_header_value = λ s. true;
  parse_host = λ s. some s;
  parse_ip = λ s. none;
  show_ip = λ addr. "client";
  is_uuid = λ s. s == "0f";
  contains_ip = in_octet;
  decode = λ s. s;
}

abbrev settings : Config ℕ
settings = record {
  dashboard_hosts = "dash.test" ∷ [];
  api_worker = "api";
  worker_domains = "workers.test" ∷ [];
  allowlist = some (10 ∷ []);
  client_ip_header = some "x-client";
}

-- A client that forges what only the runner sets.
abbrev forged : Request value_lists sample settings
forged = record {
  headers =
      ("host", "Mine.workers.test." ∷ [])
      ∷ ("x-openworkers-internal", "1" ∷ [])
      ∷ ("x-worker-name", "other" ∷ [])
      ∷ ("x-real-ip", "127.0.0.1" ∷ [])
      ∷ [];
  authority = none;
  path = "/a";
  body_limit = none;
}

abbrev outside : IpAddr
outside = v4 (record { a = 8; b = 8; c = 8; d = 8 })

prepared : String → List String × Route
unfolding prepare own_headers route host forwarded_by_proxy allows worker_route named under_domain
    scanner_probe split strip_prefix strip_suffix logs_route Maps.lookup Maps.insert Maps.remove
    trim_end_matches
prepared name =
    let (to, request) = prepare value_lists sample settings "id" forged (tcp outside) true in
    (value_lists.get_all name request.headers, to)

the_host_names_the_worker : prepared "x-worker-name" ≡ ("mine" ∷ [], worker_route_of)
unfolding prepared
the_host_names_the_worker = refl

prepare_lem_example :
    let headers : value_lists.Store =
      (prepare value_lists sample settings "id" forged (tcp outside) true).1.headers in
    (value_lists.get_all "x-openworkers-internal" headers ≡ [])
    × (value_lists.get_all "x-openworkers-depth" headers ≡ [])
    × (value_lists.get_all "forwarded" headers ≡ [])
    × (value_lists.get_all "x-forwarded-port" headers ≡ [])
prepare_lem_example =
    prepare_lem value_lists sample settings value_lists-HeaderLaws "id" forged (tcp outside) true

outside_is_refused : allows value_lists sample settings outside ≡ false
unfolding allows
outside_is_refused = refl

prepare_untrusted_example :
    let headers : value_lists.Store =
      (prepare value_lists sample settings "id" forged (tcp outside) true).1.headers in
    (value_lists.get_all "x-real-ip" headers ≡ "client" ∷ [])
    × (value_lists.get_all "x-forwarded-for" headers ≡ "client" ∷ [])
    × (value_lists.get_all "cf-connecting-ip" headers ≡ "client" ∷ [])
    × (value_lists.get_all "x-forwarded-proto" headers ≡ "https" ∷ [])
    × (value_lists.get_all "x-request-id" headers ≡ "id" ∷ [])
prepare_untrusted_example =
    prepare_untrusted value_lists sample settings value_lists-HeaderLaws "id" forged outside true
      (inr outside_is_refused)

worker_route_lem_example :
    let header : String = "x-worker-id" in
    IsUnder "0f" "0f.workers.test" ("other.test" ∷ "workers.test" ∷ [])
    × (is_empty_text "0f" ≡ false)
    × (contains_code b'.' "0f" ≡ false)
    × (header ≡ (if sample.is_uuid "0f" then "x-worker-id" else "x-worker-name"))
unfolding worker_route under_domain named strip_suffix
worker_route_lem_example =
    worker_route_lem sample.is_uuid "0f.workers.test" ("other.test" ∷ "workers.test" ∷ [])
      "x-worker-id" "0f" refl

-- A server with a socket and TLS.
abbrev replies : Answers ℕ Unit
replies = record {
  parse_count = λ s. some 2;
  parse_port = λ s. some 9000;
  is_addr = λ s. true;
  is_header_name = λ s. true;
  read_allowlist = λ s. some (10 ∷ []);
  tls_config = λ certificate key ca. some tt;
  available_parallelism = none;
}

abbrev variables : String → Option String
variables name =
    if name == "HTTPS_SOCKET"
    then some "/run/s"
    else if name == "HTTP_TLS_CERTIFICATE"
    then some "/c"
    else if name == "HTTP_TLS_KEY"
    then some "/k"
    else none

abbrev served : Settings replies
served = record {
  internal_port = 8080;
  http_addr = "0.0.0.0:8081";
  https_addr = unix_path "/run/s";
  listeners = 4;
  allowlist = none;
  client_ip_header = none;
  tls = some tt;
  client_cert = none;
  dashboard_hosts =
      "dash.openworkers.com" ∷ "dash.openworkers.dev" ∷ "dash.dev.localhost" ∷ "dash.dev.kube" ∷ [];
  api_worker = "openworkers-api";
  worker_domains = [];
}

it_is_served : from_vars replies variables ≡ ok served
unfolding from_vars listeners_of allowlist_of client_ip_header_of https_addr_of addr_of
    client_cert_of tls_of socket_has_tls internal_port_of
it_is_served = refl

from_vars_lem_example : Accepted replies variables served
from_vars_lem_example = from_vars_lem replies variables served it_is_served

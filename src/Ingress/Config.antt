-- ===== src/Ingress/Config.antt =====
-- src/ingress.rs, `Config::from_vars`: which settings are accepted. Parsers, files and rustls are
-- parameters; an error is named, and its text is left out.
pub mod Accepted
use mathlib.Core.Option
use mathlib.Core.List
use openworkers_runner.Common.{
  Bool, List, Option, Result, String, err, false, get_or, if◌then◌else◌, ltb, map, nat_eq, none,
  not, ok, option_eq, some, string_eq, true, ℕ, ◌==◌,
}
use openworkers_runner.Common.Lists.{filter}
use openworkers_runner.Common.Text.{
  is_empty_text, split, to_ascii_lowercase, trim, trim_end_matches,
}
use openworkers_runner.Ingress.Prepare.{Config}

pub data ClientCertMode : Type 0 where
  require log : ClientCertMode

pub data HttpsAddr : Type 0 where
  tcp_addr : String → HttpsAddr
  unix_path : String → HttpsAddr

pub data ConfigError : Type 0 where
  not_a_count not_a_port not_an_address bad_allowlist : ConfigError
  header_without_allowlist not_a_header_name both_https_addrs : ConfigError
  mode_without_ca unknown_mode ca_without_tls half_a_tls_pair bad_tls socket_without_tls :
      ConfigError

abbrev pub and_then {ℓ κ μ} :
    {A : Type ℓ} {B : Type κ} {E : Type μ} → Result A E → (A → Result B E) → Result B E
and_then (ok a) f = f a
and_then (err e) f = err e

-- `list`: the items between commas, without white space and final dots, in lowercase.
unfoldable pub list : Option String → String → List String
unfolding split trim trim_end_matches
list value default =
    filter (λ item. not (is_empty_text item))
      (map (λ item. to_ascii_lowercase (trim_end_matches b'.' (trim item)))
        (split b',' (get_or value default)))

-- What the crates and the system answer. `Tls` is rustls::ServerConfig.
pub record Answers (Net : Type 0) (Tls : Type 0) : Type 0 where
  pub parse_count : String → Option ℕ
  pub parse_port : String → Option ℕ
  pub is_addr : String → Bool
  pub is_header_name : String → Bool
  pub read_allowlist : String → Option (List Net)
  pub tls_config : String → String → Option String → Option Tls
  pub available_parallelism : Option ℕ

abbrev pub positive : ConfigError → Option ℕ → Result ℕ ConfigError
positive e none = err e
positive e (some n) = if ltb 0 n then ok n else err e

unfoldable pub client_cert_of :
    Option String → Option String → Result (Option ClientCertMode) ConfigError
client_cert_of none none = ok none
client_cert_of none (some mode) = err mode_without_ca
client_cert_of (some ca) none = ok (some require)
client_cert_of (some ca) (some mode) =
    if mode == "require"
    then ok (some require)
    else if mode == "log"
    then ok (some log)
    else err unknown_mode

module _ {Net : Type 0} {Tls : Type 0} (answers : Answers Net Tls) where
  unfoldable pub listeners_of : Option String → Result ℕ ConfigError
  listeners_of (some value) = positive not_a_count (answers.parse_count value)
  listeners_of none = ok (get_or answers.available_parallelism 4)

  unfoldable pub allowlist_of : Option String → Result (Option (List Net)) ConfigError
  allowlist_of none = ok none
  allowlist_of (some path) = elim (answers.read_allowlist path) [
    | none ↦ err bad_allowlist
    | some networks ↦ ok (some networks)
  ]

  unfoldable pub client_ip_header_of :
      Option (List Net) → Option String → Result (Option String) ConfigError
  client_ip_header_of allowlist none = ok none
  client_ip_header_of none (some name) = err header_without_allowlist
  client_ip_header_of (some networks) (some name) =
      if answers.is_header_name name then ok (some name) else err not_a_header_name

  unfoldable pub addr_of : Option String → String → Result String ConfigError
  addr_of value default =
      if answers.is_addr (get_or value default)
      then ok (get_or value default)
      else err not_an_address

  abbrev pub as_tcp : Result String ConfigError → Result HttpsAddr ConfigError
  as_tcp (ok addr) = ok (tcp_addr addr)
  as_tcp (err e) = err e

  unfoldable pub https_addr_of : Option String → Option String → Result HttpsAddr ConfigError
  unfolding addr_of
  https_addr_of (some addr) (some path) = err both_https_addrs
  https_addr_of none (some path) = ok (unix_path path)
  https_addr_of addr none = as_tcp (addr_of addr "0.0.0.0:8443")

  unfoldable pub tls_of :
      Option String → Option String → Option String → Result (Option Tls) ConfigError
  tls_of (some ca) none none = err ca_without_tls
  tls_of none none none = ok none
  tls_of ca (some certificate) (some key) = elim (answers.tls_config certificate key ca) [
    | none ↦ err bad_tls
    | some tls ↦ ok (some tls)
  ]
  tls_of ca (some certificate) none = err half_a_tls_pair
  tls_of ca none (some key) = err half_a_tls_pair

  -- The check on HTTPS_SOCKET.
  unfoldable pub socket_has_tls : HttpsAddr → Option Tls → Result (Option Tls) ConfigError
  socket_has_tls (unix_path path) none = err socket_without_tls
  socket_has_tls addr tls = ok tls

  unfoldable pub internal_port_of : Option String → Result ℕ ConfigError
  internal_port_of none = ok 8080
  internal_port_of (some value) = positive not_a_port (answers.parse_port value)

  pub record Settings : Type 0 where
    pub internal_port : ℕ
    pub http_addr : String
    pub https_addr : HttpsAddr
    pub listeners : ℕ
    pub allowlist : Option (List Net)
    pub client_ip_header : Option String
    pub tls : Option Tls
    pub client_cert : Option ClientCertMode
    pub dashboard_hosts : List String
    pub api_worker : String
    pub worker_domains : List String

  unfoldable pub from_vars : (String → Option String) → Result Settings ConfigError
  unfolding list
  from_vars var = and_then (listeners_of (var "HTTP_LISTENERS")) (λ listeners.
      and_then (allowlist_of (var "INBOUND_ALLOWLIST_FILE")) (λ allowlist.
        and_then (client_ip_header_of allowlist (var "CLIENT_IP_HEADER")) (λ client_ip_header.
          and_then (https_addr_of (var "HTTPS_ADDR") (var "HTTPS_SOCKET")) (λ https_addr.
            and_then (client_cert_of (var "HTTPS_CLIENT_CA_FILE") (var "HTTPS_CLIENT_CERT_MODE"))
              (λ client_cert.
                and_then
                  (tls_of (var "HTTPS_CLIENT_CA_FILE") (var "HTTP_TLS_CERTIFICATE")
                    (var "HTTP_TLS_KEY"))
                  (λ read_tls. and_then (socket_has_tls https_addr read_tls) (λ tls.
                    and_then (internal_port_of (var "INTERNAL_PORT")) (λ internal_port.
                      and_then (addr_of (var "HTTP_ADDR") "0.0.0.0:8081") (λ http_addr. ok (record {
                        internal_port = internal_port;
                        http_addr = http_addr;
                        https_addr = https_addr;
                        listeners = listeners;
                        allowlist = allowlist;
                        client_ip_header = client_ip_header;
                        tls = tls;
                        client_cert = client_cert;
                        dashboard_hosts =
                            list (var "DASHBOARD_HOSTS")
                              "dash.openworkers.com,dash.openworkers.dev,dash.dev.localhost,dash.dev.kube";
                        worker_domains = list (var "WORKER_DOMAINS") "";
                        api_worker = get_or (var "API_WORKER_NAME") "openworkers-api";
                      }))))))))))

  -- The parts that `prepare` reads.
  abbrev pub config_of : Settings → Config Net
  config_of s = record {
    dashboard_hosts = s.dashboard_hosts;
    api_worker = s.api_worker;
    worker_domains = s.worker_domains;
    allowlist = s.allowlist;
    client_ip_header = s.client_ip_header;
  }

-- `client_cert_allowed`, on whether the connection has a certificate.
unfoldable pub client_cert_allowed : Option ClientCertMode → Bool → Bool
client_cert_allowed none has_cert = true
client_cert_allowed (some mode) true = true
client_cert_allowed (some require) false = false
client_cert_allowed (some log) false = true

-- ===== src/Ingress/Trust.antt =====
-- src/ingress.rs: what a client cannot set.
use openworkers_runner.Common.{
  Bool, Bool-cases, List, Option, Option-cases, String, [], false, if◌then◌else◌, inl, inr, nat_eq,
  none, option_eq, refl, some, string_eq, true, ◌==◌, ◌||◌, ◌∙◌, ◌∷◌, ◌≡◌, ◌⊎◌,
}
use openworkers_runner.Common.Lists.{contains}
use openworkers_runner.Common.Text.{contains_code, is_empty_text, to_ascii_lowercase}
use openworkers_runner.NetGuard.Addresses.{IpAddr}
use openworkers_runner.Ingress.Headers.{HeaderLaws, HeaderMap}
use openworkers_runner.Ingress.Names.{named, scanner_probe, under_domain, worker_route}
use openworkers_runner.Ingress.Prepare.{
  Config, Crates, Peer, Request, Route, Stream, allows, dashboard, forwarded_by_proxy, host,
  logs_route, nothing_forwarded, own_headers, prepare, probe, route, runner_headers, strip, tcp,
  to_canonical, to_worker, with_authority, with_client,
}

module _ (map : HeaderMap) {Net : Type 0} (crates : Crates Net) (config : Config Net)
    (laws : HeaderLaws map) where
  -- Another name than the ones that `route` writes.
  abbrev pub Unrouted : String → Type 0
  Unrouted name =
      (("x-forwarded-host" == name) ≡ false)
      × (("x-worker-name" == name) ≡ false)
      × (("x-worker-id" == name) ≡ false)

  insert_other :
      (other name value : String) (s : map.Store)
      → (other == name) ≡ false
      → map.get_all name (map.insert other value s) ≡ map.get_all name s
  insert_other other name value s e = laws.get_insert other name value s ∙ rw e refl

  dashboard_lem :
      (name : String) (stream : Option (String × Stream)) (r : Request map crates config)
      → Unrouted name
      → map.get_all name (dashboard map crates config stream r).1.headers
        ≡ map.get_all name r.headers
  dashboard_lem name (some (id, stream)) r u = refl
  dashboard_lem name none r u = elim (Bool-cases (r.path == "/api/health/latency/proxy")) [
    | inl hit ↦ rw hit refl
    | inr miss ↦ rw miss (insert_other "x-worker-name" name config.api_worker r.headers u.1)
  ]

  named_lem :
      (name : String) (under : Option String) (r : Request map crates config)
      → Unrouted name
      → map.get_all name (to_worker map crates config (named crates.is_uuid under) r).1.headers
        ≡ map.get_all name r.headers
  unfolding named
  named_lem name none r u = refl
  named_lem name (some label) r u =
      elim (Bool-cases (is_empty_text label || contains_code b'.' label)) [
        | inl bad ↦ rw bad refl
        | inr good ↦ elim (Bool-cases (crates.is_uuid label)) [
          | inl hit ↦ rw (good, hit) (insert_other "x-worker-id" name label r.headers u.2)
          | inr miss ↦ rw (good, miss) (insert_other "x-worker-name" name label r.headers u.1)
        ]
      ]

  either :
      (name : String) (b : Bool) (x y : Route × Request map crates config) (values : List String)
      → map.get_all name x.1.headers ≡ values
      → map.get_all name y.1.headers ≡ values
      → map.get_all name (if b then x else y).1.headers ≡ values
  either name true x y values p q = p
  either name false x y values p q = q

  -- `route` writes no other name.
  route_lem :
      (name : String) (found : Option String) (r : Request map crates config)
      → Unrouted name
      → map.get_all name (route map crates config found r).1.headers ≡ map.get_all name r.headers
  unfolding route worker_route
  route_lem name none r u = refl
  route_lem name (some host_name) r u =
      let r' : Request map crates config = record r {
        headers = map.insert "x-forwarded-host" host_name r.headers;
      } in
      let written : map.get_all name r'.headers ≡ map.get_all name r.headers =
        insert_other "x-forwarded-host" name host_name r.headers u.0 in
      either name (scanner_probe (to_ascii_lowercase (crates.decode r.path))) (probe, r') _ _
        written
        (either name (contains host_name config.dashboard_hosts)
          (dashboard map crates config (logs_route crates.is_uuid r.path) r')
          (to_worker map crates config
            (named crates.is_uuid (under_domain host_name config.worker_domains)) r')
          _ (dashboard_lem name (logs_route crates.is_uuid r.path) r' u ∙ written)
          (named_lem name (under_domain host_name config.worker_domains) r' u ∙ written))

  -- Another name than the ones that `own_headers` writes.
  abbrev pub Unowned : String → Type 0
  Unowned name =
      (("x-request-id" == name) ≡ false)
      × (("x-forwarded-proto" == name) ≡ false)
      × (("x-real-ip" == name) ≡ false)
      × (("x-forwarded-for" == name) ≡ false)
      × (("cf-connecting-ip" == name) ≡ false)

  client_lem :
      (name : String) (client : Option IpAddr) (s : map.Store)
      → Unowned name
      → map.get_all name (with_client map crates config client s) ≡ map.get_all name s
  client_lem name none s u = refl
  client_lem name (some client) s u =
      insert_other "cf-connecting-ip" name _ _ u.4
      ∙ insert_other "x-forwarded-for" name _ _ u.3
      ∙ insert_other "x-real-ip" name _ s u.2

  pub own_headers_lem :
      (name request_id : String) (s : map.Store) (peer : Peer) (tls : Bool)
      → Unowned name
      → map.get_all name (own_headers map crates config request_id s peer tls)
        ≡ map.get_all name (strip map crates config runner_headers s)
  unfolding own_headers
  own_headers_lem name request_id s peer tls u =
      client_lem name _ _ u
      ∙ insert_other "x-forwarded-proto" name _ _ u.1
      ∙ insert_other "x-request-id" name _ _ u.0

  -- A header that is stripped, and that neither part of `prepare` writes.
  stripped_lem :
      (name request_id : String) (request : Request map crates config) (peer : Peer) (tls : Bool)
      → Unrouted name
      → Unowned name
      → ((s : map.Store) → map.get_all name (strip map crates config runner_headers s) ≡ [])
      → map.get_all name (prepare map crates config request_id request peer tls).1.headers ≡ []
  unfolding prepare
  stripped_lem name request_id request peer tls u v gone =
      let s : map.Store = with_authority map crates config request.authority request.headers in
      let own : map.Store = own_headers map crates config request_id s peer tls in
      route_lem name (host map crates config own)
        (record request { headers = own; authority = none }) u
      ∙ own_headers_lem name request_id s peer tls v
      ∙ gone s

  -- A client, whoever it is, can never make a request look routed by the runner for a worker, nor
  -- give the depth of its calls, nor a Forwarded or X-Forwarded-Port header: after `prepare` these
  -- headers have no value, whatever the request and the peer.
  pub prepare_lem :
      (request_id : String) (request : Request map crates config) (peer : Peer) (tls : Bool)
      → let headers : map.Store =
          (prepare map crates config request_id request peer tls).1.headers in
        (map.get_all "x-openworkers-internal" headers ≡ [])
        × (map.get_all "x-openworkers-depth" headers ≡ [])
        × (map.get_all "forwarded" headers ≡ [])
        × (map.get_all "x-forwarded-port" headers ≡ [])
  prepare_lem request_id request peer tls = (
    stripped_lem "x-openworkers-internal" request_id request peer tls (refl, refl, refl)
        (refl, refl, refl, refl, refl) (λ s. simp (laws.get_remove)),
    stripped_lem "x-openworkers-depth" request_id request peer tls (refl, refl, refl)
        (refl, refl, refl, refl, refl) (λ s. simp (laws.get_remove)),
    stripped_lem "forwarded" request_id request peer tls (refl, refl, refl)
        (refl, refl, refl, refl, refl) (λ s. simp (laws.get_remove)),
    stripped_lem "x-forwarded-port" request_id request peer tls (refl, refl, refl)
        (refl, refl, refl, refl, refl) (λ s. simp (laws.get_remove)),
  )

  untrusted_lem :
      (addr : IpAddr) (s : map.Store)
      → (config.client_ip_header ≡ none) ⊎ (allows map crates config addr ≡ false)
      → forwarded_by_proxy map crates config s (tcp addr) ≡ nothing_forwarded
  unfolding forwarded_by_proxy
  untrusted_lem addr s (inl unset) = rw unset refl
  untrusted_lem addr s (inr refused) = elim (Option-cases config.client_ip_header) [
    | inl unset ↦ rw unset refl
    | inr (header, set) ↦ rw (set, refused) refl
  ]

  -- The address of a client that no allowlisted proxy stands for: where CLIENT_IP_HEADER is not
  -- set, or the allowlist does not have the TCP peer, a worker reads the address of the
  -- connection, in canonical form and once, in X-Real-IP, X-Forwarded-For and CF-Connecting-IP,
  -- the protocol of the connection in X-Forwarded-Proto, and a new request id, whatever the
  -- client sent in these headers.
  pub prepare_untrusted :
      (request_id : String) (request : Request map crates config) (addr : IpAddr) (tls : Bool)
      → (config.client_ip_header ≡ none) ⊎ (allows map crates config addr ≡ false)
      → let headers : map.Store =
          (prepare map crates config request_id request (tcp addr) tls).1.headers in
        let client : List String = crates.show_ip (to_canonical addr) ∷ [] in
        (map.get_all "x-real-ip" headers ≡ client)
        × (map.get_all "x-forwarded-for" headers ≡ client)
        × (map.get_all "cf-connecting-ip" headers ≡ client)
        × (map.get_all "x-forwarded-proto" headers ≡ (if tls then "https" else "http") ∷ [])
        × (map.get_all "x-request-id" headers ≡ request_id ∷ [])
  unfolding prepare own_headers
  prepare_untrusted request_id request addr tls untrusted =
      let s : map.Store = with_authority map crates config request.authority request.headers in
      let own : map.Store = own_headers map crates config request_id s (tcp addr) tls in
      let alone = untrusted_lem addr s untrusted in
      let routed = λ (name : String) (u : Unrouted name).
        route_lem name (host map crates config own)
          (record request { headers = own; authority = none }) u in
      (
        routed "x-real-ip" (refl, refl, refl) ∙ simp (alone, laws.get_insert),
        routed "x-forwarded-for" (refl, refl, refl) ∙ simp (alone, laws.get_insert),
        routed "cf-connecting-ip" (refl, refl, refl) ∙ simp (alone, laws.get_insert),
        routed "x-forwarded-proto" (refl, refl, refl) ∙ simp (alone, laws.get_insert),
        routed "x-request-id" (refl, refl, refl) ∙ simp (alone, laws.get_insert),
      )

-- ===== src/Ingress/Config/Accepted.antt =====
-- src/ingress.rs, `Config::from_vars`: what an accepted configuration has.
use mathlib.Core.Path.{subst, Path}
use openworkers_runner.Common.{
  List, Option, Result, String, arith, err, inl, inr, is_some, nat_eq, none, ok, option_eq, refl,
  some, string_eq, true, ℕ, ◌<◌, ◌≡◌, ◌⊎◌,
}
use openworkers_runner.Ingress.Config.{
  Answers, ClientCertMode, ConfigError, HttpsAddr, Settings, addr_of, allowlist_of, and_then,
  client_cert_of, client_ip_header_of, from_vars, https_addr_of, internal_port_of, listeners_of,
  not_a_port, positive, socket_has_tls, tcp_addr, tls_of, unix_path,
}

-- A property of every result, from the parts that succeed.
via :
    {A : Type 0} {B : Type 0} {E : Type 0} (P : B → Type 0) (b : B) (r : Result A E)
    (f : A → Result B E)
    → and_then r f ≡ ok b
    → ((a : A) → r ≡ ok a → f a ≡ ok b → P b)
    → P b
via P b (ok a) f e h = h a refl e
via P b (err x) f e h = absurd (ground arith)

result :
    {B : Type 0} {E : Type 0} (P : B → Type 0) (a b : B)
    → P a
    → Path (Result B E) (ok a) (ok b)
    → P b
result P a b p e = let same : a ≡ b = ground arith in subst P same p

positive_lem : (e : ConfigError) (o : Option ℕ) (n : ℕ) → positive e o ≡ ok n → 0 < n
positive_lem e none n h = absurd (ground arith)
positive_lem e (some m) n h = ground arith

client_cert_lem :
    (ca mode : Option String) (cert : Option ClientCertMode)
    → client_cert_of ca mode ≡ ok cert
    → is_some cert ≡ is_some ca
unfolding client_cert_of
client_cert_lem none none cert e = ground arith
client_cert_lem none (some m) cert e = ground arith
client_cert_lem (some ca) none cert e = ground arith
client_cert_lem (some ca) (some m) cert e = ground arith

module _ {Net : Type 0} {Tls : Type 0} (answers : Answers Net Tls) where
  client_ip_header_lem :
      (allowlist : Option (List Net)) (name header : Option String)
      → client_ip_header_of answers allowlist name ≡ ok header
      → (header ≡ none) ⊎ (is_some allowlist ≡ true)
  unfolding client_ip_header_of
  client_ip_header_lem allowlist none header e = inl (ground arith)
  client_ip_header_lem none (some name) header e = absurd (ground arith)
  client_ip_header_lem (some networks) (some name) header e = inr refl

  tls_lem :
      (ca certificate key : Option String) (tls : Option Tls)
      → tls_of answers ca certificate key ≡ ok tls
      → (ca ≡ none) ⊎ (is_some tls ≡ true)
  unfolding tls_of
  tls_lem none certificate key tls e = inl refl
  tls_lem (some ca) none none tls e = absurd (ground arith)
  tls_lem (some ca) (some certificate) none tls e = absurd (ground arith)
  tls_lem (some ca) none (some key) tls e = absurd (ground arith)
  tls_lem (some ca) (some certificate) (some key) tls e = inr (ground arith)

  socket_lem :
      (addr : HttpsAddr) (read tls : Option Tls)
      → socket_has_tls answers addr read ≡ ok tls
      → (tls ≡ read) × (((a : String) × (addr ≡ tcp_addr a)) ⊎ (is_some tls ≡ true))
  unfolding socket_has_tls
  socket_lem (tcp_addr a) none tls e = (ground arith, inl (a, refl))
  socket_lem (tcp_addr a) (some t) tls e = (ground arith, inl (a, refl))
  socket_lem (unix_path p) none tls e = absurd (ground arith)
  socket_lem (unix_path p) (some t) tls e = (ground arith, inr (ground arith))

  internal_port_lem :
      (value : Option String) (port : ℕ) → internal_port_of answers value ≡ ok port → 0 < port
  unfolding internal_port_of
  internal_port_lem none port e = ground arith
  internal_port_lem (some value) port e = positive_lem not_a_port (answers.parse_port value) port e

  client_cert_tls :
      (ca : Option String) (cert : Option ClientCertMode) (read tls : Option Tls)
      → is_some cert ≡ is_some ca
      → (ca ≡ none) ⊎ (is_some read ≡ true)
      → tls ≡ read
      → (cert ≡ none) ⊎ (is_some tls ≡ true)
  client_cert_tls ca none read tls same c e = inl refl
  client_cert_tls ca (some mode) read tls same (inl unset) e = ground arith
  client_cert_tls ca (some mode) read tls same (inr set) e = inr (rw e set)

  abbrev pub Accepted : (String → Option String) → Settings answers → Type 0
  Accepted var s =
      ((s.client_ip_header ≡ none) ⊎ (is_some s.allowlist ≡ true))
      × (((a : String) × (s.https_addr ≡ tcp_addr a)) ⊎ (is_some s.tls ≡ true))
      × ((s.client_cert ≡ none) ⊎ (is_some s.tls ≡ true))
      × (is_some s.client_cert ≡ is_some (var "HTTPS_CLIENT_CA_FILE"))
      × (0 < s.internal_port)

  -- Every configuration that is accepted is safe: a client header is trusted only with an
  -- allowlist, a Unix socket and the demand for client certificates come only with TLS, client
  -- certificates are asked for exactly where a CA is given, and the internal port is not 0.
  pub from_vars_lem :
      (var : String → Option String) (s : Settings answers)
      → from_vars answers var ≡ ok s
      → Accepted var s
  unfolding from_vars
  from_vars_lem var s e =
      let P : Settings answers → Type 0 = Accepted var in
      let ca : Option String = var "HTTPS_CLIENT_CA_FILE" in
      let certificate : Option String = var "HTTP_TLS_CERTIFICATE" in
      via P s (listeners_of answers (var "HTTP_LISTENERS")) _ e (λ listeners _ e1.
        via P s (allowlist_of answers (var "INBOUND_ALLOWLIST_FILE")) _ e1 (λ allowlist _ e2.
          via P s (client_ip_header_of answers allowlist (var "CLIENT_IP_HEADER")) _ e2
            (λ header h3 e3.
              via P s (https_addr_of answers (var "HTTPS_ADDR") (var "HTTPS_SOCKET")) _ e3
                (λ https _ e4.
                  via P s (client_cert_of ca (var "HTTPS_CLIENT_CERT_MODE")) _ e4 (λ cert h5 e5.
                    via P s (tls_of answers ca certificate (var "HTTP_TLS_KEY")) _ e5 (λ read h6 e6.
                      via P s (socket_has_tls answers https read) _ e6 (λ tls h7 e7.
                        via P s (internal_port_of answers (var "INTERNAL_PORT")) _ e7 (λ port h8 e8.
                          via P s (addr_of answers (var "HTTP_ADDR") "0.0.0.0:8081") _ e8
                            (λ http _ e9.
                              let asked : is_some cert ≡ is_some ca = client_cert_lem _ _ cert h5 in
                              let (is_read, socket) = socket_lem https read tls h7 in
                              let certified : (cert ≡ none) ⊎ (is_some tls ≡ true) =
                                client_cert_tls ca cert read tls asked (tls_lem _ _ _ read h6)
                                  is_read in
                              result P _ s
                                (
                                  client_ip_header_lem allowlist _ header h3,
                                  socket,
                                  certified,
                                  asked,
                                  internal_port_lem _ port h8,
                                )
                                e9)))))))))

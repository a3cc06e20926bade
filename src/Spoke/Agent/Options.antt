-- ===== src/Spoke/Agent/Options.antt =====
-- Which options are valid, and when the agent has a client configuration for the hub.
use ocm_registration.Base.{
  ℕ, String, true, false, List, [], ◌∷◌, Option, none, some, ◌≡◌, ◌≢◌, ◌↔◌, refl, inl, inr, ◌≤◌,
  ◌<◌, string_eq, arith, All, Option-cases,
}
use ocm_registration.Kube.{ok, Result-cases, Trace}
use ocm_registration.Helpers.Status.{is_valid_https_url}
use ocm_registration.ClientCert.Certificate.{
  Cert, kubeconfig_file, tls_key_file, tls_cert_file, is_certificate_valid,
}
use ocm_registration.ClientCert.Certificate.Laws.{is_certificate_valid_iff}
use ocm_registration.Spoke.Registration.{names_of, get_cluster_agent_names_from_certificate}
use ocm_registration.Spoke.Secret.{Files, Disk, path_join, read_file, is_missing}
use ocm_registration.Spoke.Agent.{
  SpokeAgentOptions, validate, validate_urls, has_valid_hub_client_config, check_cert,
}

validate_urls_iff :
    (parse_url : String → Option String) (urls : List String)
    → (validate_urls parse_url urls ≡ ok tt)
      ↔ All (λ url. is_valid_https_url parse_url url ≡ true) urls
unfolding validate_urls
validate_urls_iff parse_url [] = (λ _. tt, λ _. refl)
validate_urls_iff parse_url (url ∷ urls) = ground (arith, validate_urls_iff parse_url urls)

-- The options are valid exactly when there are a bootstrap kubeconfig, a cluster name and an agent
-- name, every external URL is an HTTPS URL, and the health check period is positive as an int64.
pub validate_iff :
    (parse_url : String → Option String) (o : SpokeAgentOptions)
    → (validate parse_url o ≡ ok tt) ↔ (
        (o.bootstrap_kubeconfig ≢ "")
        × (o.cluster_name ≢ "")
        × (o.agent_name ≢ "")
        × All (λ url. is_valid_https_url parse_url url ≡ true) o.spoke_external_server_urls
        × (0 < o.cluster_health_check_period)
        × (o.cluster_health_check_period < 9223372036854775808))
unfolding validate
validate_iff parse_url o = ground (
  arith,
  validate_urls_iff parse_url o.spoke_external_server_urls,
  Result-cases (validate_urls parse_url o.spoke_external_server_urls),
)

module _ (disk : Disk) (parse_certs : String → Option (List Cert)) where
  -- The certificate is for the names, and valid at the time.
  abbrev pub IsOwnCert : ℕ → SpokeAgentOptions → String → Type 0
  IsOwnCert now o cert_data =
      (certs : List Cert) × (parse_certs cert_data ≡ some certs)
      × (names_of certs ≡ (o.cluster_name, o.agent_name))
      × (certs ≢ [])
      × All (λ (x : Cert). now ≤ x.not_after) certs

  check_cert_iff :
      (now : ℕ) (o : SpokeAgentOptions) (cert_data : String)
      → (check_cert disk parse_certs now o (ok cert_data) ≡ ok true) ↔ IsOwnCert now o cert_data
  unfolding get_cluster_agent_names_from_certificate
  check_cert_iff now o cert_data = elim (Option-cases (parse_certs cert_data)) [
    | inl bad ↦ (
      λ e. absurd (ground (arith, bad, e)),
      λ (certs, good, _, _, _). absurd (ground (arith, bad, good)),
    )
    | inr (certs, good) ↦
        let valid = is_certificate_valid_iff parse_certs now cert_data none in
        (
          λ e.
              let (same, ok') : (names_of certs ≡ (o.cluster_name, o.agent_name))
                  × (is_certificate_valid parse_certs now cert_data none ≡ ok true) =
                ground (arith, good, e) in
              let (certs', good', some_cert, lasts, _) = valid.0 ok' in
              (certs', good', ground (arith, good, good', same), some_cert, lasts),
          λ (certs', good', same, some_cert, lasts).
              let ok' = valid.1 (certs', good', some_cert, lasts, tt) in
              ground (arith, good', same, ok'),
        )
  ]

  -- The configuration counts as valid exactly when neither the kubeconfig nor the key is missing,
  -- and the certificate's file can be read and holds a chain that carries the agent's own names and
  -- of which no certificate has expired.
  pub has_valid_hub_client_config_iff :
      (now : ℕ) (o : SpokeAgentOptions) (files : Files) (h : Trace)
      → (has_valid_hub_client_config disk parse_certs now o files h ≡ ok true) ↔ (
          (is_missing disk (path_join o.hub_kubeconfig_dir kubeconfig_file) files h ≡ false)
          × (is_missing disk (path_join o.hub_kubeconfig_dir tls_key_file) files h ≡ false)
          × (cert_data : String) × (read_file disk
                (path_join o.hub_kubeconfig_dir tls_cert_file)
                files
                h
              ≡ ok cert_data)
          × IsOwnCert now o cert_data)
  unfolding has_valid_hub_client_config
  has_valid_hub_client_config_iff now o files h =
      elim (Result-cases (read_file disk (path_join o.hub_kubeconfig_dir tls_cert_file) files h)) [
        | inr (why, bad) ↦ (
          λ e. absurd (ground (arith, bad, e)),
          λ (_, _, _, got, _). absurd (ground (arith, bad, got)),
        )
        | inl (cert_data, got) ↦ (
          λ e.
              let (config, key, own) : (is_missing disk
                      (path_join o.hub_kubeconfig_dir kubeconfig_file) files h
                    ≡ false)
                  × (is_missing disk (path_join o.hub_kubeconfig_dir tls_key_file) files h ≡ false)
                  × (check_cert disk parse_certs now o (ok cert_data) ≡ ok true) =
                ground (arith, got, e) in
              (config, key, cert_data, got, (check_cert_iff now o cert_data).0 own),
          λ (config, key, cert', got', own).
              ground (arith, config, key, got', (check_cert_iff now o cert').1 own),
        )
      ]

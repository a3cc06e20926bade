-- ===== src/Tests/CertRuns.antt =====
-- Runs of the certificate functions and of the certificate controller.
use ocm_registration.Base.{
  ◌∙◌, if◌then◌else◌, arith, ap, String, Bool, true, false, List, [], ◌∷◌, Option, none, some, ◌≡◌,
  refl, ◌⊎◌, inl, inr, string_eq, nat_eq, ◌==◌, ◌≤◌, ◌<◌, ◌-◌, ◌*◌,
}
use ocm_registration.Base.Dict.{Dict}
use ocm_registration.Kube.{
  not_found, Result, ok, err, At, event, Secret, Csr, CsrCondition, certificate_approved,
  condition_true, create_secret, create_csr, get_secret,
}
use ocm_registration.ClientCert.Certificate.{Cert, kubeconfig_file, tls_key_file, tls_cert_file}
use ocm_registration.ClientCert.Controller.{
  Options, State, Crypto, has_enough_life, get_client_secret, new_csr, sync,
}
use ocm_registration.ClientCert.Controller.Written.{IsIssued, sync-IsIssued}
use ocm_registration.ClientCert.Controller.Requests.{WellFormed, IsDue, has_enough_life_window}
use ocm_registration.ClientCert.Controller.Sync.{sync-WellFormed, sync-IsDue}
use ocm_registration.Tests.Apis.{has_csr, has_secret, user_with, csr_with}

abbrev cert : Cert
cert = record { common_name = "agent1"; not_before = 100; not_after = 200 }

abbrev parse_certs : String → Option (List Cert)
parse_certs text = if text == "cert" then some (cert ∷ []) else none

abbrev hub_kubeconfig : Dict String
hub_kubeconfig = (kubeconfig_file, "config") ∷ (tls_key_file, "key") ∷ (tls_cert_file, "cert") ∷ []

abbrev approval : CsrCondition
approval = record {
  type = certificate_approved;
  status = condition_true;
  reason = "";
  message = "";
}

has_enough_life_window_example :
    ((200 - 100 < 4 * (200 - 170)) → has_enough_life 170 100 200 10 3 ≡ true)
    × ((5 * (200 - 170) ≤ 200 - 100) → has_enough_life 170 100 200 10 3 ≡ false)
has_enough_life_window_example = has_enough_life_window 170 100 200 10 3 (omega arith) (omega arith)

abbrev options : Options
options = record {
  secret_namespace = "agent";
  secret_name = "hub-kubeconfig-secret";
  additional_secret_data = ("cluster-name", "c1") ∷ [];
  object_name = "csr1";
  object_labels = [];
  subject = "agent1";
  signer_name = "kubernetes.io/kube-apiserver-client";
}

abbrev crypto : Crypto
crypto = record {
  parse_certs = parse_certs;
  make_private_key = ok "key";
  make_csr = λ key subject. ok "pem";
  key_matches = λ cert_data key. key == "key";
}

abbrev issued : Csr
issued = csr_with (user_with "agent1" []) (approval ∷ []) "cert"

abbrev waiting : State
waiting = record { csr_name = "csr1"; key_data = some "key" }

abbrev idle : State
idle = record { csr_name = ""; key_data = none }

-- The secret that is created for the issued certificate.
abbrev stored : Secret
stored = record {
  namespace = "agent";
  name = "hub-kubeconfig-secret";
  resource_version = "";
  contents = (tls_cert_file, "cert") ∷ (tls_key_file, "key") ∷ ("cluster-name", "c1") ∷ [];
}

sync-IsIssued_example :
    At (create_secret stored) (get_secret "agent" "hub-kubeconfig-secret" ∷ []) []
    ⊎ IsIssued options crypto (has_csr issued) waiting stored
unfolding sync string_eq
sync-IsIssued_example =
    sync-IsIssued options crypto (has_secret (err not_found)) (has_csr issued) 150 10 3 stored
      waiting (create_secret stored) [] (get_secret "agent" "hub-kubeconfig-secret" ∷ []) (inl refl)
      (inr (inl (refl, refl)))

abbrev is_unnamed : Result Csr → Bool
is_unnamed (ok csr) = csr.name == ""
is_unnamed (err e) = true

sync-WellFormed_example :
    WellFormed
      (sync options crypto (has_secret (err not_found)) (has_csr issued) 150 10 3 idle []).1
unfolding string_eq
sync-WellFormed_example =
    sync-WellFormed options crypto (has_secret (err not_found)) (has_csr issued) 150 10 3 idle []
      (λ g csr req e p.
        let q : false ≡ true = ap is_unnamed e ∙ ap (λ (name : String). name == "") p in
        absurd (ground (arith, q)))
      (λ e. refl, λ e. refl)

abbrev created : Csr
created = new_csr options crypto (has_secret (err not_found)) (has_csr issued) "pem"

sync-IsDue_example :
    At
      (create_csr created)
      (event "NoValidCertificateFound" ∷ get_secret "agent" "hub-kubeconfig-secret" ∷ [])
      []
    ⊎ ((idle.csr_name ≡ "")
        × (secret : Secret) × ((get_client_secret options crypto
              (has_secret (err not_found))
              (has_csr issued)
              []).0
            ≡ ok secret)
        × IsDue options crypto (has_secret (err not_found)) (has_csr issued) 150 10 3 secret)
unfolding sync string_eq
sync-IsDue_example =
    sync-IsDue options crypto (has_secret (err not_found)) (has_csr issued) 150 10 3 created idle []
      (event "NoValidCertificateFound" ∷ get_secret "agent" "hub-kubeconfig-secret" ∷ [])
      (inr (inl (refl, refl)))

abbrev no_secret : Secret
no_secret = record {
  namespace = "agent";
  name = "hub-kubeconfig-secret";
  resource_version = "";
  contents = [];
}

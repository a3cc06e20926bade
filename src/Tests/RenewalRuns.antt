-- ===== src/Tests/RenewalRuns.antt =====
-- The renewal of one agent's certificate.
use ocm_registration.Base.{
  String, true, false, [], ◌∷◌, Option, none, some, ◌≡◌, ◌≢◌, refl, ap, arith, ◌==◌, string_eq,
}
use ocm_registration.Kube.{
  ok, At, get_secret, create_access_review, update_approval, update_secret, event, Secret, Csr,
  CsrApi,
}
use ocm_registration.Hub.Csr.{Block, renew_review}
use ocm_registration.Hub.Csr as Hub
use ocm_registration.Hub.Csr.Approval.{approved}
use ocm_registration.ClientCert.Controller.{Crypto, reset}
use ocm_registration.ClientCert.Controller as Agent
use ocm_registration.Spoke.Registration.{
  agent_common_name, agent_subject, client_cert_for_hub_options,
}
use ocm_registration.Protocol.Renewing.{agent_csr, renewed, certificate_renewed}
use ocm_registration.Tests.Apis.{has_secret, has_csr, allows_all, user_with, csr_with}

abbrev decode_request : String → Option Block
decode_request text =
    some (record { type = "CERTIFICATE REQUEST"; subject = some (agent_subject "c1" "a1") })

abbrev crypto : Crypto
crypto = record {
  parse_certs = λ text. none;
  make_private_key = ok "key";
  make_csr = λ key subject. ok "request";
  key_matches = λ cert key. true;
}

abbrev old_secret : Secret
old_secret = record { namespace = "ns"; name = "secret"; resource_version = "1"; contents = [] }

abbrev sent : Csr
sent =
    agent_csr crypto (has_secret (ok old_secret)) (has_csr (csr_with (user_with "u" []) [] ""))
      allows_all decode_request "c1" "a1" "ns" "secret" "config" "request" "c1-x"
      (user_with (agent_common_name "c1" "a1") [])

-- The request is as it was sent at first, and later has its certificate.
abbrev csrs : CsrApi
csrs = record (has_csr sent) {
  lister_get = λ h name. elim h [
    | [] ↦ ok sent
    | _ ∷ _ ↦
        ok (record (approved (has_csr sent) allows_all decode_request sent) { certificate = "pem" })
  ];
}

abbrev stored : Secret
stored =
    renewed crypto (has_secret (ok old_secret)) csrs allows_all decode_request "c1" "a1" "ns"
      "secret" "config" "request" "c1-x" (user_with (agent_common_name "c1" "a1") []) old_secret
      "key" "pem"

abbrev cluster_name : String
cluster_name = "c1"

other : cluster_name ≢ "managed-clusters"
unfolding string_eq
other p = let q : true ≡ false = ap (λ (s : String). s == "c1") p in absurd (ground (arith, q))

certificate_renewed_example :
    let read = get_secret "ns" "secret" ∷ [] in
    At
      (update_approval (approved csrs allows_all decode_request sent))
      (create_access_review (renew_review sent) ∷ [])
      (Hub.sync csrs allows_all decode_request "c1-x" []).1
    × (Agent.sync
          (client_cert_for_hub_options "c1" "a1" "ns" "secret" "config")
          crypto
          (has_secret (ok old_secret))
          csrs
          150
          10
          3
          (record { csr_name = "c1-x"; key_data = some "key" })
          []
        ≡ (ok tt, reset, event "ClientCertificateCreated" ∷ update_secret stored ∷ read))
unfolding agent_subject string_eq
certificate_renewed_example =
    certificate_renewed crypto (has_secret (ok old_secret)) csrs allows_all decode_request "c1" "a1"
      "ns" "secret" "config" "request" "c1-x" (user_with (agent_common_name "c1" "a1") []) [] [] 150
      10 3 "key" "pem" old_secret stored refl refl other refl refl refl refl refl refl refl refl
      refl

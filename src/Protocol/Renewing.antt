-- ===== src/Protocol/Renewing.antt =====
-- The agent's certificate is renewed through the hub.
use ocm_registration.Base.{
  ℕ, String, true, false, [], ◌∷◌, Option, some, ◌≡◌, ◌≢◌, refl, ◌∙◌, arith, ◌==◌, string_eq,
}
use ocm_registration.Base.Dict.{insert}
use ocm_registration.Kube.{
  ok, Trace, At, Csr, CsrApi, Secret, SecretApi, AccessApi, UserInfo, create_access_review,
  update_approval, get_secret, update_secret, event,
}
use ocm_registration.Helpers.Status.{is_csr_in_terminal_state}
use ocm_registration.Hub.Csr.{Block, renew_review, is_spoke_cluster_client_cert_renewal}
use ocm_registration.Hub.Csr as Hub
use ocm_registration.Hub.Csr.Approval.{Approvable, approved, sync-approves}
use ocm_registration.ClientCert.Certificate.{tls_key_file, tls_cert_file, is_csr_approved}
use ocm_registration.ClientCert.Controller.{
  Options, Crypto, State, reset, new_csr, new_secret, append, data_from, sync_csr, save_secret,
  collect, get_client_secret,
}
use ocm_registration.ClientCert.Controller as Agent
use ocm_registration.Spoke.Registration.{agent_subject, client_cert_for_hub_options}
use ocm_registration.Spoke.Registration.Renewed.{agent_csr_renewal}

module _ (crypto : Crypto) (secrets : SecretApi) (csrs : CsrApi) (access : AccessApi)
    (decode_request : String → Option Block)
    (cluster_name agent_name secret_namespace secret_name kubeconfig_data request name : String)
    (user : UserInfo) where
  abbrev options : Options
  options =
      client_cert_for_hub_options cluster_name agent_name secret_namespace secret_name
        kubeconfig_data

  -- The agent's request, with what the server adds to it.
  abbrev pub agent_csr : Csr
  agent_csr = record (new_csr options crypto secrets csrs request) { name = name; user = user }

  -- The request with the hub's approval and a certificate.
  abbrev pub issued : String → Csr
  issued cert = record (approved csrs access decode_request agent_csr) { certificate = cert }

  -- The secret with the certificate, its key and what the agent's options add.
  abbrev pub renewed : Secret → String → String → Secret
  renewed secret key cert = new_secret options crypto secrets csrs secret (
      append (insert tls_key_file key (insert tls_cert_file cert []))
        options.additional_secret_data)

  agent_csr-Approvable :
      (h : Trace)
      → user.username ≡ (agent_subject cluster_name agent_name).common_name
      → decode_request request
        ≡ some (record {
          type = "CERTIFICATE REQUEST";
          subject = some (agent_subject cluster_name agent_name);
        })
      → cluster_name ≢ "managed-clusters"
      → access.create_review h (renew_review agent_csr) ≡ ok true
      → Approvable csrs access decode_request agent_csr h
  unfolding is_spoke_cluster_client_cert_renewal is_csr_in_terminal_state
  agent_csr-Approvable h by decoded other may = (
    refl,
    agent_csr_renewal crypto secrets csrs decode_request cluster_name agent_name secret_namespace
          secret_name kubeconfig_data request user by decoded
        ∙ ground (arith, other),
    may,
  )

  collect-issued :
      (key cert : String) (secret answer : Secret) (h : Trace)
      → (name == "") ≡ false
      → (cert == "") ≡ false
      → (secret.resource_version == "") ≡ false
      → csrs.lister_get h name ≡ ok (issued cert)
      → crypto.key_matches cert key ≡ true
      → secrets.update h (renewed secret key cert) ≡ ok answer
      → collect options crypto secrets csrs
          (record { csr_name = name; key_data = some key })
          secret
          h
        ≡ (
          ok tt,
          reset,
          event "ClientCertificateCreated" ∷ update_secret (renewed secret key cert) ∷ h,
        )
  unfolding collect sync_csr data_from save_secret is_csr_approved
  collect-issued key cert secret answer h named certified exists listed matches stored =
      rw (named, listed, certified, matches, exists, stored) refl

  -- The request that an agent makes for its certificate, sent by the user that the certificate names
  -- and still undecided, is approved by the hub's run for it if that user may renew certificates and
  -- the cluster is not called "managed-clusters". Once the agent's cache has the request with that
  -- approval and a certificate that matches the remembered key, the agent's next sync writes the
  -- certificate and the key to the secret, succeeds, and remembers no request any more. The secret
  -- exists, and the calls on it succeed.
  pub certificate_renewed :
      (h h' : Trace) (now scale draw : ℕ) (key cert : String) (secret answer : Secret)
      → user.username ≡ (agent_subject cluster_name agent_name).common_name
      → decode_request request
        ≡ some (record {
          type = "CERTIFICATE REQUEST";
          subject = some (agent_subject cluster_name agent_name);
        })
      → cluster_name ≢ "managed-clusters"
      → csrs.lister_get h name ≡ ok agent_csr
      → access.create_review h (renew_review agent_csr) ≡ ok true
      → (name == "") ≡ false
      → (cert == "") ≡ false
      → (secret.resource_version == "") ≡ false
      → secrets.get h' secret_namespace secret_name ≡ ok secret
      → let read = get_secret secret_namespace secret_name ∷ h' in
        csrs.lister_get read name ≡ ok (issued cert)
        → crypto.key_matches cert key ≡ true
        → secrets.update read (renewed secret key cert) ≡ ok answer
        → At
            (update_approval (approved csrs access decode_request agent_csr))
            (create_access_review (renew_review agent_csr) ∷ h)
            (Hub.sync csrs access decode_request name h).1
          × (Agent.sync options crypto secrets csrs now scale draw
                (record { csr_name = name; key_data = some key })
                h'
              ≡ (
                ok tt,
                reset,
                event "ClientCertificateCreated" ∷ update_secret (renewed secret key cert) ∷ read,
              ))
  unfolding Agent.sync get_client_secret client_cert_for_hub_options
  certificate_renewed h h' now scale draw key cert secret answer by decoded other listed may named
        certified exists found issued_now matches stored =
      let approvable = agent_csr-Approvable h by decoded other may in
      (
        (sync-approves csrs access decode_request name h listed approvable).0,
        (rw (found, named) refl)
            ∙ collect-issued key cert secret answer (get_secret secret_namespace secret_name ∷ h')
                named certified exists issued_now matches stored,
      )

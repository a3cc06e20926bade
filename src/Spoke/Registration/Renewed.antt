-- ===== src/Spoke/Registration/Renewed.antt =====
-- The request of the agent, as the hub's approving controller (pkg/hub/csr) sees it.
use text.Mathlib.TextLemmas.{append_assoc, append_cancel_left}
use text.Mathlib.TextPositions.{starts_with-append}
use ocm_registration.Base.{
  String, ◌<>◌, true, Option, some, ◌≡◌, sym, ap, arith, ◌==◌, string_eq, not, starts_with,
}
use ocm_registration.Base.Dict.{lookup}
use ocm_registration.Kube.{SecretApi, CsrApi, UserInfo}
use ocm_registration.Hub.Csr.{
  Block, subject_prefix, managed_clusters_group, string_set, is_renewal_subject,
  is_spoke_cluster_client_cert_renewal,
}
use ocm_registration.ClientCert.Controller.{Crypto, new_csr}
use ocm_registration.Spoke.Registration.{
  agent_common_name, agent_subject, client_cert_for_hub_options,
}

-- The agent's organizations are told apart unless the cluster has the name that the group ends in.
same_organization :
    (cluster_name : String)
    → (subject_prefix <> cluster_name == managed_clusters_group)
      ≡ (cluster_name == "managed-clusters")
same_organization cluster_name = elim (string_eq.dec cluster_name "managed-clusters") [
  | yes p ↦ ground (arith, p, ap (λ (s : String). subject_prefix <> s) p)
  | no p ↦ ground (arith, p, append_cancel_left subject_prefix cluster_name "managed-clusters")
]

agent_subject_renewal :
    (cluster_name agent_name : String)
    → is_renewal_subject cluster_name
        (agent_common_name cluster_name agent_name)
        (agent_subject cluster_name agent_name)
      ≡ not (cluster_name == "managed-clusters")
unfolding is_renewal_subject agent_subject string_set
agent_subject_renewal cluster_name agent_name =
    let starts : starts_with (agent_common_name cluster_name agent_name)
          (subject_prefix <> cluster_name)
        ≡ true =
      rw (sym (append_assoc subject_prefix cluster_name (":" <> agent_name)))
        (starts_with-append (subject_prefix <> cluster_name) (":" <> agent_name)) in
    ground (arith, starts, same_organization cluster_name)

-- A request with the agent's options and subject, sent by the user that the subject names, is one
-- for a renewal on the hub, unless the cluster is called "managed-clusters", and then it is not.
pub agent_csr_renewal :
    (crypto : Crypto) (secrets : SecretApi) (csrs : CsrApi) (decode_request : String → Option Block)
    (cluster_name agent_name secret_namespace secret_name kubeconfig_data request : String)
    (user : UserInfo)
    → user.username ≡ (agent_subject cluster_name agent_name).common_name
    → decode_request request
      ≡ some (record {
        type = "CERTIFICATE REQUEST";
        subject = some (agent_subject cluster_name agent_name);
      })
    → is_spoke_cluster_client_cert_renewal decode_request
        (record (new_csr
          (client_cert_for_hub_options cluster_name agent_name secret_namespace secret_name
            kubeconfig_data)
          crypto
          secrets
          csrs
          request) { user = user })
      ≡ not (cluster_name == "managed-clusters")
unfolding is_spoke_cluster_client_cert_renewal client_cert_for_hub_options agent_subject lookup
agent_csr_renewal crypto secrets csrs decode_request cluster_name agent_name secret_namespace
      secret_name kubeconfig_data request user by decoded =
    ground (arith, by, decoded, agent_subject_renewal cluster_name agent_name)

-- ===== src/Spoke/Registration.antt =====
-- pkg/spoke/managedcluster/registration.go: what the agent asks a client certificate for, and whose
-- names a certificate carries. `parse_certs` stands for `ParseCertsPEM`, `none` being its error. The
-- generated name is the name up to the server's suffix.
pub mod Names
pub mod Renewed
use ocm_registration.Base.{
  String, ◌<>◌, Bool, false, List, [], ◌∷◌, Option, none, some, ◌==◌, string_eq, not, starts_with,
  if◌then◌else◌,
}
use ocm_registration.Base.Dict.{Dict, at}
use ocm_registration.Base.Texts.{split, trim_prefix}
use ocm_registration.Kube.{Err, Result, ok, err, failure, Csr}
use ocm_registration.Hub.Csr.{
  Name, subject_prefix, managed_clusters_group, spoke_cluster_name_label,
  kube_apiserver_client_signer_name,
}
use ocm_registration.ClientCert.Certificate.{Cert, kubeconfig_file}
use ocm_registration.ClientCert.Controller.{Options}

abbrev pub cluster_name_file : String
cluster_name_file = "cluster-name"

abbrev pub agent_name_file : String
agent_name_file = "agent-name"

abbrev pub agent_common_name : String → String → String
agent_common_name cluster_name agent_name = subject_prefix <> cluster_name <> (":" <> agent_name)

-- The subject of the request, of which `Options` holds the common name.
unfoldable pub agent_subject : String → String → Name
agent_subject cluster_name agent_name = record {
  common_name = agent_common_name cluster_name agent_name;
  organization = (subject_prefix <> cluster_name) ∷ managed_clusters_group ∷ [];
}

unfoldable pub client_cert_for_hub_options : String → String → String → String → String → Options
client_cert_for_hub_options cluster_name agent_name secret_namespace secret_name kubeconfig_data =
    record {
      secret_namespace = secret_namespace;
      secret_name = secret_name;
      additional_secret_data =
          (cluster_name_file, cluster_name)
          ∷ (agent_name_file, agent_name)
          ∷ (kubeconfig_file, kubeconfig_data)
          ∷ [];
      object_name = cluster_name <> "-";
      object_labels = (spoke_cluster_name_label, cluster_name) ∷ [];
      subject = agent_common_name cluster_name agent_name;
      signer_name = kube_apiserver_client_signer_name;
    }

-- `EventFilterFunc`, for an object that is a request.
unfoldable pub is_own_csr : String → Csr → Bool
unfolding at
is_own_csr cluster_name csr =
    if not (at csr.labels spoke_cluster_name_label == cluster_name)
    then false
    else starts_with csr.name (cluster_name <> "-")

abbrev two_names : List String → String × String → String × String
two_names (cluster_name ∷ agent_name ∷ []) rest = (cluster_name, agent_name)
two_names _ rest = rest

-- The loop over the certificates.
unfoldable pub names_of : List Cert → String × String
unfolding split trim_prefix
names_of [] = ("", "")
names_of (cert ∷ certs) =
    let rest = names_of certs in
    if not (starts_with cert.common_name subject_prefix)
    then rest
    else two_names (split b':' (trim_prefix cert.common_name subject_prefix)) rest

unfoldable pub get_cluster_agent_names_from_certificate :
    (String → Option (List Cert)) → String → Result (String × String)
unfolding names_of
get_cluster_agent_names_from_certificate parse_certs cert_data = elim (parse_certs cert_data) [
  | none ↦ err (failure "unable to parse certificate")
  | some certs ↦ ok (names_of certs)
]

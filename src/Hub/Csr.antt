-- ===== src/Hub/Csr.antt =====
-- pkg/hub/csr/controller.go: the renewal of an agent's client certificate is approved on the hub.
-- `decode_request` stands for `pem.Decode` with `x509.ParseCertificateRequest`: the block's type
-- and, if the block parses, the request's subject.
pub mod Renewal
pub mod Approval
use ocm_registration.Base.{
  ℕ, String, ◌<>◌, Bool, true, false, List, [], ◌∷◌, ◌++◌, Option, none, some, ◌==◌, string_eq,
  nat_eq, not, ◌&&◌, ◌||◌, starts_with, length, keep_if, contains, if◌then◌else◌,
}
use ocm_registration.Base.Dict.{lookup}
use ocm_registration.Kube.{
  Err, Result, ok, err, is_not_found, Exec, Trace, CsrApi, AccessApi, AccessReview, Csr,
  CsrCondition, certificate_approved, condition_true, request, ◌>>=◌, ◌>>◌, handle, pure, raise,
  read, record_event, create_access_review, update_approval,
}
use ocm_registration.Helpers.Status.{is_csr_in_terminal_state}

-- pkg/hub/user/identity.go.
abbrev pub subject_prefix : String
subject_prefix = "system:open-cluster-management:"

abbrev pub managed_clusters_group : String
managed_clusters_group = subject_prefix <> "managed-clusters"

abbrev pub spoke_cluster_name_label : String
spoke_cluster_name_label = "open-cluster-management.io/cluster-name"

abbrev pub kube_apiserver_client_signer_name : String
kube_apiserver_client_signer_name = "kubernetes.io/kube-apiserver-client"

pub record Name : Type 0 where
  pub common_name : String
  pub organization : List String

-- A PEM block: its type, and the subject of the certificate request that its bytes hold, if any.
pub record Block : Type 0 where
  pub type : String
  pub subject : Option Name

-- `sets.NewString`: each text once.
unfoldable pub string_set : List String → List String
string_set [] = []
string_set (x ∷ xs) = let rest = string_set xs in if contains rest x then rest else x ∷ rest

-- The tests after the request is parsed.
unfoldable pub is_renewal_subject : String → String → Name → Bool
unfolding string_set
is_renewal_subject cluster_name username subject =
    let requesting_orgs =
      keep_if (λ org. not (org == managed_clusters_group)) (string_set subject.organization) in
    let expected = subject_prefix <> cluster_name in
    if not (length requesting_orgs == 1)
    then false
    else if not (contains requesting_orgs expected)
    then false
    else if not (starts_with subject.common_name expected)
    then false
    else username == subject.common_name

module _ (decode_request : String → Option Block) where
  unfoldable pub is_spoke_cluster_client_cert_renewal : Csr → Bool
  unfolding is_renewal_subject
  is_spoke_cluster_client_cert_renewal csr = elim (lookup spoke_cluster_name_label csr.labels) [
    | none ↦ false
    | some cluster_name ↦
        if not (csr.signer_name == kube_apiserver_client_signer_name)
        then false
        else elim (decode_request csr.request) [
          | none ↦ false
          | some block ↦
              if not (block.type == "CERTIFICATE REQUEST") then false else elim block.subject [
                | none ↦ false
                | some subject ↦ is_renewal_subject cluster_name csr.user.username subject
              ]
        ]
  ]

abbrev pub renew_review : Csr → AccessReview
renew_review csr = record {
  user = csr.user;
  group = "register.open-cluster-management.io";
  resource = "managedclusters";
  verb = "renew";
  subresource = "clientcertificates";
  name = "";
}

abbrev pub auto_approved : CsrCondition
auto_approved = record {
  type = certificate_approved;
  status = condition_true;
  reason = "AutoApprovedByHubCSRApprovingController";
  message = "Auto approving Managed cluster agent certificate after SubjectAccessReview.";
}

module _ (csrs : CsrApi) (access : AccessApi) (decode_request : String → Option Block) where
  unfoldable authorize : Csr → Exec Bool
  authorize csr =
      request (create_access_review (renew_review csr))
        (λ h. access.create_review h (renew_review csr))

  unfoldable pub approve : Csr → Exec (Unit {0})
  approve csr = do
    let approved = record csr { conditions = csr.conditions ++ auto_approved ∷ [] }
    request (update_approval approved) (λ h. csrs.update_approval h approved)
    record_event "ManagedClusterCSRAutoApproved"

  -- `sync` for a request that the lister has.
  unfoldable pub sync_csr : Csr → Exec (Unit {0})
  unfolding authorize approve is_csr_in_terminal_state is_spoke_cluster_client_cert_renewal
  sync_csr csr =
      if is_csr_in_terminal_state csr.conditions
      then pure tt
      else if not (is_spoke_cluster_client_cert_renewal decode_request csr)
      then pure tt
      else (do allowed ← authorize csr; (if not allowed then pure tt else approve csr))

  unfoldable pub sync : String → Exec (Unit {0})
  unfolding sync_csr
  sync csr_name =
      handle (read (λ h. csrs.lister_get h csr_name))
        λ r. elim r [ ok csr ↦ sync_csr csr | err e ↦ if is_not_found e then pure tt else raise e ]

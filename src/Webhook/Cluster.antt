-- ===== src/Webhook/Cluster.antt =====
-- pkg/webhook/cluster: the validating and the mutating hook for ManagedClusters. `unmarshal` stands
-- for `json.Unmarshal`, which may fill a part of the object before it fails.
pub mod Validation
pub mod Creation
pub mod Updating
pub mod Mutation
use ocm_registration.Base.{
  ℕ, zero, String, ◌<>◌, Bool, true, false, List, [], ◌∷◌, ◌++◌, Option, none, some, ◌==◌,
  string_eq, nat_eq, not, ◌&&◌, ◌||◌, if◌then◌else◌,
}
use mathlib.Core.Bool.{xor}
use ocm_registration.Base.Dict.{at}
use ocm_registration.Kube.{
  Err, Result, ok, err, failure, Trace, Machinery, AccessApi, AccessReview, UserInfo,
  ManagedCluster, ClientConfig,
}
use ocm_registration.Helpers.Status.{is_valid_https_url}
use ocm_registration.Helpers.Cleanup.{and_errors}
use ocm_registration.Webhook.Admission.{
  Operation, AdmissionRequest, AdmissionResponse, bad_request, accept_request, deny_request, ask,
}

abbrev pub cluster_set_label : String
cluster_set_label = "cluster.open-cluster-management.io/clusterset"

abbrev pub accept_review : String → UserInfo → AccessReview
accept_review cluster_name user = record {
  user = user;
  group = "register.open-cluster-management.io";
  resource = "managedclusters";
  verb = "update";
  subresource = "accept";
  name = cluster_name;
}

abbrev pub join_review : String → UserInfo → AccessReview
join_review cluster_set_name user = record {
  user = user;
  group = "cluster.open-cluster-management.io";
  resource = "managedclustersets";
  verb = "create";
  subresource = "join";
  name = cluster_set_name;
}

-- The two tests that open `Validate` and `Admit`.
abbrev pub is_managed_cluster : AdmissionRequest → Bool
is_managed_cluster request =
    request.group == "cluster.open-cluster-management.io" && request.resource == "managedclusters"

module _ (parse_url : String → Option String) where
  unfoldable pub url_errors : List ClientConfig → List Err
  unfolding is_valid_https_url
  url_errors [] = []
  url_errors (c ∷ cs) =
      let rest = url_errors cs in
      if is_valid_https_url parse_url c.url
      then rest
      else failure ("url " <> c.url <> " is invalid in client configs") ∷ rest

module _ (m : Machinery) (access : AccessApi) (parse_url : String → Option String)
    (unmarshal : String → ManagedCluster × Option Err) (error_text : Err → String) where
  unfoldable pub validate_managed_cluster_obj : String → ManagedCluster × Option Err
  unfolding url_errors
  validate_managed_cluster_obj raw =
      let (cluster, failed) = unmarshal raw in
      (
        cluster,
        m.new_multi_line_aggregate
            (and_errors failed (url_errors parse_url cluster.client_configs)),
      )

  unfoldable allow_update_accept_field : String → UserInfo → Trace → AdmissionResponse × Trace
  allow_update_accept_field cluster_name user =
      ask access error_text (accept_review cluster_name user)
        ("user " <> user.username <> " cannot update the HubAcceptsClient field")

  unfoldable allow_update_cluster_set : UserInfo → String → Trace → AdmissionResponse × Trace
  allow_update_cluster_set user cluster_set_name =
      ask access error_text (join_review cluster_set_name user) (
        "user " <> user.username <> " cannot add/remove a ManagedCluster to/from ManagedClusterSet "
        <> cluster_set_name)

  -- `if status := check; !status.Allowed { return status }`, and the code after it.
  abbrev or_else :
      AdmissionResponse × Trace → (Trace → AdmissionResponse × Trace) → AdmissionResponse × Trace
  or_else (status, h) next = if not status.allowed then (status, h) else next h

  unfoldable pub allow_set_cluster_set_label :
      UserInfo → String → String → Trace → AdmissionResponse × Trace
  unfolding allow_update_cluster_set
  allow_set_cluster_set_label user original new h =
      if original == new
      then (accept_request, h)
      else or_else
          (if not (original == "")
            then allow_update_cluster_set user original h
            else (accept_request, h))
          λ h'.
            or_else
              (if not (new == "")
                then allow_update_cluster_set user new h'
                else (accept_request, h'))
              λ h''. (accept_request, h'')

  unfoldable pub validate_create_request : AdmissionRequest → Trace → AdmissionResponse × Trace
  unfolding validate_managed_cluster_obj allow_update_accept_field allow_set_cluster_set_label
  validate_create_request request h =
      let (cluster, failed) = validate_managed_cluster_obj request.object in
      elim failed [
        | some e ↦ (deny_request bad_request "BadRequest" (error_text e), h)
        | none ↦
            or_else
              (if cluster.hub_accepts_client
                then allow_update_accept_field cluster.name request.user_info h
                else (accept_request, h))
              λ h'.
                allow_set_cluster_set_label request.user_info ""
                  (at cluster.labels cluster_set_label) h'
      ]

  unfoldable pub validate_update_request : AdmissionRequest → Trace → AdmissionResponse × Trace
  unfolding validate_managed_cluster_obj allow_update_accept_field allow_set_cluster_set_label xor
  validate_update_request request h =
      let (old, old_failed) = unmarshal request.old_object in
      let (new, failed) = validate_managed_cluster_obj request.object in
      elim old_failed [
        | some e ↦ (deny_request bad_request "BadRequest" (error_text e), h)
        | none ↦ elim failed [
          | some e ↦ (deny_request bad_request "BadRequest" (error_text e), h)
          | none ↦
              or_else
                (if xor new.hub_accepts_client old.hub_accepts_client
                  then allow_update_accept_field new.name request.user_info h
                  else (accept_request, h))
                λ h'.
                  allow_set_cluster_set_label request.user_info (at old.labels cluster_set_label)
                    (at new.labels cluster_set_label) h'
        ]
      ]

  validate_operation : Operation → AdmissionRequest → Trace → AdmissionResponse × Trace
  unfolding validate_create_request validate_update_request
  validate_operation Operation.create request h = validate_create_request request h
  validate_operation Operation.update request h = validate_update_request request h
  validate_operation Operation.delete request h = (accept_request, h)
  validate_operation Operation.connect request h = (accept_request, h)

  unfoldable pub validate : AdmissionRequest → Trace → AdmissionResponse × Trace
  unfolding validate_operation
  validate request h =
      if not (is_managed_cluster request)
      then (accept_request, h)
      else validate_operation request.operation request h

abbrev pub default_lease_duration_seconds_patch : String
default_lease_duration_seconds_patch =
    "[{\"op\": \"replace\", \"path\": \"/spec/leaseDurationSeconds\", \"value\": 60}]"

abbrev pub is_create_or_update : Operation → Bool
is_create_or_update Operation.create = true
is_create_or_update Operation.update = true
is_create_or_update _ = false

-- `Admit` of the mutating hook.
unfoldable pub admit :
    (String → ManagedCluster × Option Err) → (Err → String) → AdmissionRequest → AdmissionResponse
admit unmarshal error_text request =
    if not (is_managed_cluster request)
    then accept_request
    else if not (is_create_or_update request.operation)
    then accept_request
    else let (cluster, failed) = unmarshal request.object in
      elim failed [
        | some e ↦ deny_request bad_request "BadRequest" (error_text e)
        | none ↦
            if cluster.lease_duration_seconds == 0
            then record accept_request { patch = some default_lease_duration_seconds_patch }
            else accept_request
      ]

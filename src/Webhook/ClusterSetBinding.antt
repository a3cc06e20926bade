-- ===== src/Webhook/ClusterSetBinding.antt =====
-- pkg/webhook/clustersetbinding: the validating hook for ManagedClusterSetBindings.
use ocm_registration.Base.{
  String, ◌<>◌, Bool, true, false, Option, none, some, ◌≡◌, ◌↔◌, ◌==◌, string_eq, arith, not, ◌&&◌,
  if◌then◌else◌,
}
use ocm_registration.Kube.{Err, ok, Trace, AccessApi, AccessReview, UserInfo}
use ocm_registration.Webhook.Admission.{
  Operation, AdmissionRequest, AdmissionResponse, bad_request, accept_request, deny_request, ask,
}
use ocm_registration.Webhook.Cluster.{is_create_or_update}

pub record Binding : Type 0 where
  pub name : String
  pub cluster_set : String

abbrev pub bind_review : String → UserInfo → AccessReview
bind_review cluster_set_name user = record {
  user = user;
  group = "cluster.open-cluster-management.io";
  resource = "managedclustersets";
  verb = "create";
  subresource = "bind";
  name = cluster_set_name;
}

abbrev is_binding : AdmissionRequest → Bool
is_binding request =
    request.group == "cluster.open-cluster-management.io"
    && request.resource == "managedclustersetbindings"

abbrev is_create : Operation → Bool
is_create Operation.create = true
is_create _ = false

module _ (access : AccessApi) (unmarshal : String → Binding × Option Err)
    (error_text : Err → String) where
  unfoldable allow_binding_to_cluster_set : String → UserInfo → Trace → AdmissionResponse × Trace
  allow_binding_to_cluster_set cluster_set_name user =
      ask access error_text (bind_review cluster_set_name user)
        ("user " <> user.username <> " is not allowed to bind cluster set " <> cluster_set_name)

  unfoldable pub validate : AdmissionRequest → Trace → AdmissionResponse × Trace
  unfolding allow_binding_to_cluster_set
  validate request h =
      if not (is_binding request)
      then (accept_request, h)
      else if not (is_create_or_update request.operation)
      then (accept_request, h)
      else let (binding, failed) = unmarshal request.object in
        elim failed [
          | some e ↦ (
            deny_request bad_request "BadRequest"
                ("Unable to unmarshal the ManagedClusterSetBinding object: " <> error_text e),
            h,
          )
          | none ↦
              if not (binding.name == binding.cluster_set)
              then (
                deny_request bad_request "BadRequest"
                    "The ManagedClusterSetBinding must have the same name as the target ManagedClusterSet",
                h,
              )
              else if is_create request.operation
              then allow_binding_to_cluster_set binding.cluster_set request.user_info h
              else (accept_request, h)
        ]

  -- A binding is created exactly when it decodes, is named after its cluster set, and the review of
  -- the user's right to bind that set says "allowed"; it is updated exactly when the first two
  -- hold.
  pub validate_lem :
      (request : AdmissionRequest) (h : Trace)
      → is_binding request ≡ true
      → is_create_or_update request.operation ≡ true
      → let b = (unmarshal request.object).0 in
        ((validate request h).0.allowed ≡ true) ↔ (
          ((unmarshal request.object).1 ≡ none)
          × (b.name ≡ b.cluster_set)
          × (request.operation ≡ Operation.create
              → access.create_review h (bind_review b.cluster_set request.user_info) ≡ ok true))
  unfolding validate
  validate_lem request h ours changes = (
    λ passed. (ground arith, ground arith, λ created. ground arith),
    λ (decoded, named, may). ground arith,
  )

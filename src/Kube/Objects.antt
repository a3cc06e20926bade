-- ===== src/Kube/Objects.antt =====
-- The API objects, with the fields that the controllers read or write. A deletion timestamp is
-- `true` when it is set; an int32 is its bit pattern, a number below 2 ^ 32.
use ocm_registration.Base.{ℕ, String, Bool, List}
use ocm_registration.Base.Dict.{Dict}

pub data ConditionStatus : Type 0 where
  condition_true condition_false condition_unknown : ConditionStatus

pub record Condition : Type 0 where
  pub type : String
  pub status : ConditionStatus
  pub reason : String
  pub message : String
  pub last_transition_time : ℕ

pub record ClientConfig : Type 0 where
  pub url : String
  pub ca_bundle : String

pub record ClusterClaim : Type 0 where
  pub name : String
  pub value : String

pub record ManagedClusterStatus : Type 0 where
  pub conditions : List Condition
  pub capacity : Dict ℕ
  pub allocatable : Dict ℕ
  pub version : String
  pub cluster_claims : List ClusterClaim

pub record ManagedCluster : Type 0 where
  pub name : String
  pub labels : Dict String
  pub finalizers : List String
  pub deleting : Bool
  pub hub_accepts_client : Bool
  pub lease_duration_seconds : ℕ  -- int32
  pub client_configs : List ClientConfig
  pub status : ManagedClusterStatus

-- What an add-on's client certificate is asked for: the signer, and the subject's user, groups and
-- organization units.
pub record Registration : Type 0 where
  pub signer_name : String
  pub user : String
  pub groups : List String
  pub organization_units : List String

pub record AddOnStatus : Type 0 where
  pub conditions : List Condition
  pub registrations : List Registration

pub record ManagedClusterAddOn : Type 0 where
  pub namespace : String
  pub name : String
  pub install_namespace : String
  pub deleting : Bool
  pub status : AddOnStatus

pub record Subject : Type 0 where
  pub kind : String
  pub name : String
  pub namespace : String

-- A Role, and a RoleBinding or ClusterRoleBinding; a cluster-wide object has the namespace "".
pub record Role : Type 0 where
  pub namespace : String
  pub name : String
  pub finalizers : List String
  pub deleting : Bool

pub record RoleBinding : Type 0 where
  pub namespace : String
  pub name : String
  pub finalizers : List String
  pub deleting : Bool
  pub subjects : List Subject

pub record Namespace : Type 0 where
  pub name : String
  pub deleting : Bool

-- What a manifest decodes to: the five kinds that the clean-up handles, and any other type.
pub data Manifest : Type 0 where
  namespace_manifest : String → Manifest
  role_manifest : String → String → Manifest
  role_binding_manifest : String → String → Manifest
  cluster_role_manifest : String → Manifest
  cluster_role_binding_manifest : String → Manifest
  other_manifest : String → Manifest

pub data CsrConditionType : Type 0 where
  certificate_approved certificate_denied certificate_failed : CsrConditionType

pub record CsrCondition : Type 0 where
  pub type : CsrConditionType
  pub status : ConditionStatus
  pub reason : String
  pub message : String

pub record UserInfo : Type 0 where
  pub username : String
  pub uid : String
  pub groups : List String
  pub extra : Dict (List String)

-- A CertificateSigningRequest: `user` is who created it, `request` and `certificate` are PEM texts.
pub record Csr : Type 0 where
  pub name : String
  pub labels : Dict String
  pub user : UserInfo
  pub signer_name : String
  pub request : String
  pub conditions : List CsrCondition
  pub certificate : String

pub record Secret : Type 0 where
  pub namespace : String
  pub name : String
  pub resource_version : String
  pub contents : Dict String

-- A SubjectAccessReview of a resource attribute.
pub record AccessReview : Type 0 where
  pub user : UserInfo
  pub group : String
  pub resource : String
  pub verb : String
  pub subresource : String
  pub name : String

pub record Lease : Type 0 where
  pub namespace : String
  pub name : String
  pub labels : Dict String
  pub holder_identity : String
  pub renew_time : ℕ

pub record ManagedClusterSet : Type 0 where
  pub name : String
  pub deleting : Bool
  pub conditions : List Condition

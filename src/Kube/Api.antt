-- ===== src/Kube/Api.antt =====
-- The clients and informer caches, as the records of their answers. An answer may depend on the
-- trace of all calls before it.
use ocm_registration.Base.{String, List, Bool}
use ocm_registration.Kube.Objects.{
  ManagedCluster, ManagedClusterAddOn, RoleBinding, Role, Manifest, Csr, Secret, AccessReview,
  Namespace, Lease, ManagedClusterSet,
}
use ocm_registration.Kube.Calls.{Result, Trace}

-- `clusterClient`, and the lister of ManagedClusters.
pub record ClusterApi : Type 0 where
  pub get : Trace → String → Result ManagedCluster
  pub create : Trace → ManagedCluster → Result ManagedCluster
  pub update : Trace → ManagedCluster → Result ManagedCluster
  pub update_status : Trace → ManagedCluster → Result ManagedCluster
  pub lister_get : Trace → String → Result ManagedCluster
  pub lister_list : Trace → Result (List ManagedCluster)

pub record AddOnApi : Type 0 where
  pub get : Trace → String → String → Result ManagedClusterAddOn
  pub update_status : Trace → ManagedClusterAddOn → Result ManagedClusterAddOn
  pub lister_get : Trace → String → String → Result ManagedClusterAddOn
  pub lister_list : Trace → String → Result (List ManagedClusterAddOn)

-- `kubeClient` on the hub, as far as RBAC objects and manifests go, with the RBAC listers.
pub record RbacApi : Type 0 where
  pub delete_manifest : Trace → Manifest → Result (Unit {0})
  pub apply_manifest : Trace → String → Result (Unit {0})
  pub list_cluster_role_bindings : Trace → Result (List RoleBinding)
  pub delete_cluster_role_binding : Trace → String → Result (Unit {0})
  pub update_cluster_role_binding : Trace → RoleBinding → Result RoleBinding
  pub list_role_bindings : Trace → Result (List RoleBinding)
  pub delete_role_binding : Trace → String → String → Result (Unit {0})
  pub update_role_binding : Trace → RoleBinding → Result RoleBinding
  pub update_role : Trace → Role → Result Role
  pub role_lister : Trace → String → String → Result Role
  pub role_binding_lister : Trace → String → String → Result RoleBinding
  pub namespace_lister : Trace → String → Result Namespace
  -- The names of the ManifestWorks in a namespace.
  pub manifest_work_lister : Trace → String → Result (List String)

pub record CsrApi : Type 0 where
  pub lister_get : Trace → String → Result Csr
  pub get : Trace → String → Result Csr
  pub create : Trace → Csr → Result Csr
  pub update_approval : Trace → Csr → Result Csr

-- SubjectAccessReviews: the answer is the review's `status.allowed`.
pub record AccessApi : Type 0 where
  pub create_review : Trace → AccessReview → Result Bool

pub record SecretApi : Type 0 where
  pub get : Trace → String → String → Result Secret
  pub create : Trace → Secret → Result Secret
  pub update : Trace → Secret → Result Secret
  pub delete : Trace → String → String → Result (Unit {0})

pub record LeaseApi : Type 0 where
  pub get : Trace → String → String → Result Lease
  pub create : Trace → Lease → Result Lease
  pub update : Trace → Lease → Result Lease
  pub lister_get : Trace → String → String → Result Lease

pub record ClusterSetApi : Type 0 where
  pub lister_get : Trace → String → Result ManagedClusterSet
  pub update_status : Trace → ManagedClusterSet → Result ManagedClusterSet
  -- The clusters whose set label names the set.
  pub list_members : Trace → String → Result (List ManagedCluster)

-- ===== src/Tests/Apis.antt =====
-- API servers and caches that answer the same each time.
use ocm_registration.Base.{String, Bool, true, List, [], ◌∷◌}
use ocm_registration.Kube.{
  Err, not_found, Result, ok, err, ManagedCluster, ManagedClusterStatus, Condition, RoleBinding,
  Csr, Secret, UserInfo, Lease, ClusterApi, RbacApi, CsrApi, AccessApi, SecretApi, LeaseApi,
  CsrCondition,
}

abbrev status_with : List Condition → ManagedClusterStatus
status_with conditions = record {
  conditions = conditions;
  capacity = [];
  allocatable = [];
  version = "";
  cluster_claims = [];
}

abbrev pub cluster_with : String → List String → Bool → Bool → List Condition → ManagedCluster
cluster_with name finalizers deleting accepted conditions = record {
  name = name;
  labels = [];
  finalizers = finalizers;
  deleting = deleting;
  hub_accepts_client = accepted;
  lease_duration_seconds = 60;
  client_configs = [];
  status = status_with conditions;
}

-- The server and the cache have the one cluster, and every write succeeds.
abbrev pub has_cluster : ManagedCluster → ClusterApi
has_cluster c = record {
  get = λ h name. ok c;
  create = λ h new. ok new;
  update = λ h new. ok new;
  update_status = λ h new. ok new;
  lister_get = λ h name. ok c;
  lister_list = λ h. ok (c ∷ []);
}

abbrev pub has_bindings : List RoleBinding → RbacApi
has_bindings bindings = record {
  delete_manifest = λ h o. ok tt;
  apply_manifest = λ h file. ok tt;
  list_cluster_role_bindings = λ h. ok bindings;
  delete_cluster_role_binding = λ h name. ok tt;
  update_cluster_role_binding = λ h b. ok b;
  list_role_bindings = λ h. ok bindings;
  delete_role_binding = λ h namespace name. ok tt;
  update_role_binding = λ h b. ok b;
  update_role = λ h r. ok r;
  role_lister = λ h namespace name. err not_found;
  role_binding_lister = λ h namespace name. err not_found;
  namespace_lister = λ h name. err not_found;
  manifest_work_lister = λ h namespace. ok ("work1" ∷ []);
}

abbrev pub has_csr : Csr → CsrApi
has_csr csr = record {
  lister_get = λ h name. ok csr;
  get = λ h name. ok csr;
  create = λ h new. ok csr;
  update_approval = λ h new. ok new;
}

abbrev pub allows_all : AccessApi
allows_all = record { create_review = λ h review. ok true }

abbrev pub has_secret : Result Secret → SecretApi
has_secret answer = record {
  get = λ h namespace name. answer;
  create = λ h new. ok new;
  update = λ h new. ok new;
  delete = λ h namespace name. ok tt;
}

abbrev pub has_lease : Lease → LeaseApi
has_lease lease = record {
  get = λ h namespace name. ok lease;
  create = λ h new. ok new;
  update = λ h new. ok new;
  lister_get = λ h namespace name. ok lease;
}

abbrev pub user_with : String → List String → UserInfo
user_with name groups = record { username = name; uid = "1"; groups = groups; extra = [] }

abbrev pub csr_with : UserInfo → List CsrCondition → String → Csr
csr_with user conditions certificate = record {
  name = "csr1";
  labels = ("open-cluster-management.io/cluster-name", "c1") ∷ [];
  user = user;
  signer_name = "kubernetes.io/kube-apiserver-client";
  request = "pem";
  conditions = conditions;
  certificate = certificate;
}

abbrev pub error_text : Err → String
error_text e = "error"

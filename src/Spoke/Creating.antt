-- ===== src/Spoke/Creating.antt =====
-- pkg/spoke/managedcluster/creating_controller.go: the agent creates its cluster on the hub. The
-- error's text and `strings.Contains` are in `is_anonymous`.
pub mod Outcomes
use ocm_registration.Base.{
  ℕ, String, Bool, true, false, List, [], ◌∷◌, map, ◌&&◌, ◌||◌, if◌then◌else◌,
}
use ocm_registration.Kube.{
  Err, not_found, conflict, unauthorized, forbidden, failure, is_not_found, wrapped, Result, ok,
  err, Call, get_cluster, create_cluster, event, Trace, Exec, pure, raise, request, handle,
  ManagedCluster, ClientConfig, ClusterApi,
}

abbrev is_unauthorized : Err → Bool
is_unauthorized unauthorized = true
is_unauthorized _ = false

abbrev is_anonymous_forbidden : (String → Bool) → Err → Bool
is_anonymous_forbidden is_anonymous (forbidden text) = is_anonymous text
is_anonymous_forbidden is_anonymous _ = false

-- The agent is not known to the hub yet.
abbrev is_unknown_agent : (String → Bool) → Err → Bool
is_unknown_agent is_anonymous e = is_unauthorized e || is_anonymous_forbidden is_anonymous e

module _ (api : ClusterApi) (is_anonymous : String → Bool) (cluster_name : String)
    (spoke_external_server_urls : List String) (spoke_ca_bundle : String) where
  unfoldable pub new_cluster : ManagedCluster
  new_cluster = record {
    name = cluster_name;
    labels = [];
    finalizers = [];
    deleting = false;
    hub_accepts_client = false;
    lease_duration_seconds = 0;
    client_configs =
        map (λ url. record { url = url; ca_bundle = spoke_ca_bundle }) spoke_external_server_urls;
    status = record {
      conditions = [];
      capacity = [];
      allocatable = [];
      version = "";
      cluster_claims = [];
    };
  }

  abbrev created_cluster : Result ManagedCluster → Exec (Unit {0})
  created_cluster (ok _) h = (ok tt, event "ManagedClusterCreated" ∷ h)
  created_cluster (err e) h = (err (wrapped "unable to create managed cluster" e), h)

  unfoldable pub create : Exec (Unit {0})
  unfolding new_cluster
  create =
      handle (request (create_cluster new_cluster) (λ h. api.create h new_cluster)) created_cluster

  abbrev create_after : Result ManagedCluster → Exec (Unit {0})
  create_after (ok _) h = (ok tt, h)
  create_after (err e) h =
      let (r, h') = create h in
      if is_unknown_agent is_anonymous e
      then (ok tt, h)
      else if is_not_found e
      then (r, h')
      else (err e, h)

  unfoldable pub sync : Exec (Unit {0})
  unfolding create
  sync = handle (request (get_cluster cluster_name) (λ h. api.get h cluster_name)) create_after

-- ===== src/Wiring/Hub.antt =====
-- The constructors of the hub's controllers in pkg/hub, and pkg/hub/manager.go, which starts them.
use ocm_registration.Base.{
  ℕ, String, ◌<>◌, Bool, List, [], ◌∷◌, none, some, ◌==◌, string_eq, nat_eq, ◌||◌, if◌then◌else◌,
}
use ocm_registration.Base.Dict.{Dict}
use ocm_registration.Kube.{Result, ok, err}
use ocm_registration.Hub.ClusterSet.{current_cluster_set_queue_key, original_cluster_set_queue_key}
use ocm_registration.Wiring.Factory.{
  clusters, cluster_sets, csrs, leases, roles, role_bindings, cluster_roles, Controller, minutes,
  always, default_key,
}

abbrev pub new_managed_cluster_controller : Controller
new_managed_cluster_controller = record {
  name = "ManagedClusterController";
  watches = clusters always (λ c. c.name) ∷ [];
  resync_every = none;
}

abbrev pub new_csr_approving_controller : Controller
new_csr_approving_controller = record {
  name = "CSRApprovingController";
  watches = csrs always (λ c. c.name) ∷ [];
  resync_every = none;
}

abbrev pub new_cluster_lease_controller : ℕ → Controller
new_cluster_lease_controller resync_interval = record {
  name = "ManagedClusterLeaseController";
  watches = clusters always default_key ∷ leases always default_key ∷ [];
  resync_every = some resync_interval;
}

-- `cache.MetaNamespaceKeyFunc`.
abbrev pub namespaced_key : String → String → String
namespaced_key namespace name = if namespace == "" then name else namespace <> "/" <> name

abbrev pub new_finalize_controller : Controller
new_finalize_controller = record {
  name = "FinalizeController";
  watches =
      roles always (λ r. namespaced_key r.namespace r.name)
      ∷ role_bindings always (λ b. namespaced_key b.namespace b.name)
      ∷ [];
  resync_every = none;
}

-- The second queue key reads the map of the controller as it is when the event comes.
unfoldable pub new_managed_cluster_set_controller : Dict String → Controller
unfolding current_cluster_set_queue_key original_cluster_set_queue_key
new_managed_cluster_set_controller cluster_sets_map = record {
  name = "ManagedClusterSetController";
  watches =
      cluster_sets always (λ s. s.name)
      ∷ clusters always current_cluster_set_queue_key
      ∷ clusters always (original_cluster_set_queue_key cluster_sets_map)
      ∷ [];
  resync_every = none;
}

-- One of the two shared cluster roles.
abbrev pub is_shared_role : String → Bool
is_shared_role name =
    name == "open-cluster-management:managedcluster:registration"
    || name == "open-cluster-management:managedcluster:work"

abbrev pub new_managed_cluster_clusterrole_controller : Controller
new_managed_cluster_clusterrole_controller = record {
  name = "ManagedClusterClusterRoleController";
  watches = cluster_roles is_shared_role default_key ∷ clusters always default_key ∷ [];
  resync_every = none;
}

abbrev pub new_managed_cluster_addon_health_check_controller : Controller
new_managed_cluster_addon_health_check_controller = record {
  name = "ManagedClusterAddonHealthCheckController";
  watches = clusters always (λ c. c.name) ∷ [];
  resync_every = none;
}

-- `rest.Config`, with the fields that the manager reads or writes. A float32 is a number here, since
-- it is only compared with 0.
pub record ClientLimits : Type 0 where
  pub qps : ℕ
  pub burst : ℕ

pub data ClientKind : Type 0 where
  kube_client cluster_client work_client addon_client : ClientKind

abbrev pub raised_limits : ClientLimits → ClientLimits
raised_limits c = if c.qps == 0 then record { qps = 100; burst = 200 } else c

-- The controllers that are started, each with its number of workers.
abbrev pub hub_controllers : List (Controller × ℕ)
hub_controllers =
    (new_managed_cluster_controller, 1)
    ∷ (new_csr_approving_controller, 1)
    ∷ (new_cluster_lease_controller (minutes 5), 1)
    ∷ (new_finalize_controller, 1)
    ∷ (new_managed_cluster_set_controller [], 1)
    ∷ (new_managed_cluster_clusterrole_controller, 1)
    ∷ (new_managed_cluster_addon_health_check_controller, 1)
    ∷ []

module _ (new_client : ClientKind → ClientLimits → Result (Unit {0})) where
  abbrev pub and_then : {A : Type 0} → ClientKind → ClientLimits → Result A → Result A
  and_then kind limits rest = elim (new_client kind limits) [ err e ↦ err e | ok _ ↦ rest ]

  -- What is started, if all clients can be made.
  unfoldable pub run_controller_manager : ClientLimits → Result (List (Controller × ℕ))
  unfolding new_managed_cluster_set_controller
  run_controller_manager config =
      let limits = raised_limits config in
      and_then kube_client limits (
        and_then cluster_client limits
          (and_then work_client limits (and_then addon_client limits (ok hub_controllers))))

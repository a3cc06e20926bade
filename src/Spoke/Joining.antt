-- ===== src/Spoke/Joining.antt =====
-- pkg/spoke/managedcluster/joining_controller.go: the agent's cluster joins the hub, and its
-- resources and version are kept up to date. A `resource.Quantity` is a number of the smallest
-- unit, and `as_int64` and `parse_mi` stand for `AsInt64` and for `ParseQuantity` of a number of
-- Mi.
pub mod Capacity
pub mod Joined
use ocm_registration.Base.{
  ℕ, String, Bool, true, false, List, [], ◌∷◌, ◌++◌, Option, none, some, not, if◌then◌else◌, ◌+◌,
  ◌/◌,
}
use ocm_registration.Base.Dict.{Dict, lookup, insert}
use ocm_registration.Kube.{
  Err, wrapped, Result, ok, err, event, Trace, Exec, pure, raise, read, record_event, handle,
  Machinery, ManagedCluster, ManagedClusterStatus, Condition, condition_true, ClusterApi,
}
use ocm_registration.Helpers.Status.{
  UpdateFunc, update_managed_cluster_condition_fn, update_managed_cluster_status,
}
use ocm_registration.Hub.ManagedCluster.{hub_accepted}
use ocm_registration.Spoke.Claims.{joined}

-- The capacity and the allocatable resources of a node.
pub record Node : Type 0 where
  pub cpu_capacity : ℕ
  pub memory_capacity : ℕ
  pub cpu_allocatable : ℕ
  pub memory_allocatable : ℕ

-- The four sums of the loop over the nodes.
unfoldable sum_resources : List Node → Node → Node
sum_resources [] total = total
sum_resources (n ∷ ns) total = sum_resources ns (record {
  cpu_capacity = total.cpu_capacity + n.cpu_capacity;
  memory_capacity = total.memory_capacity + n.memory_capacity;
  cpu_allocatable = total.cpu_allocatable + n.cpu_allocatable;
  memory_allocatable = total.memory_allocatable + n.memory_allocatable;
})

abbrev no_resources : Node
no_resources = record {
  cpu_capacity = 0;
  memory_capacity = 0;
  cpu_allocatable = 0;
  memory_allocatable = 0;
}

module _ (as_int64 : ℕ → ℕ) (parse_mi : ℕ → Option ℕ) where
  unfoldable format_quantity_to_mi : ℕ → ℕ
  format_quantity_to_mi q = elim (parse_mi (as_int64 q / 1048576)) [ none ↦ q | some rq ↦ rq ]

  abbrev resources : ℕ → ℕ → Dict ℕ
  resources cpu memory = ("cpu", cpu) ∷ ("memory", format_quantity_to_mi memory) ∷ []

  unfoldable pub get_cluster_resources : List Node → Dict ℕ × Dict ℕ
  unfolding sum_resources format_quantity_to_mi
  get_cluster_resources nodes =
      let total = sum_resources nodes no_resources in
      (
        resources total.cpu_capacity total.memory_capacity,
        resources total.cpu_allocatable total.memory_allocatable,
      )

-- The loop over the old capacity: an entry that the new one lacks is put back.
unfoldable pub merge_capacity : Dict ℕ → Dict ℕ → Dict ℕ
unfolding lookup insert
merge_capacity [] new = new
merge_capacity ((key, val) ∷ old) new =
    merge_capacity old (elim (lookup key new) [ none ↦ insert key val new | some _ ↦ new ])

unfoldable pub update_cluster_resources_fn :
    Dict ℕ → Dict ℕ → String → UpdateFunc ManagedClusterStatus
unfolding merge_capacity
update_cluster_resources_fn capacity allocatable version old_status = ok (record old_status {
  capacity = merge_capacity old_status.capacity capacity;
  allocatable = allocatable;
  version = version;
})

abbrev pub joined_condition : Condition
joined_condition = record {
  type = joined;
  status = condition_true;
  reason = "ManagedClusterJoined";
  message = "Managed cluster joined";
  last_transition_time = 0;
}

module _ (m : Machinery) (clusters : ClusterApi)
    (retry : Exec (ManagedClusterStatus × Bool) → Exec (ManagedClusterStatus × Bool))
    (node_lister : Trace → Result (List Node)) (server_version : Trace → Result String)
    (as_int64 : ℕ → ℕ) (parse_mi : ℕ → Option ℕ) (cluster_name : String) where
  abbrev pub update_funcs : Bool → List Node → String → List (UpdateFunc ManagedClusterStatus)
  update_funcs is_joined nodes version =
      let (capacity, allocatable) = get_cluster_resources as_int64 parse_mi nodes in
      let rest = update_cluster_resources_fn capacity allocatable version ∷ [] in
      if is_joined then rest else update_managed_cluster_condition_fn m joined_condition ∷ rest

  abbrev pub note_joined : Bool → Result (ManagedClusterStatus × Bool) → Exec (Unit {0})
  note_joined is_joined (err e) h =
      (err (wrapped "unable to update status of managed cluster" e), h)
  note_joined is_joined (ok (s, false)) h = (ok tt, h)
  note_joined is_joined (ok (s, true)) h =
      (ok tt, if is_joined then h else event "ManagedClusterJoined" ∷ h)

  abbrev pub with_version : Bool → List Node → Result String → Exec (Unit {0})
  with_version is_joined nodes (err e) = raise (wrapped "unable to get server version" e)
  with_version is_joined nodes (ok version) =
      handle
        (update_managed_cluster_status m clusters retry cluster_name
          (update_funcs is_joined nodes version))
        (note_joined is_joined)

  abbrev with_nodes : Bool → Result (List Node) → Exec (Unit {0})
  with_nodes is_joined (err e) = raise (wrapped "unable to get capacity and allocatable" e)
  with_nodes is_joined (ok nodes) = handle (read server_version) (with_version is_joined nodes)

  abbrev with_cluster : Result ManagedCluster → Exec (Unit {0})
  with_cluster (err e) = raise (wrapped "unable to get managed cluster" e)
  with_cluster (ok cluster) =
      if not (m.is_status_condition_true cluster.status.conditions hub_accepted)
      then record_event "ManagedClusterIsNotAccepted"
      else handle (read node_lister)
          (with_nodes (m.is_status_condition_true cluster.status.conditions joined))

  unfoldable pub sync : Exec (Unit {0})
  unfolding get_cluster_resources update_cluster_resources_fn
  sync = handle (read (λ h. clusters.lister_get h cluster_name)) with_cluster

-- ===== src/Hub/ClusterSet.antt =====
-- pkg/hub/managedclusterset/controller.go: the Empty condition of each cluster set, and the map
-- from clusters to the sets they were last seen in. The lock of the map is left out: each function
-- that takes it is one step. `same_conditions` stands for `reflect.DeepEqual`, `number_text` for
-- "%d".
pub mod Members
pub mod Orders
use ocm_registration.Base.{
  ℕ, String, Bool, true, false, List, [], ◌∷◌, Option, none, some, ◌==◌, string_eq, if◌then◌else◌,
  not, length, contains, keep_if, map, ◌<>◌,
}
use ocm_registration.Base.Dict.{Dict, lookup, insert, erase, at}
use ocm_registration.Kube.{
  Err, is_not_found, wrapped, Result, ok, err, Call, update_cluster_set_status, Trace, Machinery,
  ManagedCluster, ManagedClusterSet, Condition, condition_true, condition_false, ClusterSetApi,
}

abbrev pub cluster_set_label : String
cluster_set_label = "cluster.open-cluster-management.io/clusterset"

-- The labels of a cluster. A nil map is the empty one.
unfoldable pub current_cluster_set_queue_key : ManagedCluster → String
unfolding at
current_cluster_set_queue_key cluster = at cluster.labels cluster_set_label

unfoldable pub original_cluster_set_queue_key : Dict String → ManagedCluster → String
unfolding at
original_cluster_set_queue_key cluster_sets_map cluster =
    let original = at cluster_sets_map cluster.name in
    if not (original == at cluster.labels cluster_set_label) then original else ""

abbrev pub is_in_set : String → Option String → Bool
is_in_set set none = false
is_in_set set (some other) = other == set

abbrev pub keys : Dict String → List String
keys [] = []
keys ((k, _) ∷ d) = k ∷ keys d

-- The loops over a set of names. `Difference` keeps the names that are not in the other set.
unfoldable pub insert_all : String → List String → Dict String → Dict String
insert_all set [] d = d
insert_all set (name ∷ names) d = insert_all set names (insert name set d)

unfoldable pub erase_all : List String → Dict String → Dict String
erase_all [] d = d
erase_all (name ∷ names) d = erase_all names (erase name d)

abbrev pub difference : List String → List String → List String
difference names others = keep_if (λ name. not (contains others name)) names

abbrev pub members_of : String → Dict String → List String
members_of set d = keep_if (λ name. is_in_set set (lookup name d)) (keys d)

abbrev pub names_of : List ManagedCluster → List String
names_of = map (λ (c : ManagedCluster). c.name)

unfoldable pub update_cluster_sets_map : String → List ManagedCluster → Dict String → Dict String
unfolding insert_all erase_all lookup
update_cluster_sets_map set clusters d =
    let new_members = names_of clusters in
    let original_members = members_of set d in
    erase_all (difference original_members new_members)
      (insert_all set (difference new_members original_members) d)

module _ (m : Machinery) (api : ClusterSetApi)
    (same_conditions : List Condition → List Condition → Bool) (number_text : ℕ → String) where
  unfoldable empty_condition : List ManagedCluster → Condition
  empty_condition [] = record {
    type = "ClusterSetEmpty";
    status = condition_true;
    reason = "NoClusterMatched";
    message = "No ManagedCluster selected";
    last_transition_time = 0;
  }
  empty_condition (c ∷ cs) = record {
    type = "ClusterSetEmpty";
    status = condition_false;
    reason = "ClustersSelected";
    message = number_text (length (c ∷ cs)) <> " ManagedClusters selected";
    last_transition_time = 0;
  }

  abbrev updated_set : Result ManagedClusterSet → Result (Unit {0})
  updated_set (ok _) = ok tt
  updated_set (err e) = err (wrapped "failed to update status of ManagedClusterSet" e)

  unfoldable sync_cluster_set :
      ManagedClusterSet → Dict String → Trace → Result (Unit {0}) × Dict String × Trace
  unfolding update_cluster_sets_map empty_condition
  sync_cluster_set cluster_set d h = elim (api.list_members h cluster_set.name) [
    | err e ↦ (err (wrapped "failed to list ManagedClusters" e), d, h)
    | ok clusters ↦
        let d' = update_cluster_sets_map cluster_set.name clusters d in
        let conditions = m.set_status_condition cluster_set.conditions (empty_condition clusters) in
        let changed = record cluster_set { conditions = conditions } in
        if same_conditions conditions cluster_set.conditions
        then (ok tt, d', h)
        else (updated_set (api.update_status h changed), d', update_cluster_set_status changed ∷ h)
  ]

  abbrev wrapped_error : Result (Unit {0}) → Result (Unit {0})
  wrapped_error (ok _) = ok tt
  wrapped_error (err e) = err (wrapped "failed to sync ManagedClusterSet" e)

  unfoldable pub sync : String → Dict String → Trace → Result (Unit {0}) × Dict String × Trace
  unfolding sync_cluster_set
  sync name d h = if name == "" then (ok tt, d, h) else elim (api.lister_get h name) [
    | err e ↦ (if is_not_found e then ok tt else err e, d, h)
    | ok cluster_set ↦
        let (r, d', h') = sync_cluster_set cluster_set d h in
        if cluster_set.deleting then (ok tt, d, h) else (wrapped_error r, d', h')
  ]

-- ===== src/Hub/ClusterSet/Orders.antt =====
-- The map from clusters to sets after synchronisations of several sets.
use ocm_registration.Base.{
  String, false, List, [], ◌∷◌, Option, none, some, ◌==◌, string_eq, if◌then◌else◌, contains,
  keep_if, ◌≡◌, refl, ◌∙◌, ap, inl, inr, arith, Option-cases,
}
use ocm_registration.Base.Dict.{Dict, lookup}
use ocm_registration.Kube.{ManagedCluster}
use ocm_registration.Hub.ClusterSet.{
  current_cluster_set_queue_key, is_in_set, names_of, update_cluster_sets_map,
}
use ocm_registration.Hub.ClusterSet.Members.{update_cluster_sets_map_lem}

-- The clusters that the selector of a set lists, among all clusters.
abbrev pub listed_in : List ManagedCluster → String → List ManagedCluster
listed_in all set = keep_if (λ c. current_cluster_set_queue_key c == set) all

-- The map after sets were synchronised one after the other.
unfoldable pub synced_map : List ManagedCluster → List String → Dict String → Dict String
synced_map all [] d = d
synced_map all (set ∷ sets) d =
    synced_map all sets (update_cluster_sets_map set (listed_in all set) d)

-- The names of the clusters differ.
abbrev pub HasUniqueNames : List ManagedCluster → Type 0
HasUniqueNames [] = Unit {0}
HasUniqueNames (c ∷ cs) = (contains (names_of cs) c.name ≡ false) × HasUniqueNames cs

-- The label of the cluster with a name.
abbrev pub label_of : List ManagedCluster → String → Option String
label_of [] name = none
label_of (c ∷ cs) name =
    if c.name == name then some (current_cluster_set_queue_key c) else label_of cs name

-- What the map should have for a cluster, from its label and the map before: the label if that set
-- was synchronised, and else what it had if that set was not.
abbrev kept : List String → Option String → Option String
kept sets none = none
kept sets (some old) = if contains sets old then none else some old

abbrev pub expected : List String → Option String → Option String → Option String
expected sets none old = kept sets old
expected sets (some label) old = if contains sets label then some label else kept sets old

label_of-none :
    (all : List ManagedCluster) (name : String)
    → contains (names_of all) name ≡ false
    → label_of all name ≡ none
label_of-none [] name e = refl
label_of-none (c ∷ cs) name e = ground (arith, e, label_of-none cs name)

names_of-listed_in :
    (all : List ManagedCluster) (set name : String)
    → HasUniqueNames all
    → contains (names_of (listed_in all set)) name ≡ is_in_set set (label_of all name)
names_of-listed_in [] set name u = refl
names_of-listed_in (c ∷ cs) set name (fresh, u) =
    ground (arith, names_of-listed_in cs set name u, label_of-none cs name, fresh)

-- One synchronisation, seen at one cluster.
expected_step :
    (set : String) (sets : List String) (label old : Option String)
    → expected sets label
        (if is_in_set set label then some set else if is_in_set set old then none else old)
      ≡ expected (set ∷ sets) label old
expected_step set sets none none = ground arith
expected_step set sets none (some old) = ground arith
expected_step set sets (some label) none = ground arith
expected_step set sets (some label) (some old) = ground arith

-- The map that the controller keeps up to date set by set is the one computed from the labels: for
-- clusters that have names of their own and do not change meanwhile, a cluster is sent to the set
-- that its label names if that set was synchronised; otherwise it is sent to no set if the set that
-- it was in was synchronised, and where it was before if not.
pub synced_map_lem :
    (all : List ManagedCluster) (sets : List String) (d : Dict String) (name : String)
    → HasUniqueNames all
    → lookup name (synced_map all sets d) ≡ expected sets (label_of all name) (lookup name d)
unfolding synced_map
synced_map_lem all [] d name u = elim (Option-cases (label_of all name)) [
  | inl unlabelled ↦ ground (arith, unlabelled, Option-cases (lookup name d))
  | inr (label, labelled) ↦ ground (arith, labelled, Option-cases (lookup name d))
]
synced_map_lem all (set ∷ sets) d name u =
    let d' = update_cluster_sets_map set (listed_in all set) d in
    synced_map_lem all sets d' name u
    ∙ ap (λ o. expected sets (label_of all name) o)
        (update_cluster_sets_map_lem set (listed_in all set) d name
          ∙ rw (names_of-listed_in all set name u) refl)
    ∙ expected_step set sets (label_of all name) (lookup name d)

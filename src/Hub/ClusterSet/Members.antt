-- ===== src/Hub/ClusterSet/Members.antt =====
-- The map from clusters to sets after a set was synchronised.
use ocm_registration.Base.{
  contains-keep_if, String, Bool, true, false, List, [], ◌∷◌, Option, none, some, string_eq,
  if◌then◌else◌, not, contains, ◌≡◌, ◌≢◌, refl, arith, ◌&&◌,
}
use ocm_registration.Base.Dict.{Dict, lookup, insert, erase, at, lookup-insert, lookup-erase}
use ocm_registration.Kube.{ManagedCluster}
use ocm_registration.Hub.ClusterSet.{
  current_cluster_set_queue_key, original_cluster_set_queue_key, is_in_set, keys, insert_all,
  erase_all, difference, members_of, names_of, update_cluster_sets_map,
}

lookup-insert_all :
    (c set : String) (names : List String) (d : Dict String)
    → lookup c (insert_all set names d) ≡ (if contains names c then some set else lookup c d)
unfolding insert_all
lookup-insert_all c set [] d = refl
lookup-insert_all c set (name ∷ names) d =
    ground (arith, lookup-insert_all c set names (insert name set d), lookup-insert c name set d)

lookup-erase_all :
    (c : String) (names : List String) (d : Dict String)
    → lookup c (erase_all names d) ≡ (if contains names c then none else lookup c d)
unfolding erase_all
lookup-erase_all c [] d = refl
lookup-erase_all c (name ∷ names) d =
    ground (arith, lookup-erase_all c names (erase name d), lookup-erase c name d)

-- A name that the map sends to the set is one of the keys.
keys-is_in_set :
    (set c : String) (d : Dict String)
    → is_in_set set (lookup c d) ≡ true
    → contains (keys d) c ≡ true
unfolding lookup
keys-is_in_set set c [] e = absurd (ground (arith, e))
keys-is_in_set set c (_ ∷ d) e = ground (arith, e, keys-is_in_set set c d)

contains-members_of :
    (set c : String) (d : Dict String) → contains (members_of set d) c ≡ is_in_set set (lookup c d)
contains-members_of set c d = ground (
  arith,
  contains-keep_if (λ name. is_in_set set (lookup name d)) (keys d) c,
  keys-is_in_set set c d,
)

contains-difference :
    (names others : List String) (c : String)
    → contains (difference names others) c ≡ (contains names c && not (contains others c))
contains-difference names others c = contains-keep_if (λ name. not (contains others name)) names c

is_in_set-eq : (set : String) (o : Option String) → is_in_set set o ≡ true → o ≡ some set
is_in_set-eq set none e = absurd (ground (arith, e))
is_in_set-eq set (some other) e = ground (arith, e)

-- The two loops, seen at one cluster.
seen_at :
    (set : String) (listed : Bool) (o : Option String)
    → (if is_in_set set o && not listed
        then none
        else if listed && not (is_in_set set o)
        then some set
        else o)
      ≡ (if listed then some set else if is_in_set set o then none else o)
seen_at set false o = ground (arith, is_in_set-eq set o)
seen_at set true o = ground (arith, is_in_set-eq set o)

-- After a set was synchronised, the map sends exactly the clusters listed for it to it, and every
-- other cluster where it did before: in no set, if it was in this one.
pub update_cluster_sets_map_lem :
    (set : String) (clusters : List ManagedCluster) (d : Dict String) (c : String)
    → lookup c (update_cluster_sets_map set clusters d) ≡ (
        if contains (names_of clusters) c
        then some set
        else if is_in_set set (lookup c d)
        then none
        else lookup c d)
unfolding update_cluster_sets_map
update_cluster_sets_map_lem set clusters d c =
    let news = names_of clusters in
    let olds = members_of set d in
    ground (
      arith,
      lookup-erase_all c (difference olds news) (insert_all set (difference news olds) d),
      lookup-insert_all c set (difference news olds) d,
      contains-difference olds news c,
      contains-difference news olds c,
      contains-members_of set c d,
      seen_at set (contains news c) (lookup c d),
    )

-- A cluster that was listed for a set when it was synchronised puts that set in the queue again as
-- soon as its label names another one, and nothing while it still names the set.
pub original_cluster_set_queue_key_lem :
    (set : String) (clusters : List ManagedCluster) (d : Dict String) (cluster : ManagedCluster)
    → contains (names_of clusters) cluster.name ≡ true
    → let key = original_cluster_set_queue_key (update_cluster_sets_map set clusters d) cluster in
      (current_cluster_set_queue_key cluster ≢ set → key ≡ set)
      × (current_cluster_set_queue_key cluster ≡ set → key ≡ "")
unfolding original_cluster_set_queue_key current_cluster_set_queue_key at
original_cluster_set_queue_key_lem set clusters d cluster listed =
    let seen = update_cluster_sets_map_lem set clusters d cluster.name in
    (λ p. ground (arith, seen, listed, p), λ p. ground (arith, seen, listed, p))

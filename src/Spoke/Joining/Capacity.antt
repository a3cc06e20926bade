-- ===== src/Spoke/Joining/Capacity.antt =====
-- What a status update makes of the resources of a cluster.
use ocm_registration.Base.{
  Option-cases, ℕ, String, [], ◌∷◌, Option, none, some, ◌≡◌, inl, inr, arith, string_eq,
}
use ocm_registration.Base.Dict.{Dict, lookup, insert, lookup-insert}
use ocm_registration.Kube.{ok, ManagedClusterStatus}
use ocm_registration.Spoke.Joining.{merge_capacity, update_cluster_resources_fn}

-- The first of two entries that is there.
abbrev pub or_old : Option ℕ → Option ℕ → Option ℕ
or_old none old = old
or_old (some v) old = some v

lookup-merge_capacity :
    (k : String) (old new : Dict ℕ)
    → lookup k (merge_capacity old new) ≡ or_old (lookup k new) (lookup k old)
unfolding merge_capacity
lookup-merge_capacity k [] new = elim (Option-cases (lookup k new)) [
  | inl missing ↦ ground (arith, missing)
  | inr (w, has) ↦ ground (arith, has)
]
lookup-merge_capacity k ((j, v) ∷ old) new =
    let with_entry = lookup-merge_capacity k old (insert j v new) in
    let without = lookup-merge_capacity k old new in
    elim (Option-cases (lookup j new)) [
      | inl missing ↦ ground (arith, missing, with_entry, lookup-insert k j v new)
      | inr (w, has) ↦ ground (arith, has, without)
    ]

-- The update replaces the allocatable resources and the version, keeps the conditions and claims,
-- and gives every resource its new capacity, or its old one if the new capacity has none.
pub update_cluster_resources_fn_lem :
    (capacity allocatable : Dict ℕ) (version : String) (old new : ManagedClusterStatus)
    → update_cluster_resources_fn capacity allocatable version old ≡ ok new
    → ((k : String) → lookup k new.capacity ≡ or_old (lookup k capacity) (lookup k old.capacity))
      × (new.allocatable ≡ allocatable)
      × (new.version ≡ version)
      × (new.conditions ≡ old.conditions)
      × (new.cluster_claims ≡ old.cluster_claims)
unfolding update_cluster_resources_fn
update_cluster_resources_fn_lem capacity allocatable version old new e = (
  λ k. ground (arith, e, lookup-merge_capacity k old.capacity capacity),
  ground (arith, e),
  ground (arith, e),
  ground (arith, e),
  ground (arith, e),
)

-- ===== src/Wiring/Factory.antt =====
-- What the constructors pass to `factory.New` of library-go: the informers of a controller, with a
-- filter and a queue key for each event of an object, and the period of its resyncs. The queue keys
-- are those that the closures of the code compute; putting them in the queue is library-go's.
use ocm_registration.Base.{ℕ, String, Bool, true, List, [], ◌∷◌, Option, if◌then◌else◌, ◌*◌}
use ocm_registration.Kube.{
  ManagedCluster, ManagedClusterSet, ManagedClusterAddOn, Csr, Lease, Role, RoleBinding, Secret,
  ClusterClaim,
}

-- An informer with a filter and a queue key. A ClusterRole is given by its name, and of a Node only
-- its existence matters.
pub data Watch : Type 0 where
  clusters : (ManagedCluster → Bool) → (ManagedCluster → String) → Watch
  cluster_sets : (ManagedClusterSet → Bool) → (ManagedClusterSet → String) → Watch
  addons : (ManagedClusterAddOn → Bool) → (ManagedClusterAddOn → String) → Watch
  csrs : (Csr → Bool) → (Csr → String) → Watch
  leases : (Lease → Bool) → (Lease → String) → Watch
  roles : (Role → Bool) → (Role → String) → Watch
  role_bindings : (RoleBinding → Bool) → (RoleBinding → String) → Watch
  cluster_roles : (String → Bool) → (String → String) → Watch
  secrets : (Secret → Bool) → (Secret → String) → Watch
  claims : (ClusterClaim → Bool) → (ClusterClaim → String) → Watch
  nodes : String → Watch

-- Periods are numbers of nanoseconds, and `none` is no resync.
pub record Controller : Type 0 where
  pub name : String
  pub watches : List Watch
  pub resync_every : Option ℕ

abbrev pub minutes : ℕ → ℕ
minutes n = n * 60000000000

-- The key of a resync, and of the events of an informer without a queue key.
abbrev pub default_queue_key : String
default_queue_key = "key"

module _ {ℓ} {A : Type ℓ} where
  abbrev pub always : A → Bool
  always x = true

  abbrev pub default_key : A → String
  default_key x = default_queue_key

-- The keys that an event of a cluster, or of a request, has in the queue of a controller.
abbrev pub cluster_keys : List Watch → ManagedCluster → List String
cluster_keys [] c = []
cluster_keys (clusters filter key ∷ ws) c =
    let rest = cluster_keys ws c in if filter c then key c ∷ rest else rest
cluster_keys (_ ∷ ws) c = cluster_keys ws c

abbrev pub csr_keys : List Watch → Csr → List String
csr_keys [] c = []
csr_keys (csrs filter key ∷ ws) c =
    let rest = csr_keys ws c in if filter c then key c ∷ rest else rest
csr_keys (_ ∷ ws) c = csr_keys ws c

abbrev pub addon_keys : List Watch → ManagedClusterAddOn → List String
addon_keys [] c = []
addon_keys (addons filter key ∷ ws) c =
    let rest = addon_keys ws c in if filter c then key c ∷ rest else rest
addon_keys (_ ∷ ws) c = addon_keys ws c

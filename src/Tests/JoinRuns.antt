-- ===== src/Tests/JoinRuns.antt =====
-- Runs of the joining controller.
use ocm_registration.Base.{
  ℕ, String, true, false, List, [], ◌∷◌, Option, some, string_eq, nat_eq, ◌*◌,
}
use ocm_registration.Kube.{Result, ok, Trace, ManagedCluster, ManagedClusterStatus}
use ocm_registration.Hub.ManagedCluster.{accepted_condition}
use ocm_registration.Spoke.Joining.{Node, joined_condition}
use ocm_registration.Tests.Apis.{cluster_with}

abbrev old_status : ManagedClusterStatus
old_status = record {
  conditions = [];
  capacity = ("cpu", 1) ∷ ("gpu", 2) ∷ [];
  allocatable = [];
  version = "v1.18";
  cluster_claims = [];
}

abbrev new_status : ManagedClusterStatus
new_status = record {
  conditions = [];
  capacity = ("cpu", 4) ∷ ("gpu", 2) ∷ [];
  allocatable = ("cpu", 3) ∷ [];
  version = "v1.19";
  cluster_claims = [];
}

abbrev accepted : ManagedCluster
accepted = cluster_with "c1" [] false true (accepted_condition ∷ [])

abbrev node_lister : Trace → Result (List Node)
node_lister h = ok (
    record {
      cpu_capacity = 4;
      memory_capacity = 1048576;
      cpu_allocatable = 3;
      memory_allocatable = 1048576;
    }
    ∷ [])

abbrev server_version : Trace → Result String
server_version h = ok "v1.19"

abbrev as_int64 : ℕ → ℕ
as_int64 q = q

abbrev parse_mi : ℕ → Option ℕ
parse_mi n = some (n * 1048576)

-- What the sync writes for the accepted cluster.
abbrev joining : ManagedCluster
joining = record accepted {
  status = record {
    conditions = accepted_condition ∷ joined_condition ∷ [];
    capacity = ("cpu", 4) ∷ ("memory", 1048576) ∷ [];
    allocatable = ("cpu", 3) ∷ ("memory", 1048576) ∷ [];
    version = "v1.19";
    cluster_claims = [];
  };
}

-- ===== src/Tests/HelperRuns.antt =====
-- Runs of the helpers.
use ocm_registration.Base.{
  ℕ, String, Bool, true, false, List, [], ◌∷◌, ◌≡◌, ◌≢◌, refl, ◌⊎◌, arith, All, length, ◌≤◌, ◌+◌,
  ◌*◌,
}
use ocm_registration.Kube.{
  Trace, ManagedCluster, Result, ok, RoleBinding, Subject, Manifest, role_manifest,
  list_cluster_role_bindings, list_role_bindings,
}
use ocm_registration.Helpers.Status.{
  update_managed_cluster_status, update_managed_cluster_condition_fn,
}
use ocm_registration.Helpers.Status.Laws.{Ended, update_managed_cluster_status-Ended}
use ocm_registration.Helpers.Cleanup.{
  clean_up_group_from_cluster_role_bindings, clean_up_group_from_role_bindings,
}
use ocm_registration.Helpers.Cleanup.Bindings.{
  ClusterCleaned, NamespaceCleaned, ClusterTouched, NamespaceTouched, clean_up_groups-Cleaned,
}
use ocm_registration.Helpers.Status.Retries.{Sends}
use ocm_registration.Hub.ManagedCluster.{accepted_condition, denied_condition}
use ocm_registration.Tests.Fixtures.{machinery, retry, retry_is_retry}
use ocm_registration.Tests.Apis.{cluster_with, has_cluster, has_bindings}

abbrev accepted_cluster : ManagedCluster
accepted_cluster = cluster_with "c1" [] false true (accepted_condition ∷ [])

update_managed_cluster_status-Ended_example :
    Ended machinery
      (has_cluster accepted_cluster)
      "c1"
      (update_managed_cluster_condition_fn machinery denied_condition ∷ [])
      (update_managed_cluster_status machinery
        (has_cluster accepted_cluster)
        retry
        "c1"
        (update_managed_cluster_condition_fn machinery denied_condition ∷ [])
        [])
update_managed_cluster_status-Ended_example =
    update_managed_cluster_status-Ended machinery (has_cluster accepted_cluster) retry_is_retry "c1"
      (update_managed_cluster_condition_fn machinery denied_condition ∷ []) []

abbrev asset : String → Result String
asset file = ok "role"

abbrev decode : String → Result Manifest
decode raw = ok (role_manifest "c1" "role1")

abbrev group : String
group = "system:open-cluster-management:c1"

abbrev binding_of : List Subject → RoleBinding
binding_of subjects = record {
  namespace = "";
  name = "binding1";
  finalizers = [];
  deleting = false;
  subjects = subjects;
}

abbrev subject_of : String → Subject
subject_of name = record { kind = "Group"; name = name; namespace = "" }

abbrev three_bindings : List RoleBinding
three_bindings =
    binding_of (subject_of group ∷ subject_of "other" ∷ [])
    ∷ binding_of (subject_of group ∷ [])
    ∷ binding_of (subject_of "other" ∷ [])
    ∷ []

abbrev after_cluster_bindings : Trace
after_cluster_bindings =
    (clean_up_group_from_cluster_role_bindings (has_bindings three_bindings) group []).1

abbrev after_bindings : Trace
after_bindings =
    (clean_up_group_from_role_bindings (has_bindings three_bindings) group after_cluster_bindings).1

clean_up_groups-Cleaned_example :
    All (ClusterCleaned (has_bindings three_bindings) group after_cluster_bindings) three_bindings
    × All (NamespaceCleaned (has_bindings three_bindings) group after_bindings) three_bindings
    × Sends
        (λ c.
          (c ≡ list_cluster_role_bindings)
          ⊎ ClusterTouched (has_bindings three_bindings) group three_bindings c)
        []
        after_cluster_bindings
    × Sends
        (λ c.
          (c ≡ list_role_bindings)
          ⊎ NamespaceTouched (has_bindings three_bindings) group three_bindings c)
        after_cluster_bindings
        after_bindings
unfolding clean_up_group_from_cluster_role_bindings clean_up_group_from_role_bindings
    ocm_registration.Base.nat_eq ocm_registration.Base.string_eq
clean_up_groups-Cleaned_example =
    clean_up_groups-Cleaned (has_bindings three_bindings) group [] refl refl refl refl

-- ===== src/Tests/AddOnRuns.antt =====
-- Runs of the controllers for add-ons.
use ocm_registration.Base.{
  ℕ, ◌≢◌, nat_eq, String, Bool, true, false, List, [], ◌∷◌, Option, some, ◌≢◌, refl, inl, string_eq,
  nat_eq, All,
}
use ocm_registration.Kube.{
  not_found, Result, ok, err, Trace, At, get_addon, Condition, condition_unknown, ManagedCluster,
  ManagedClusterAddOn, Registration, AddOnApi, Lease, SecretApi,
}
use ocm_registration.Helpers.Status.Retries.{Sends}
use ocm_registration.Hub.AddOnHealth.Marked.{Marks, sync-Marks}
use ocm_registration.Hub.AddOnHealth as Health
use ocm_registration.Spoke.AddOn.Configuration.{get_registration_configs, config_of}
use ocm_registration.Spoke.AddOn.Registration as Registrations
use ocm_registration.Spoke.AddOn.Registration.{State, initial, cached, sync_addon}
use ocm_registration.Spoke.AddOn.Registration.NoLeak.{NoLeak}
use ocm_registration.Spoke.AddOn.Registration.Reachable.{start, later, Reach-NoLeak}
use ocm_registration.Spoke.AddOn.Registration.Settled.{
  Settled, Cleaned, sync_addon-Settled, sync_addon-Cleaned,
}
use ocm_registration.Spoke.AddOn.Registration.Stopping.{Running}
use ocm_registration.Spoke.AddOn.Registration.Starting.{Has}
use ocm_registration.Spoke.AddOn.Registration.Reserved.{IsAbsent, Reach-unregistered}
use ocm_registration.Spoke.AddOn.Registration.Deletes.{Deletes}
use ocm_registration.Spoke.AddOn.Registration.Unwanted.{Unwanted, sync_addon-Deletes}
use ocm_registration.Tests.Fixtures.{machinery, machinery_laws, retry, retry_is_retry}
use ocm_registration.Tests.Apis.{cluster_with, has_cluster, has_secret}

abbrev registration : Registration
registration = record {
  signer_name = "kubernetes.io/kube-apiserver-client";
  user = "";
  groups = [];
  organization_units = [];
}

abbrev addon_with : Bool → List Condition → List Registration → ManagedClusterAddOn
addon_with deleting conditions registrations = record {
  namespace = "c1";
  name = "addon1";
  install_namespace = "ns1";
  deleting = deleting;
  status = record { conditions = conditions; registrations = registrations };
}

abbrev addon : ManagedClusterAddOn
addon = addon_with false [] (registration ∷ [])

abbrev has_addon : Result ManagedClusterAddOn → AddOnApi
has_addon answer = record {
  get = λ h namespace name. ok addon;
  update_status = λ h new. ok new;
  lister_get = λ h namespace name. answer;
  lister_list = λ h namespace. ok (addon ∷ []);
}

abbrev hash_of : Registration → Result String
hash_of r = ok "hash1"

abbrev secrets : SecretApi
secrets = has_secret (err not_found)

abbrev added : State
added =
    (sync_addon machinery (has_addon (ok addon)) secrets hash_of "c1" "a1" "config" "addon1" initial
      []).1

abbrev after_sync : State
after_sync =
    (Registrations.sync machinery (has_addon (ok addon)) secrets hash_of "c1" "a1" "config" "addon1"
      initial []).1

Reach-NoLeak_example : NoLeak after_sync
Reach-NoLeak_example =
    Reach-NoLeak machinery hash_of "c1" "a1" "config" after_sync
      (later (has_addon (ok addon)) secrets "addon1" [] start)

Reach-unregistered_example :
    IsAbsent after_sync
    × ((i : ℕ)
        → Running after_sync i
        → (addon_name : String) × (addon_name ≢ "key") × Has (cached addon_name after_sync) i)
Reach-unregistered_example =
    Reach-unregistered machinery hash_of "c1" "a1" "config" after_sync
      (later (has_addon (ok addon)) secrets "addon1" [] start)

sync_addon-Settled_example :
    Settled []
      (("hash1", config_of hash_of addon registration "hash1") ∷ [])
      (cached "addon1" added)
      added
unfolding get_registration_configs sync_addon
sync_addon-Settled_example =
    sync_addon-Settled machinery (has_addon (ok addon)) secrets hash_of "c1" "a1" "config" "addon1"
      initial [] addon (("hash1", config_of hash_of addon registration "hash1") ∷ []) refl refl refl
      refl

sync_addon-Cleaned_example :
    Cleaned machinery
      (has_addon (err not_found))
      secrets
      hash_of
      "c1"
      "a1"
      "config"
      "addon1"
      added
      []
      (sync_addon machinery
        (has_addon (err not_found))
        secrets
        hash_of
        "c1"
        "a1"
        "config"
        "addon1"
        added
        [])
sync_addon-Cleaned_example =
    sync_addon-Cleaned machinery (has_addon (err not_found)) secrets hash_of "c1" "a1" "config"
      "addon1" added [] (inl (not_found, refl, refl))

-- Two registrations with one signer, and the state after the second is withdrawn.
abbrev other_registration : Registration
other_registration = record registration { user = "user2" }

abbrev hash_of_user : Registration → Result String
hash_of_user r = ok r.user

abbrev both : State
both =
    (sync_addon machinery
      (has_addon (ok (addon_with false [] (registration ∷ other_registration ∷ [])))) secrets
      hash_of_user "c1" "a1" "config" "addon1" initial []).1

sync_addon-Deletes_example :
    Deletes
      (Unwanted machinery
        (has_addon (ok addon))
        secrets
        hash_of_user
        "c1"
        "a1"
        "config"
        "addon1"
        both
        [])
      (cached "addon1" both)
      []
      (sync_addon machinery
        (has_addon (ok addon))
        secrets
        hash_of_user
        "c1"
        "a1"
        "config"
        "addon1"
        both
        []).2
sync_addon-Deletes_example =
    sync_addon-Deletes machinery (has_addon (ok addon)) secrets hash_of_user "c1" "a1" "config"
      "addon1" both []

abbrev unknown : Condition
unknown = record {
  type = "ManagedClusterConditionAvailable";
  status = condition_unknown;
  reason = "Stopped";
  message = "";
  last_transition_time = 0;
}

abbrev lost : ManagedCluster
lost = cluster_with "c1" [] false true (unknown ∷ [])

sync-Marks_example :
    let h' = (Health.sync machinery (has_cluster lost) (has_addon (ok addon)) retry "c1" []).1 in
    All
      (λ (a : ManagedClusterAddOn). (g : Trace) × At (get_addon a.namespace a.name) g h')
      (addon ∷ [])
    × Sends (Marks machinery unknown) [] h'
unfolding string_eq
sync-Marks_example =
    sync-Marks machinery machinery_laws (has_cluster lost) (has_addon (ok addon)) retry_is_retry
      "c1" [] lost unknown (addon ∷ []) refl refl refl refl

abbrev lease : Lease
lease = record {
  namespace = "ns1";
  name = "addon1";
  labels = [];
  holder_identity = "";
  renew_time = 100;
}

abbrev split_key : String → Option (String × String)
split_key key = some ("ns1", "addon1")

-- ===== src/Spoke/AddOn/Registration/Reachable.antt =====
-- The states that the controller reaches.
use ocm_registration.Base.{String, false, [], ◌≡◌, refl, arith, ◌==◌, string_eq, nat_eq}
use ocm_registration.Base.Dict.{Dict, IsMap}
use ocm_registration.Kube.{Result, ok, err, Trace, Machinery, Registration, AddOnApi, SecretApi}
use ocm_registration.Spoke.AddOn.Configuration.{RegistrationConfig}
use ocm_registration.Spoke.AddOn.Registration.{
  State, cached, has_key, stop_unless, cleanup, reconcile, sync, initial, forget, store, start_new,
}
use ocm_registration.Spoke.AddOn.Registration.Preserved.{if_stopped-Holds, sync-Holds}
use ocm_registration.Spoke.AddOn.Registration.NoLeak.{
  NoLeak, stop_unless-NoLeak, forget-NoLeak, store-NoLeak,
}

module _ (m : Machinery) (addons : AddOnApi) (secrets : SecretApi)
    (hash_of : Registration → Result String)
    (cluster_name agent_name kubeconfig_data : String) where
  cleanup-NoLeak :
      (addon_name : String) (s : State) (h : Trace)
      → NoLeak s
      → NoLeak
          (cleanup m addons secrets hash_of cluster_name agent_name kubeconfig_data addon_name s
            h).1
  unfolding cleanup
  cleanup-NoLeak addon_name s h safe =
      if_stopped-Holds m addons secrets hash_of cluster_name agent_name kubeconfig_data NoLeak
        (forget addon_name) (stop_unless secrets (λ _. false) (cached addon_name s) s h)
        (stop_unless-NoLeak secrets (λ _. false) (cached addon_name s) s h safe)
        (forget-NoLeak secrets addon_name s h safe)

  reconcile-NoLeak :
      (addon_name : String) (s : State) (h : Trace) (r : Result (Dict RegistrationConfig))
      → (addon_name == "key") ≡ false
      → ((wanted : Dict RegistrationConfig) → r ≡ ok wanted → IsMap wanted)
      → NoLeak s
      → NoLeak
          (reconcile m addons secrets hash_of cluster_name agent_name kubeconfig_data addon_name s h
            r).1
  reconcile-NoLeak addon_name s h (err e) named u safe = safe
  reconcile-NoLeak addon_name s h (ok wanted) named u safe =
      let old = cached addon_name s in
      if_stopped-Holds m addons secrets hash_of cluster_name agent_name kubeconfig_data NoLeak
        (λ s'.
          store addon_name (start_new cluster_name agent_name kubeconfig_data old wanted [] s'))
        (stop_unless secrets (has_key wanted) old s h)
        (stop_unless-NoLeak secrets (has_key wanted) old s h safe)
        (store-NoLeak cluster_name agent_name kubeconfig_data secrets addon_name wanted s h
          (u wanted refl) safe)

-- The states after any number of runs, each for any key, on any trace, and with any answers of the
-- API server; a run may fail.
pub data Reach (m : Machinery) (hash_of : Registration → Result String)
    (cluster_name agent_name kubeconfig_data : String) : State → Type 0 where
  start : Reach m hash_of cluster_name agent_name kubeconfig_data initial
  later :
      (addons : AddOnApi) (secrets : SecretApi) (queue_key : String) (h : Trace) {s : State}
      → Reach m hash_of cluster_name agent_name kubeconfig_data s
      → Reach m hash_of cluster_name agent_name kubeconfig_data
          (sync m addons secrets hash_of cluster_name agent_name kubeconfig_data queue_key s h).1

-- In every state that the controller reaches, a client certificate controller that runs has its
-- number in the entry of some add-on, so that a later run can stop it: none is ever leaked, also not
-- by a run that fails.
pub Reach-NoLeak :
    (m : Machinery) (hash_of : Registration → Result String)
    (cluster_name agent_name kubeconfig_data : String) (s : State)
    → Reach m hash_of cluster_name agent_name kubeconfig_data s
    → NoLeak s
Reach-NoLeak m hash_of cluster_name agent_name kubeconfig_data _ start =
    λ i p. absurd (ground (arith, p))
Reach-NoLeak m hash_of cluster_name agent_name kubeconfig_data _ (later addons secrets key h r) =
    sync-Holds m addons secrets hash_of cluster_name agent_name kubeconfig_data NoLeak
      (cleanup-NoLeak m addons secrets hash_of cluster_name agent_name kubeconfig_data)
      (reconcile-NoLeak m addons secrets hash_of cluster_name agent_name kubeconfig_data) key _ h
      (Reach-NoLeak m hash_of cluster_name agent_name kubeconfig_data _ r)

-- ===== src/Spoke/AddOn/Registration/Reserved.antt =====
-- An add-on whose name is the key of the resyncs.
use ocm_registration.Base.{
  ℕ, String, Bool, false, ◌≢◌, nat_eq, [], ◌∷◌, none, ◌≡◌, refl, arith, ◌==◌, string_eq, ap, ◌∙◌,
}
use ocm_registration.Base.Dict.{Dict, lookup, IsMap, lookup-insert, lookup-erase}
use ocm_registration.Kube.{Result, ok, err, Trace, Machinery, Registration, AddOnApi, SecretApi}
use ocm_registration.Spoke.AddOn.Configuration.{RegistrationConfig}
use ocm_registration.Spoke.AddOn.Registration.{
  State, cached, has_key, stop_unless, cleanup, reconcile, forget, store, start_new,
}
use ocm_registration.Spoke.AddOn.Registration.Stopping.{Running, stop_unless-configs}
use ocm_registration.Spoke.AddOn.Registration.Starting.{Has, start_new-configs}
use ocm_registration.Spoke.AddOn.Registration.Preserved.{if_stopped-Holds, sync-Holds}
use ocm_registration.Spoke.AddOn.Registration.Reachable.{Reach, start, later, Reach-NoLeak}

-- The map has no entry for the add-on called "key".
abbrev pub IsAbsent : State → Type 0
IsAbsent s = lookup "key" s.configs ≡ none

module _ (m : Machinery) (addons : AddOnApi) (secrets : SecretApi)
    (hash_of : Registration → Result String)
    (cluster_name agent_name kubeconfig_data : String) where
  stop_unless-IsAbsent :
      (keep : String → Bool) (d : Dict RegistrationConfig) (s : State) (h : Trace)
      → IsAbsent s
      → IsAbsent (stop_unless secrets keep d s h).1
  stop_unless-IsAbsent keep d s h absent =
      ap (λ c. lookup "key" c) (stop_unless-configs secrets keep d s h) ∙ absent

  cleanup-IsAbsent :
      (addon_name : String) (s : State) (h : Trace)
      → IsAbsent s
      → IsAbsent
          (cleanup m addons secrets hash_of cluster_name agent_name kubeconfig_data addon_name s
            h).1
  unfolding cleanup
  cleanup-IsAbsent addon_name s h absent =
      let stopped = stop_unless secrets (λ _. false) (cached addon_name s) s h in
      let still = stop_unless-IsAbsent (λ _. false) (cached addon_name s) s h absent in
      if_stopped-Holds m addons secrets hash_of cluster_name agent_name kubeconfig_data IsAbsent
        (forget addon_name) stopped still
        (ground (arith, still, lookup-erase "key" addon_name stopped.1.configs))

  store-IsAbsent :
      (addon_name : String) (d : Dict RegistrationConfig) (s : State)
      → (addon_name == "key") ≡ false
      → IsAbsent s
      → IsAbsent (store addon_name (d, s))
  store-IsAbsent addon_name [] s named absent =
      ground (arith, absent, lookup-erase "key" addon_name s.configs)
  store-IsAbsent addon_name (c ∷ d) s named absent =
      ground (arith, absent, named, lookup-insert "key" addon_name (c ∷ d) s.configs)

  reconcile-IsAbsent :
      (addon_name : String) (s : State) (h : Trace) (r : Result (Dict RegistrationConfig))
      → (addon_name == "key") ≡ false
      → ((wanted : Dict RegistrationConfig) → r ≡ ok wanted → IsMap wanted)
      → IsAbsent s
      → IsAbsent
          (reconcile m addons secrets hash_of cluster_name agent_name kubeconfig_data addon_name s h
            r).1
  reconcile-IsAbsent addon_name s h (err e) named u absent = absent
  reconcile-IsAbsent addon_name s h (ok wanted) named u absent =
      let old = cached addon_name s in
      let stopped = stop_unless secrets (has_key wanted) old s h in
      let still = stop_unless-IsAbsent (has_key wanted) old s h absent in
      let made = start_new cluster_name agent_name kubeconfig_data old wanted [] stopped.1 in
      let kept =
        start_new-configs cluster_name agent_name kubeconfig_data old wanted [] stopped.1 in
      if_stopped-Holds m addons secrets hash_of cluster_name agent_name kubeconfig_data IsAbsent
        (λ s'.
          store addon_name (start_new cluster_name agent_name kubeconfig_data old wanted [] s'))
        stopped still
        (store-IsAbsent addon_name made.0 made.1 named (ap (λ c. lookup "key" c) kept ∙ still))

Reach-IsAbsent :
    (m : Machinery) (hash_of : Registration → Result String)
    (cluster_name agent_name kubeconfig_data : String) (s : State)
    → Reach m hash_of cluster_name agent_name kubeconfig_data s
    → IsAbsent s
unfolding lookup
Reach-IsAbsent m hash_of cluster_name agent_name kubeconfig_data _ start = refl
Reach-IsAbsent m hash_of cluster_name agent_name kubeconfig_data _ (later addons secrets key h r) =
    sync-Holds m addons secrets hash_of cluster_name agent_name kubeconfig_data IsAbsent
      (cleanup-IsAbsent m addons secrets hash_of cluster_name agent_name kubeconfig_data)
      (reconcile-IsAbsent m addons secrets hash_of cluster_name agent_name kubeconfig_data) key _ h
      (Reach-IsAbsent m hash_of cluster_name agent_name kubeconfig_data _ r)

-- An add-on that is called "key" never has an entry, whatever runs there are, and each client
-- certificate controller that runs is one of an add-on with another name.
pub Reach-unregistered :
    (m : Machinery) (hash_of : Registration → Result String)
    (cluster_name agent_name kubeconfig_data : String) (s : State)
    → Reach m hash_of cluster_name agent_name kubeconfig_data s
    → IsAbsent s
      × ((i : ℕ)
          → Running s i
          → (addon_name : String) × (addon_name ≢ "key") × Has (cached addon_name s) i)
unfolding lookup
Reach-unregistered m hash_of cluster_name agent_name kubeconfig_data s r =
    let absent = Reach-IsAbsent m hash_of cluster_name agent_name kubeconfig_data s r in
    (
      absent,
      λ i runs.
          let (addon_name, (hash, c, entry, number)) =
            Reach-NoLeak m hash_of cluster_name agent_name kubeconfig_data s r i runs in
          (addon_name, λ p. ground (arith, p, absent, entry), (hash, c, entry, number)),
    )

-- ===== src/Spoke/AddOn/Registration/Settled.antt =====
-- What a run for one add-on leaves, if it succeeds.
use ocm_registration.Base.{
  ℕ, String, true, false, [], none, some, ◌≡◌, refl, ◌⊎◌, inl, inr, arith, ◌==◌, string_eq, nat_eq,
  any, Option-cases, sym, subst,
}
use ocm_registration.Base.Dict.{Dict, lookup, IsMap, lookup-erase}
use ocm_registration.Kube.{
  Err, Result, ok, err, is_not_found, Trace, Machinery, Registration, ManagedClusterAddOn, AddOnApi,
  SecretApi,
}
use ocm_registration.Spoke.AddOn.Configuration.{
  RegistrationConfig, get_registration_configs, get_registration_configs-IsMap,
}
use ocm_registration.Spoke.AddOn.Registration.{
  State, Started, cached, forget, store, has_key, stop_unless, start_new, cleanup, reconcile,
  sync_addon, if_stopped,
}
use ocm_registration.Spoke.AddOn.Registration.Stopping.{
  Running, stop_unless-Running, stop_unless-configs,
}
use ocm_registration.Spoke.AddOn.Registration.Starting.{
  start_new_other, start_new_kept, start_new_started,
}
use ocm_registration.Spoke.AddOn.Registration.NoLeak.{store-cached, store-running}

-- The entries of the wanted hashes and no others: an old entry is kept, and a new one is the wanted
-- one with the number of a controller that runs.
abbrev pub Settled :
    Dict RegistrationConfig → Dict RegistrationConfig → Dict RegistrationConfig → State → Type 0
Settled old wanted new s =
    (hash : String)
    → (lookup hash wanted ≡ none → lookup hash new ≡ none)
      × ((w : RegistrationConfig)
          → lookup hash wanted ≡ some w
          → ((kept : RegistrationConfig)
              → lookup hash old ≡ some kept
              → lookup hash new ≡ some kept)
            × (lookup hash old ≡ none
                → (i : ℕ) × (lookup hash new ≡ some (record w { stop_func = some i }))
                  × Running s i))

module _ (m : Machinery) (addons : AddOnApi) (secrets : SecretApi)
    (hash_of : Registration → Result String)
    (cluster_name agent_name kubeconfig_data addon_name : String) (s : State) (h : Trace) where
  reconcile_ok :
      (wanted : Dict RegistrationConfig)
      → let old = cached addon_name s in
        let s' = (stop_unless secrets (has_key wanted) old s h).1 in
        let (result, after, h') =
          reconcile m addons secrets hash_of cluster_name agent_name kubeconfig_data addon_name s h
            (ok wanted) in
        result ≡ ok tt
        → after
          ≡ store addon_name (start_new cluster_name agent_name kubeconfig_data old wanted [] s')
  reconcile_ok wanted p =
      let stopped = stop_unless secrets (has_key wanted) (cached addon_name s) s h in
      elim (Option-cases (m.new_multi_line_aggregate stopped.0)) [
        | inl fine ↦ ground (arith, fine)
        | inr (e, failed) ↦ absurd (ground (arith, failed, p))
      ]

  store-Settled :
      (wanted : Dict RegistrationConfig) (s' : State)
      → IsMap wanted
      → let old = cached addon_name s in
        let after =
          store addon_name (start_new cluster_name agent_name kubeconfig_data old wanted [] s') in
        Settled old wanted (cached addon_name after) after
  unfolding lookup
  store-Settled wanted s' u hash =
      let old = cached addon_name s in
      let out = start_new cluster_name agent_name kubeconfig_data old wanted [] s' in
      let same : cached addon_name (store addon_name out) ≡ out.0 =
        ground (arith, store-cached addon_name addon_name out.0 out.1) in
      let runs = store-running addon_name out.0 out.1 in
      (
        λ none_wanted. ground (
          arith,
          same,
          start_new_other cluster_name agent_name kubeconfig_data hash old wanted [] s' none_wanted,
        ),
        λ w is. (
          λ kept was. ground (
            arith,
            same,
            start_new_kept cluster_name agent_name kubeconfig_data hash w kept old wanted [] s' u is
                was,
          ),
          λ was.
              let (i, entry, running) =
                start_new_started cluster_name agent_name kubeconfig_data hash w old wanted [] s' u
                  is was in
              (
                i,
                ground (arith, same, entry),
                subst (λ xs. any (λ (x : Started). x.id == i) xs ≡ true) (sym runs) running,
              ),
        ),
      )

  -- A successful run for an add-on that exists, is not being deleted and has registrations that can
  -- be hashed leaves the add-on with an entry for each hash of them and no other: a hash that had an
  -- entry keeps it, and a new hash has the wanted configuration with the number of a controller that
  -- was started and runs.
  pub sync_addon-Settled :
      (addon : ManagedClusterAddOn) (wanted : Dict RegistrationConfig)
      → addons.lister_get h cluster_name addon_name ≡ ok addon
      → addon.deleting ≡ false
      → get_registration_configs hash_of addon ≡ ok wanted
      → let (result, after, h') =
          sync_addon m addons secrets hash_of cluster_name agent_name kubeconfig_data addon_name s
            h in
        result ≡ ok tt → Settled (cached addon_name s) wanted (cached addon_name after) after
  unfolding sync_addon
  sync_addon-Settled addon wanted found live good p =
      let u = get_registration_configs-IsMap hash_of addon wanted good in
      let s' = (stop_unless secrets (has_key wanted) (cached addon_name s) s h).1 in
      rw (found, live, good)
        (subst (λ after. Settled (cached addon_name s) wanted (cached addon_name after) after)
          (sym (
            reconcile_ok wanted
              (subst (λ (x : Result (Unit {0})). x ≡ ok tt) (ground (arith, found, live, good)) p)))
          (store-Settled wanted s' u))

  -- On success no entry is left and no controller of one runs; on an error all entries are.
  abbrev pub Cleaned : Result (Unit {0}) × State × Trace → Type 0
  Cleaned out =
      (out.0 ≡ ok tt
        → (cached addon_name out.1 ≡ [])
          × ((hash : String) (c : RegistrationConfig) (i : ℕ)
              → lookup hash (cached addon_name s) ≡ some c
              → c.stop_func ≡ some i
              → Running out.1 i
              → ⊥))
      × ((e : Err) → out.0 ≡ err e → out.1.configs ≡ s.configs)

  if_stopped-Cleaned : Cleaned (
      if_stopped m addons secrets hash_of cluster_name agent_name kubeconfig_data
        (forget addon_name)
        (stop_unless secrets (λ _. false) (cached addon_name s) s h))
  if_stopped-Cleaned =
      let stopped = stop_unless secrets (λ _. false) (cached addon_name s) s h in
      elim (Option-cases (m.new_multi_line_aggregate stopped.0)) [
        | inr (e, failed) ↦ (
          λ p. absurd (ground (arith, failed, p)),
          λ why p.
              ground
                (arith, failed, stop_unless-configs secrets (λ _. false) (cached addon_name s) s h),
        )
        | inl fine ↦ (
          λ p. (
            ground (arith, fine, lookup-erase addon_name addon_name stopped.1.configs),
            λ hash c i entry number runs.
                let (_, others) =
                  stop_unless-Running secrets (λ _. false) (cached addon_name s) s h i
                    (ground (arith, fine, runs)) in
                others hash c entry refl number,
          ),
          λ why p. absurd (ground (arith, fine, p)),
        )
      ]

  -- A run for an add-on that is gone or being deleted: if it succeeds, the add-on has no entry left
  -- and none of the controllers of its entries runs; if it fails, the entries of all add-ons are as
  -- before, for a later run to try again.
  pub sync_addon-Cleaned :
      ((e : Err) × (addons.lister_get h cluster_name addon_name ≡ err e) × (is_not_found e ≡ true))
        ⊎ ((addon : ManagedClusterAddOn) × (addons.lister_get h cluster_name addon_name ≡ ok addon)
            × (addon.deleting ≡ true))
      → Cleaned (
          sync_addon m addons secrets hash_of cluster_name agent_name kubeconfig_data addon_name s
            h)
  unfolding sync_addon cleanup
  sync_addon-Cleaned (inl (e, missing, gone)) = rw (missing, gone) if_stopped-Cleaned
  sync_addon-Cleaned (inr (addon, found, deleting)) = rw (found, deleting) if_stopped-Cleaned

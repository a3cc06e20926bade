-- ===== src/Spoke/AddOn/Registration/Unwanted.antt =====
-- Which secrets a run for one add-on deletes.
use ocm_registration.Base.{
  String, true, false, List, [], none, ◌≡◌, refl, ◌⊎◌, inl, inr, arith, Option-cases, Bool-cases,
  sym, subst, ◌∙◌,
}
use ocm_registration.Base.Dict.{Dict, lookup}
use ocm_registration.Kube.{
  Err, Result, ok, err, is_not_found, Trace, Result-cases, Machinery, Registration,
  ManagedClusterAddOn, AddOnApi, SecretApi,
}
use ocm_registration.Spoke.AddOn.Configuration.{RegistrationConfig, get_registration_configs}
use ocm_registration.Spoke.AddOn.Registration.{
  State, cached, has_key, stop_unless, cleanup, forget, store, start_new, if_stopped, sync_addon,
}
use ocm_registration.Spoke.AddOn.Registration.Deletes.{
  Deletes, stop_unless-Deletes, Deletes-map, Deletes-none,
}

module _ (m : Machinery) (addons : AddOnApi) (secrets : SecretApi)
    (hash_of : Registration → Result String)
    (cluster_name agent_name kubeconfig_data addon_name : String) (s : State) (h : Trace) where
  abbrev pub IsGone : Type 0
  IsGone =
      ((e : Err) × (addons.lister_get h cluster_name addon_name ≡ err e) × (is_not_found e ≡ true))
      ⊎ ((addon : ManagedClusterAddOn) × (addons.lister_get h cluster_name addon_name ≡ ok addon)
          × (addon.deleting ≡ true))

  -- The add-on is gone, or no registration of it has the hash.
  abbrev pub Unwanted : String → Type 0
  Unwanted hash =
      IsGone
      ⊎ ((addon : ManagedClusterAddOn) × (wanted : Dict RegistrationConfig) × (addons.lister_get h
              cluster_name addon_name
            ≡ ok addon)
          × (addon.deleting ≡ false)
          × (get_registration_configs hash_of addon ≡ ok wanted)
          × (lookup hash wanted ≡ none))

  if_stopped-trace :
      (f : State → State) (out : List Err × State × Trace)
      → (if_stopped m addons secrets hash_of cluster_name agent_name kubeconfig_data f out).2
        ≡ out.2
  if_stopped-trace f out = elim (Option-cases (m.new_multi_line_aggregate out.0)) [
    | inl fine ↦ ground (arith, fine)
    | inr (e, failed) ↦ ground (arith, failed)
  ]

  abbrev ended : Trace
  ended =
      (sync_addon m addons secrets hash_of cluster_name agent_name kubeconfig_data addon_name s h).2

  gone-Deletes :
      IsGone
      → ended ≡ (stop_unless secrets (λ _. false) (cached addon_name s) s h).2
      → Deletes Unwanted (cached addon_name s) h ended
  gone-Deletes gone end = subst (Deletes Unwanted (cached addon_name s) h) (sym end) (
      Deletes-map (λ hash. false ≡ false) Unwanted (cached addon_name s) h _ (λ hash out. inl gone)
        (λ hash out. refl) (stop_unless-Deletes secrets (λ _. false) (cached addon_name s) s h))

  live-Deletes :
      (addon : ManagedClusterAddOn) (wanted : Dict RegistrationConfig)
      → addons.lister_get h cluster_name addon_name ≡ ok addon
      → addon.deleting ≡ false
      → get_registration_configs hash_of addon ≡ ok wanted
      → ended ≡ (stop_unless secrets (has_key wanted) (cached addon_name s) s h).2
      → Deletes Unwanted (cached addon_name s) h ended
  live-Deletes addon wanted found live good end =
      subst (Deletes Unwanted (cached addon_name s) h) (sym end) (
        Deletes-map (λ hash. has_key wanted hash ≡ false) Unwanted (cached addon_name s) h _
          (λ hash out. inr (
            addon,
            wanted,
            found,
            live,
            good,
            ground (arith, out, Option-cases (lookup hash wanted)),
          ))
          (λ hash out. elim out [
            | inl (inl (e, missing, _)) ↦ absurd (ground (arith, found, missing))
            | inl (inr (other, found', deleting)) ↦
                absurd (ground (arith, found, found', deleting, live))
            | inr (other, wanted', found', _, good', lacks) ↦
                ground (arith, found, found', good, good', lacks)
          ])
          (stop_unless-Deletes secrets (has_key wanted) (cached addon_name s) s h))

  -- A run for one add-on makes no other call than to delete the secrets of the entries of the add-on
  -- that are no longer wanted: of all of them if the add-on is gone or being deleted, and else of
  -- those whose hash no registration has. It tries each, whatever fails, and whether or not an entry
  -- that is kept has the same secret. If the add-on cannot be read or a registration cannot be
  -- hashed, it deletes none.
  pub sync_addon-Deletes :
      let (_, _, h') =
        sync_addon m addons secrets hash_of cluster_name agent_name kubeconfig_data addon_name s
          h in
      Deletes Unwanted (cached addon_name s) h h'
  unfolding sync_addon cleanup
  sync_addon-Deletes = elim (Result-cases (addons.lister_get h cluster_name addon_name)) [
    | inr (e, missing) ↦ elim (Bool-cases (is_not_found e)) [
      | inl gone ↦ gone-Deletes (inl (e, missing, gone)) (
          (rw (ended, missing, gone) refl)
          ∙ if_stopped-trace (forget addon_name)
              (stop_unless secrets (λ _. false) (cached addon_name s) s h))
      | inr fails ↦
          subst (Deletes Unwanted (cached addon_name s) h) (sym (rw (ended, missing, fails) refl)) (
            Deletes-none Unwanted (cached addon_name s) h (λ hash out. elim out [
              | inl (inl (why, missing', gone)) ↦ ground (arith, missing, missing', gone, fails)
              | inl (inr (other, found', _)) ↦ ground (arith, missing, found')
              | inr (other, wanted', found', _, _, _) ↦ ground (arith, missing, found')
            ]))
    ]
    | inl (addon, found) ↦ elim (Bool-cases addon.deleting) [
      | inl deleting ↦ gone-Deletes (inr (addon, found, deleting)) (
          (rw (ended, found, deleting) refl)
          ∙ if_stopped-trace (forget addon_name)
              (stop_unless secrets (λ _. false) (cached addon_name s) s h))
      | inr live ↦ elim (Result-cases (get_registration_configs hash_of addon)) [
        | inr (e, bad) ↦
            subst (Deletes Unwanted (cached addon_name s) h)
              (sym (rw (ended, found, live, bad) refl))
              (Deletes-none Unwanted (cached addon_name s) h (λ hash out. elim out [
                | inl (inl (why, missing', gone)) ↦ ground (arith, found, missing')
                | inl (inr (other, found', deleting)) ↦
                    ground (arith, found, found', deleting, live)
                | inr (other, wanted', found', _, good', _) ↦
                    ground (arith, found, found', good', bad)
              ]))
        | inl (wanted, good) ↦ live-Deletes addon wanted found live good (
            (rw (ended, found, live, good) refl)
            ∙ if_stopped-trace
                (λ s'. store addon_name (
                  start_new cluster_name agent_name kubeconfig_data (cached addon_name s) wanted []
                    s'))
                (stop_unless secrets (has_key wanted) (cached addon_name s) s h))
      ]
    ]
  ]

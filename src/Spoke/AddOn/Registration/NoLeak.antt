-- ===== src/Spoke/AddOn/Registration/NoLeak.antt =====
-- Every controller that runs is one that the map knows, so that it can be stopped.
use ocm_registration.Base.{
  ℕ, String, Bool, true, false, [], ◌∷◌, some, ◌≡◌, ◌≢◌, refl, ◌⊎◌, inl, inr, arith, ◌==◌,
  string_eq, nat_eq, any, if◌then◌else◌, Option-cases, sym, subst,
}
use ocm_registration.Base.Dict.{Dict, lookup, IsMap, lookup-insert, lookup-erase}
use ocm_registration.Kube.{Trace, SecretApi}
use ocm_registration.Spoke.AddOn.Configuration.{RegistrationConfig}
use ocm_registration.Spoke.AddOn.Registration.{
  State, Started, cached, forget, store, has_key, stop_unless, start_new,
}
use ocm_registration.Spoke.AddOn.Registration.Stopping.{
  Running, stop_unless-configs, stop_unless-Running,
}
use ocm_registration.Spoke.AddOn.Registration.Starting.{
  Has, start_new-configs, start_new-Has, start_new_kept,
}

-- Some add-on has an entry with the number.
abbrev pub Cached : State → ℕ → Type 0
Cached s i = (addon_name : String) × Has (cached addon_name s) i

abbrev pub NoLeak : State → Type 0
NoLeak s = (i : ℕ) → Running s i → Cached s i

module _ (secrets : SecretApi) where
  pub stop_unless-NoLeak :
      (keep : String → Bool) (d : Dict RegistrationConfig) (s : State) (h : Trace)
      → NoLeak s
      → NoLeak (stop_unless secrets keep d s h).1
  stop_unless-NoLeak keep d s h safe i p =
      let (before, _) = stop_unless-Running secrets keep d s h i p in
      subst
        (λ (configs : Dict (Dict RegistrationConfig)). Cached (record s { configs = configs }) i)
        (sym (stop_unless-configs secrets keep d s h)) (safe i before)

  pub forget-NoLeak :
      (addon_name : String) (s : State) (h : Trace)
      → NoLeak s
      → NoLeak (forget addon_name (stop_unless secrets (λ _. false) (cached addon_name s) s h).1)
  forget-NoLeak addon_name s h safe i p =
      let (before, stopped) =
        stop_unless-Running secrets (λ _. false) (cached addon_name s) s h i p in
      let (a, (hash, c, entry, number)) = safe i before in
      elim (string_eq.dec addon_name a) [
        | yes same ↦ absurd (
            stopped hash c (subst (λ x. lookup hash (cached x s) ≡ some c) (sym same) entry) refl
              number)
        | no differ ↦ (
          a,
          (
            hash,
            c,
            ground (
              arith,
              differ,
              entry,
              stop_unless-configs secrets (λ _. false) (cached addon_name s) s h,
              lookup-erase a addon_name s.configs,
            ),
            number,
          ),
        )
      ]

pub store-cached :
    (addon_name a : String) (synced : Dict RegistrationConfig) (s : State)
    → cached a (store addon_name (synced, s)) ≡ (if addon_name == a then synced else cached a s)
store-cached addon_name a [] s = ground (arith, lookup-erase a addon_name s.configs)
store-cached addon_name a (c ∷ cs) s = ground (arith, lookup-insert a addon_name (c ∷ cs) s.configs)

pub store-running :
    (addon_name : String) (synced : Dict RegistrationConfig) (s : State)
    → (store addon_name (synced, s)).running ≡ s.running
store-running addon_name [] s = refl
store-running addon_name (c ∷ cs) s = refl

module _ (cluster_name agent_name kubeconfig_data : String) (secrets : SecretApi) where
  -- The map after a successful synchronisation, before it is stored.
  synced-Cached :
      (addon_name : String) (wanted : Dict RegistrationConfig) (s : State) (h : Trace)
      → IsMap wanted
      → NoLeak s
      → let old = cached addon_name s in
        let s' = (stop_unless secrets (has_key wanted) old s h).1 in
        let (synced, s'') = start_new cluster_name agent_name kubeconfig_data old wanted [] s' in
        (i : ℕ)
        → Running s'' i
        → Has synced i ⊎ ((a : String) × (addon_name ≢ a) × Has (cached a s) i)
  synced-Cached addon_name wanted s h u safe i p =
      let old = cached addon_name s in
      let s' = (stop_unless secrets (has_key wanted) old s h).1 in
      elim (start_new-Has cluster_name agent_name kubeconfig_data old wanted [] s' i u p) [
        | inr new ↦ inl new
        | inl kept ↦
            let (before, stopped) = stop_unless-Running secrets (has_key wanted) old s h i kept in
            let (a, (hash, c, entry, number)) = safe i before in
            elim (string_eq.dec addon_name a) [
              | no differ ↦ inr (a, differ, (hash, c, entry, number))
              | yes same ↦
                  let entry' = subst (λ x. lookup hash (cached x s) ≡ some c) (sym same) entry in
                  elim (Option-cases (lookup hash wanted)) [
                    | inl stale ↦ absurd (stopped hash c entry' (ground (arith, stale)) number)
                    | inr (w, is) ↦ inl (
                      hash,
                      c,
                      start_new_kept cluster_name agent_name kubeconfig_data hash w c old wanted []
                          s' u is entry',
                      number,
                    )
                  ]
            ]
      ]

  pub store-NoLeak :
      (addon_name : String) (wanted : Dict RegistrationConfig) (s : State) (h : Trace)
      → IsMap wanted
      → NoLeak s
      → let old = cached addon_name s in
        let s' = (stop_unless secrets (has_key wanted) old s h).1 in
        NoLeak
          (store addon_name (start_new cluster_name agent_name kubeconfig_data old wanted [] s'))
  store-NoLeak addon_name wanted s h u safe i p =
      let old = cached addon_name s in
      let s' = (stop_unless secrets (has_key wanted) old s h).1 in
      let out = start_new cluster_name agent_name kubeconfig_data old wanted [] s' in
      let runs =
        subst (λ xs. any (λ (x : Started). x.id == i) xs ≡ true)
          (store-running addon_name out.0 out.1) p in
      let known : (a : String)
          → cached a (store addon_name out) ≡ (if addon_name == a then out.0 else cached a s) =
        λ a. ground (
          arith,
          store-cached addon_name a out.0 out.1,
          start_new-configs cluster_name agent_name kubeconfig_data old wanted [] s',
          stop_unless-configs secrets (has_key wanted) old s h,
        ) in
      elim (synced-Cached addon_name wanted s h u safe i runs) [
        | inl (hash, c, entry, number) ↦
            (addon_name, (hash, c, ground (arith, known addon_name, entry), number))
        | inr (a, differ, (hash, c, entry, number)) ↦
            (a, (hash, c, ground (arith, known a, differ, entry), number))
      ]

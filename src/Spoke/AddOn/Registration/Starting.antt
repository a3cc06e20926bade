-- ===== src/Spoke/AddOn/Registration/Starting.antt =====
-- What the loop that keeps and starts controllers makes.
use ocm_registration.Base.{
  ℕ, String, true, [], ◌∷◌, none, some, ◌≡◌, refl, ◌⊎◌, inl, inr, arith, ◌==◌, string_eq, nat_eq,
  any, ◌||◌, Option-cases,
}
use ocm_registration.Base.Dict.{Dict, lookup, insert, IsMap, lookup-insert}
use ocm_registration.Spoke.AddOn.Configuration.{RegistrationConfig}
use ocm_registration.Spoke.AddOn.Registration.{State, Started, start_registration, start_new}
use ocm_registration.Spoke.AddOn.Registration.Stopping.{Running}

-- An entry of the map has the number.
abbrev pub Has : Dict RegistrationConfig → ℕ → Type 0
Has d i =
    (hash : String) × (c : RegistrationConfig) × (lookup hash d ≡ some c) × (c.stop_func ≡ some i)

module _ (cluster_name agent_name kubeconfig_data : String) where
  start_registration-Running :
      (c : RegistrationConfig) (s : State) (i : ℕ)
      → Running (start_registration cluster_name agent_name kubeconfig_data c s) i
        ≡ ((s.next == i || any (λ (x : Started). x.id == i) s.running) ≡ true)
  unfolding start_registration
  start_registration-Running c s i = refl

  pub start_new-configs :
      (old wanted synced : Dict RegistrationConfig) (s : State)
      → (start_new cluster_name agent_name kubeconfig_data old wanted synced s).1.configs
        ≡ s.configs
  unfolding start_new
  start_new-configs old [] synced s = refl
  start_new-configs old ((hash, c) ∷ rest) synced s = elim (Option-cases (lookup hash old)) [
    | inl new ↦ ground (
      arith,
      new,
      start_new-configs old rest (insert hash (record c { stop_func = some s.next }) synced)
          (start_registration cluster_name agent_name kubeconfig_data c s),
    )
    | inr (kept, is) ↦ ground (arith, is, start_new-configs old rest (insert hash kept synced) s)
  ]

  -- A hash that is not wanted keeps its entry.
  pub start_new_other :
      (k : String) (old wanted synced : Dict RegistrationConfig) (s : State)
      → lookup k wanted ≡ none
      → lookup k (start_new cluster_name agent_name kubeconfig_data old wanted synced s).0
        ≡ lookup k synced
  unfolding start_new lookup
  start_new_other k old [] synced s p = refl
  start_new_other k old ((hash, c) ∷ rest) synced s p =
      let started : RegistrationConfig = record c { stop_func = some s.next } in
      elim (Option-cases (lookup hash old)) [
        | inl new ↦ ground (
          arith,
          new,
          p,
          lookup-insert k hash started synced,
          start_new_other k old rest (insert hash started synced)
              (start_registration cluster_name agent_name kubeconfig_data c s),
        )
        | inr (kept, is) ↦ ground (
          arith,
          is,
          p,
          lookup-insert k hash kept synced,
          start_new_other k old rest (insert hash kept synced) s,
        )
      ]

  pub start_new-Running :
      (old wanted synced : Dict RegistrationConfig) (s : State) (i : ℕ)
      → Running s i
      → Running (start_new cluster_name agent_name kubeconfig_data old wanted synced s).1 i
  unfolding start_new start_registration
  start_new-Running old [] synced s i p = p
  start_new-Running old ((hash, c) ∷ rest) synced s i p =
      let started : RegistrationConfig = record c { stop_func = some s.next } in
      elim (Option-cases (lookup hash old)) [
        | inl new ↦ ground (
          arith,
          new,
          p,
          start_new-Running old rest (insert hash started synced)
              (start_registration cluster_name agent_name kubeconfig_data c s) i,
        )
        | inr (kept, is) ↦
            ground (arith, is, p, start_new-Running old rest (insert hash kept synced) s i)
      ]

  -- A wanted hash that has an entry already keeps the entry.
  pub start_new_kept :
      (k : String) (w kept : RegistrationConfig) (old wanted synced : Dict RegistrationConfig)
      (s : State)
      → IsMap wanted
      → lookup k wanted ≡ some w
      → lookup k old ≡ some kept
      → lookup k (start_new cluster_name agent_name kubeconfig_data old wanted synced s).0
        ≡ some kept
  unfolding start_new lookup
  start_new_kept k w kept old [] synced s u p q = absurd (ground (arith, p))
  start_new_kept k w kept old ((hash, c) ∷ rest) synced s (fresh, u) p q =
      elim (string_eq.dec hash k) [
        | yes same ↦ ground (
          arith,
          same,
          q,
          fresh,
          lookup-insert k hash kept synced,
          start_new_other k old rest (insert hash kept synced) s,
        )
        | no differ ↦
            let started : RegistrationConfig = record c { stop_func = some s.next } in
            elim (Option-cases (lookup hash old)) [
              | inl new ↦ ground (
                arith,
                new,
                differ,
                p,
                start_new_kept k w kept old rest (insert hash started synced)
                    (start_registration cluster_name agent_name kubeconfig_data c s) u
                    (ground (arith, differ, p)) q,
              )
              | inr (other, is) ↦ ground (
                arith,
                is,
                start_new_kept k w kept old rest (insert hash other synced) s u
                    (ground (arith, differ, p)) q,
              )
            ]
      ]

  start_new_first :
      (hash : String) (c : RegistrationConfig) (old rest synced : Dict RegistrationConfig)
      (s : State)
      → lookup hash old ≡ none
      → lookup hash rest ≡ none
      → let (synced', s') =
          start_new cluster_name agent_name kubeconfig_data old ((hash, c) ∷ rest) synced s in
        (lookup hash synced' ≡ some (record c { stop_func = some s.next })) × Running s' s.next
  unfolding start_new start_registration
  start_new_first hash c old rest synced s new fresh =
      let started : RegistrationConfig = record c { stop_func = some s.next } in
      let s' = start_registration cluster_name agent_name kubeconfig_data c s in
      let runs : Running s' s.next = ground arith in
      ground (
        arith,
        new,
        start_new_other hash old rest (insert hash started synced) s' fresh,
        lookup-insert hash hash started synced,
        start_new-Running old rest (insert hash started synced) s' s.next runs,
      )

  -- A wanted hash that has none gets the wanted entry with the number of a controller that runs.
  pub start_new_started :
      (k : String) (w : RegistrationConfig) (old wanted synced : Dict RegistrationConfig)
      (s : State)
      → IsMap wanted
      → lookup k wanted ≡ some w
      → lookup k old ≡ none
      → let (synced', s') = start_new cluster_name agent_name kubeconfig_data old wanted synced s in
        (i : ℕ) × (lookup k synced' ≡ some (record w { stop_func = some i })) × Running s' i
  unfolding start_new lookup start_registration
  start_new_started k w old [] synced s u p q = absurd (ground (arith, p))
  start_new_started k w old ((hash, c) ∷ rest) synced s (fresh, u) p q =
      let started : RegistrationConfig = record c { stop_func = some s.next } in
      let s' = start_registration cluster_name agent_name kubeconfig_data c s in
      elim (string_eq.dec hash k) [
        | yes same ↦
            let (entry, runs) =
              start_new_first hash c old rest synced s (ground (arith, same, q)) fresh in
            (s.next, ground (arith, same, p, entry), runs)
        | no differ ↦ elim (Option-cases (lookup hash old)) [
          | inl new ↦
              let (i, entry, runs) =
                start_new_started k w old rest (insert hash started synced) s' u
                  (ground (arith, differ, p)) q in
              (i, ground (arith, new, entry), ground (arith, new, runs))
          | inr (other, is) ↦
              let (i, entry, runs) =
                start_new_started k w old rest (insert hash other synced) s u
                  (ground (arith, differ, p)) q in
              (i, ground (arith, is, entry), ground (arith, is, runs))
        ]
      ]

  -- What runs afterwards ran before or has an entry.
  pub start_new-Has :
      (old wanted synced : Dict RegistrationConfig) (s : State) (i : ℕ)
      → IsMap wanted
      → let (synced', s') = start_new cluster_name agent_name kubeconfig_data old wanted synced s in
        Running s' i → Running s i ⊎ Has synced' i
  unfolding start_new lookup start_registration
  start_new-Has old [] synced s i u p = inl p
  start_new-Has old ((hash, c) ∷ rest) synced s i (fresh, u) p =
      let started : RegistrationConfig = record c { stop_func = some s.next } in
      let s' = start_registration cluster_name agent_name kubeconfig_data c s in
      elim (Option-cases (lookup hash old)) [
        | inl new ↦
            elim (start_new-Has old rest (insert hash started synced) s' i u
              (ground (arith, new, p))) [
                | inl before ↦ elim (nat_eq.dec s.next i) [
                  | yes is ↦
                      let (entry, _) = start_new_first hash c old rest synced s new fresh in
                      inr (hash, started, entry, ground (arith, is))
                  | no differ ↦ inl (ground (arith, differ, before))
                ]
                | inr (k, d, entry, number) ↦ inr (k, d, ground (arith, new, entry), number)
              ]
        | inr (kept, is) ↦
            elim (start_new-Has old rest (insert hash kept synced) s i u (ground (arith, is, p))) [
              | inl before ↦ inl before
              | inr (k, d, entry, number) ↦ inr (k, d, ground (arith, is, entry), number)
            ]
      ]

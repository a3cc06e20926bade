-- ===== src/Wiring/Starts.antt =====
-- What the hub and the agent start.
use ocm_registration.Base.{
  ℕ, String, List, [], ◌∷◌, ◌++◌, Option, none, some, true, ◌≡◌, refl, ◌⊎◌, inl, inr, ◌∙◌, ap,
  arith, if◌then◌else◌, ◌<>◌,
}
use ocm_registration.Kube.{Err, Result, ok, err, Result-cases, Trace, AddOnApi}
use ocm_registration.ClientCert.Certificate.{kubeconfig_file, tls_cert_file, tls_key_file}
use ocm_registration.ClientCert.Kubeconfig.{ServerConfig, Kubeconfig, build_kubeconfig}
use ocm_registration.Spoke.Secret.{path_join}
use ocm_registration.Spoke.Agent.{SpokeAgentOptions}
use ocm_registration.Wiring.Factory.{Controller, Watch, clusters, nodes, claims, addons, minutes}
use ocm_registration.Wiring.Hub.{
  ClientKind, kube_client, cluster_client, work_client, addon_client, ClientLimits, raised_limits,
  hub_controllers, run_controller_manager,
}
use ocm_registration.Wiring.Spoke.{
  FeatureGates, Started, new_client_cert_for_hub_controller, start_main, hub_config,
  main_controllers, new_managed_cluster_addon_lease_controller,
}

-- The hub starts all its controllers, or none and returns the error of a client, which has its limits
-- raised if it had none.
run_controller_manager_lem :
    (new_client : ClientKind → ClientLimits → Result (Unit {0})) (config : ClientLimits)
    → (run_controller_manager new_client config ≡ ok hub_controllers)
      ⊎ ((kind : ClientKind) × (e : Err) × (new_client kind (raised_limits config) ≡ err e)
          × (run_controller_manager new_client config ≡ err e))
unfolding run_controller_manager
run_controller_manager_lem new_client config =
    let limits = raised_limits config in
    elim (Result-cases (new_client kube_client limits)) [
      | inr (e, bad) ↦ inr (kube_client, e, bad, ground (arith, bad))
      | inl (_, kube) ↦ elim (Result-cases (new_client cluster_client limits)) [
        | inr (e, bad) ↦ inr (cluster_client, e, bad, ground (arith, kube, bad))
        | inl (_, cluster) ↦ elim (Result-cases (new_client work_client limits)) [
          | inr (e, bad) ↦ inr (work_client, e, bad, ground (arith, kube, cluster, bad))
          | inl (_, work) ↦ elim (Result-cases (new_client addon_client limits)) [
            | inr (e, bad) ↦ inr (addon_client, e, bad, ground (arith, kube, cluster, work, bad))
            | inl (_, addon) ↦ inl (ground (arith, kube, cluster, work, addon))
          ]
        ]
      ]
    ]

module _ (new_client : ClientKind → ServerConfig → Result (Unit {0}))
    (build_config : String → Result ServerConfig) (write : Kubeconfig → Result String)
    (o : SpokeAgentOptions) (gates : FeatureGates) (spoke_client : Result (Unit {0}))
    (addon_cache : AddOnApi) (h : Trace) where
  abbrev pub out : Started
  out = start_main new_client build_config write o gates spoke_client addon_cache h

  -- The controller of the agent's certificate, with the kubeconfig for its secret.
  abbrev pub own_cert_controller : String → Controller
  own_cert_controller kubeconfig_data =
      new_client_cert_for_hub_controller o.cluster_name o.agent_name o.component_namespace
        o.hub_kubeconfig_secret kubeconfig_data ("ClientCertController@cluster:" <> o.cluster_name)

  abbrev pub addon_lease_controller : Controller
  addon_lease_controller =
      new_managed_cluster_addon_lease_controller o.cluster_name addon_cache h (minutes 5)

  -- Every event of a cluster, under one key.
  abbrev of_clusters : Watch
  of_clusters = clusters (λ c. true) (λ c. "key")

  abbrev runs : String → List Watch → Option ℕ → Controller
  runs name watches resync_every = record {
    name = name;
    watches = watches;
    resync_every = resync_every;
  }

  -- The controllers of an agent with its gates, each with its number of workers.
  abbrev pub agent_controllers : String → List (Controller × ℕ)
  agent_controllers kubeconfig_data =
      (own_cert_controller kubeconfig_data, 1)
        ∷ (runs "ManagedClusterController" (of_clusters ∷ nodes "key" ∷ []) (some (minutes 5)), 1)
        ∷ (runs "ManagedClusterLeaseController" (of_clusters ∷ []) none, 1)
        ∷ (
          runs "ManagedClusterHealthCheckController" (of_clusters ∷ [])
              (some o.cluster_health_check_period),
          1,
        )
        ∷ (if gates.cluster_claim
            then (
              runs "ClusterClaimController"
                  (claims (λ c. true) (λ c. "key") ∷ clusters (λ c. true) (λ c. c.name) ∷ []) none,
              1,
            )
              ∷ []
            else [])
      ++ (if gates.addon_management
          then (addon_lease_controller, 1)
            ∷ (
              runs "AddOnRegistrationController" (addons (λ a. true) (λ a. a.name) ∷ [])
                  (some (minutes 10)),
              1,
            )
            ∷ []
          else [])

  -- The clients and the kubeconfig that the agent makes from the files of the secret.
  abbrev pub IsReady : ServerConfig → String → Type 0
  IsReady config kubeconfig_data =
      (build_config (path_join o.hub_kubeconfig_dir kubeconfig_file) ≡ ok config)
      × (new_client kube_client config ≡ ok tt)
      × (new_client cluster_client config ≡ ok tt)
      × (new_client addon_client config ≡ ok tt)
      × (write (build_kubeconfig config tls_cert_file tls_key_file) ≡ ok kubeconfig_data)

  abbrev got : Result (ServerConfig × String)
  got = hub_config new_client build_config write o gates spoke_client addon_cache h

  hub_config-IsReady :
      ((e : Err) × (got ≡ err e))
      ⊎ ((config : ServerConfig) × (d : String) × IsReady config d × (got ≡ ok (config, d)))
  hub_config-IsReady =
      elim (Result-cases (build_config (path_join o.hub_kubeconfig_dir kubeconfig_file))) [
        | inr (e, bad) ↦ inl (e, ground (arith, bad))
        | inl (config, built) ↦ elim (Result-cases (new_client kube_client config)) [
          | inr (e, bad) ↦ inl (e, ground (arith, built, bad))
          | inl (_, kube) ↦ elim (Result-cases (new_client cluster_client config)) [
            | inr (e, bad) ↦ inl (e, ground (arith, built, kube, bad))
            | inl (_, cluster) ↦ elim (Result-cases (new_client addon_client config)) [
              | inr (e, bad) ↦ inl (e, ground (arith, built, kube, cluster, bad))
              | inl (_, addon) ↦
                  let written = write (build_kubeconfig config tls_cert_file tls_key_file) in
                  elim (Result-cases written) [
                    | inr (e, bad) ↦ inl (e, ground (arith, built, kube, cluster, addon, bad))
                    | inl (d, good) ↦ inr (
                      config,
                      d,
                      (
                        built,
                        ground (arith, kube),
                        ground (arith, cluster),
                        ground (arith, addon),
                        good,
                      ),
                      ground (arith, built, kube, cluster, addon, good),
                    )
                  ]
            ]
          ]
        ]
      ]

  started :
      (d : String)
      → main_controllers new_client build_config write o gates spoke_client addon_cache h d
        ≡ agent_controllers d
  started d = refl

  -- Once its client configuration for the hub is valid, the agent starts nothing more and returns an
  -- error, or it could make all its clients and the kubeconfig from the files of the secret, and
  -- starts, besides the two controllers that it started before, those for the certificate, with that
  -- kubeconfig, the joining, the lease and the health, that for the claims exactly if ClusterClaim is
  -- enabled, and those for add-ons exactly if AddonManagement is: each with one worker, and with the
  -- given informers, queue keys and resyncs.
  pub start_main_lem :
      ((e : Err) × (out ≡ ([], err e)))
      ⊎ ((config : ServerConfig) × (kubeconfig_data : String) × IsReady config kubeconfig_data
          × (spoke_client ≡ ok tt)
          × (out.1 ≡ ok tt)
          × (out.0 ≡ agent_controllers kubeconfig_data))
  unfolding start_main
  start_main_lem = elim hub_config-IsReady [
    | inl (e, bad) ↦ inl (e, ground (arith, bad))
    | inr (config, d, ready, good) ↦ elim (Result-cases spoke_client) [
      | inr (e, bad) ↦ inl (e, ground (arith, good, bad))
      | inl (_, made) ↦
          let fine : out ≡ (
            main_controllers new_client build_config write o gates spoke_client addon_cache h d,
            ok tt,
          ) =
            ground (arith, good, made) in
          inr (
            config,
            d,
            ready,
            ground (arith, made),
            ap (λ (x : Started). x.1) fine,
            ap (λ (x : Started). x.0) fine ∙ started d,
          )
    ]
  ]

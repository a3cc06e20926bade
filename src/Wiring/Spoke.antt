-- ===== src/Wiring/Spoke.antt =====
-- The constructors of the agent's controllers in pkg/spoke and pkg/clientcert, and what
-- `RunSpokeAgent` of pkg/spoke/spokeagent.go starts. `build_config` stands for
-- `clientcmd.BuildConfigFromFlags`, `write` for `clientcmd.Write`, and `new_client` for the
-- constructors of clients.
use ocm_registration.Base.{
  ℕ, String, ◌<>◌, Bool, true, false, List, [], ◌∷◌, ◌++◌, none, some, ◌==◌, string_eq, ◌&&◌,
  if◌then◌else◌,
}
use ocm_registration.Kube.{wrapped, Result, ok, err, Csr, Secret, Trace, AddOnApi}
use ocm_registration.ClientCert.Certificate.{kubeconfig_file, tls_cert_file, tls_key_file}
use ocm_registration.ClientCert.Kubeconfig.{ServerConfig, Kubeconfig, build_kubeconfig}
use ocm_registration.ClientCert.Controller.{Options}
use ocm_registration.Spoke.Registration.{client_cert_for_hub_options, is_own_csr}
use ocm_registration.Spoke.AddOn.Configuration.{RegistrationConfig}
use ocm_registration.Spoke.AddOn.Registration.{options_for, is_addon_csr}
use ocm_registration.Spoke.AddOn.Lease.{queue_key_func}
use ocm_registration.Spoke.Secret.{path_join}
use ocm_registration.Spoke.Agent.{SpokeAgentOptions}
use ocm_registration.Wiring.Factory.{
  clusters, addons, csrs, leases, secrets, claims, nodes, Controller, minutes, default_queue_key,
  always, default_key,
}
use ocm_registration.Wiring.Hub.{
  ClientKind, kube_client, cluster_client, addon_client, namespaced_key,
}

-- The filter for the one secret of a controller.
abbrev is_secret : String → String → Secret → Bool
is_secret namespace name s = s.namespace == namespace && s.name == name

unfoldable pub new_client_certificate_controller : Options → (Csr → Bool) → String → Controller
new_client_certificate_controller options filter controller_name = record {
  name = controller_name;
  watches =
      secrets (is_secret options.secret_namespace options.secret_name)
        (λ s. namespaced_key s.namespace s.name)
      ∷ csrs filter (λ c. c.name)
      ∷ [];
  resync_every = some (minutes 5);
}

unfoldable pub new_client_cert_for_hub_controller :
    String → String → String → String → String → String → Controller
unfolding new_client_certificate_controller
new_client_cert_for_hub_controller cluster_name agent_name secret_namespace secret_name
      kubeconfig_data controller_name =
    new_client_certificate_controller
      (client_cert_for_hub_options cluster_name agent_name secret_namespace secret_name
        kubeconfig_data)
      (is_own_csr cluster_name) controller_name

-- The controller that `startRegistration` starts.
unfoldable pub new_addon_cert_controller :
    String → String → String → RegistrationConfig → Controller
unfolding new_client_certificate_controller
new_addon_cert_controller cluster_name agent_name kubeconfig_data c =
    new_client_certificate_controller (options_for cluster_name agent_name kubeconfig_data c)
      (is_addon_csr cluster_name c.addon_name c.registration.signer_name)
      ("ClientCertController@addon:" <> c.addon_name <> ":signer:" <> c.registration.signer_name)

-- `jittered` stands for `wait.Jitter` with the factor 1.
abbrev pub new_managed_cluster_creating_controller : (ℕ → ℕ) → Controller
new_managed_cluster_creating_controller jittered = record {
  name = "ManagedClusterCreatingController";
  watches = [];
  resync_every = some (jittered (minutes 60));
}

abbrev pub new_hub_kubeconfig_secret_controller : String → String → Controller
new_hub_kubeconfig_secret_controller namespace name = record {
  name = "HubKubeconfigSecretController";
  watches = secrets (is_secret namespace name) (λ s. s.name) ∷ [];
  resync_every = some (minutes 5);
}

-- It has the name of a controller of the hub.
abbrev pub new_managed_cluster_joining_controller : Controller
new_managed_cluster_joining_controller = record {
  name = "ManagedClusterController";
  watches = clusters always default_key ∷ nodes default_queue_key ∷ [];
  resync_every = some (minutes 5);
}

abbrev pub new_managed_cluster_lease_controller : Controller
new_managed_cluster_lease_controller = record {
  name = "ManagedClusterLeaseController";
  watches = clusters always default_key ∷ [];
  resync_every = none;
}

abbrev pub new_managed_cluster_health_check_controller : ℕ → Controller
new_managed_cluster_health_check_controller resync_interval = record {
  name = "ManagedClusterHealthCheckController";
  watches = clusters always default_key ∷ [];
  resync_every = some resync_interval;
}

abbrev pub new_managed_cluster_claim_controller : Controller
new_managed_cluster_claim_controller = record {
  name = "ClusterClaimController";
  watches = claims always default_key ∷ clusters always (λ c. c.name) ∷ [];
  resync_every = none;
}

-- The queue key reads the cache of add-ons as it is when the event comes, after the trace.
unfoldable pub new_managed_cluster_addon_lease_controller :
    String → AddOnApi → Trace → ℕ → Controller
unfolding queue_key_func
new_managed_cluster_addon_lease_controller cluster_name addon_cache h resync_interval = record {
  name = "ManagedClusterAddOnLeaseController";
  watches = leases always (λ l. queue_key_func addon_cache cluster_name l h) ∷ [];
  resync_every = some resync_interval;
}

abbrev pub new_addon_registration_controller : Controller
new_addon_registration_controller = record {
  name = "AddOnRegistrationController";
  watches = addons always (λ a. a.name) ∷ [];
  resync_every = some (minutes 10);
}

-- pkg/features/feature.go: the two gates and their defaults.
pub record FeatureGates : Type 0 where
  pub cluster_claim : Bool
  pub addon_management : Bool

abbrev pub default_registration_feature_gates : FeatureGates
default_registration_feature_gates = record { cluster_claim = true; addon_management = false }

-- What is started, each with its number of workers, and the result.
abbrev pub Started : Type 0
Started = List (Controller × ℕ) × Result (Unit {0})

module _ (new_client : ClientKind → ServerConfig → Result (Unit {0}))
    (build_config : String → Result ServerConfig) (write : Kubeconfig → Result String)
    (o : SpokeAgentOptions) where
  -- With all clients and a kubeconfig.
  abbrev with_client : {A : Type 0} → ClientKind → ServerConfig → Result A → Result A
  with_client kind config rest = elim (new_client kind config) [ err e ↦ err e | ok _ ↦ rest ]

  abbrev kubeconfig_for : ServerConfig → Result String
  kubeconfig_for config = write (build_kubeconfig config tls_cert_file tls_key_file)

  abbrev cert_controller : String → String → Controller
  cert_controller kubeconfig_data prefix =
      new_client_cert_for_hub_controller o.cluster_name o.agent_name o.component_namespace
        o.hub_kubeconfig_secret kubeconfig_data (prefix <> o.cluster_name)

  abbrev bootstrap_config : Result ServerConfig
  bootstrap_config = elim (build_config o.bootstrap_kubeconfig) [
    | err e ↦ err (wrapped "unable to load bootstrap kubeconfig from file" e)
    | ok config ↦ with_client kube_client config (with_client cluster_client config (ok config))
  ]

  abbrev always_started : (ℕ → ℕ) → List (Controller × ℕ)
  always_started jittered =
      (new_managed_cluster_creating_controller jittered, 1)
      ∷ (new_hub_kubeconfig_secret_controller o.component_namespace o.hub_kubeconfig_secret, 1)
      ∷ []

  abbrev bootstrap_with : (ℕ → ℕ) → ServerConfig → Result Bool → Started
  bootstrap_with jittered config (err e) = (always_started jittered, err e)
  bootstrap_with jittered config (ok true) = (always_started jittered, ok tt)
  bootstrap_with jittered config (ok false) = elim (kubeconfig_for config) [
    | err e ↦ (always_started jittered, err e)
    | ok kubeconfig_data ↦ (
      always_started jittered
          ++ (cert_controller kubeconfig_data "BootstrapClientCertController@cluster:", 1) ∷ [],
      ok tt,
    )
  ]

  -- What is started before the poll, where the test of the client configuration has the result.
  unfoldable pub start_bootstrap : (ℕ → ℕ) → Result Bool → Started
  unfolding new_client_cert_for_hub_controller build_kubeconfig
  start_bootstrap jittered checked = elim bootstrap_config [
    | err e ↦ ([], err e)
    | ok config ↦ bootstrap_with jittered config checked
  ]

  module _ (gates : FeatureGates) (spoke_client : Result (Unit {0})) (addon_cache : AddOnApi)
      (h : Trace) where
    abbrev pub hub_config : Result (ServerConfig × String)
    hub_config = elim (build_config (path_join o.hub_kubeconfig_dir kubeconfig_file)) [
      | err e ↦ err e
      | ok config ↦ with_client kube_client config (
          with_client cluster_client config (
            with_client addon_client config
              (elim (kubeconfig_for config) [ err e ↦ err e | ok d ↦ ok (config, d) ])))
    ]

    abbrev claim_controllers : List (Controller × ℕ)
    claim_controllers =
        if gates.cluster_claim then (new_managed_cluster_claim_controller, 1) ∷ [] else []

    abbrev addon_controllers : List (Controller × ℕ)
    addon_controllers =
        if gates.addon_management
        then (
          new_managed_cluster_addon_lease_controller o.cluster_name addon_cache h (minutes 5),
          1,
        )
          ∷ (new_addon_registration_controller, 1)
          ∷ []
        else []

    abbrev pub main_controllers : String → List (Controller × ℕ)
    main_controllers kubeconfig_data =
        (cert_controller kubeconfig_data "ClientCertController@cluster:", 1)
          ∷ (new_managed_cluster_joining_controller, 1)
          ∷ (new_managed_cluster_lease_controller, 1)
          ∷ (new_managed_cluster_health_check_controller o.cluster_health_check_period, 1)
          ∷ claim_controllers
        ++ addon_controllers

    -- What is started once the client configuration for the hub is valid.
    unfoldable pub start_main : Started
    unfolding new_client_cert_for_hub_controller build_kubeconfig
        new_managed_cluster_addon_lease_controller
    start_main = elim hub_config [
      | err e ↦ ([], err e)
      | ok (config, kubeconfig_data) ↦ elim spoke_client [
        | err e ↦ ([], err e)
        | ok _ ↦ (main_controllers kubeconfig_data, ok tt)
      ]
    ]

-- ===== src/Tests/WiringRuns.antt =====
-- Events of two clusters and of two requests, and an agent that starts.
use ocm_registration.Base.{
  String, true, false, [], ◌∷◌, none, some, ◌≡◌, ◌≢◌, refl, ap, ◌⊎◌, arith, string_eq, ◌==◌, ◌<>◌,
}
use ocm_registration.Base.Dict.{Dict, lookup, at}
use ocm_registration.Kube.{Err, not_found, Result, ok, err, ManagedCluster, Csr, AddOnApi}
use ocm_registration.ClientCert.Controller.{Crypto}
use ocm_registration.ClientCert.Kubeconfig.{ServerConfig, Kubeconfig}
use ocm_registration.Hub.Csr.{spoke_cluster_name_label}
use ocm_registration.Hub.ClusterSet.{current_cluster_set_queue_key, update_cluster_sets_map}
use ocm_registration.Hub.ClusterSet.Orders.{synced_map, synced_map_lem}
use ocm_registration.Spoke.Registration.{client_cert_for_hub_options}
use ocm_registration.Spoke.AddOn.Configuration.{RegistrationConfig}
use ocm_registration.Spoke.AddOn.Registration.{options_for}
use ocm_registration.Spoke.Agent.{new_spoke_agent_options}
use ocm_registration.Wiring.Factory.{csr_keys}
use ocm_registration.Wiring.Hub.{ClientKind}
use ocm_registration.Wiring.Spoke.{
  default_registration_feature_gates, new_client_cert_for_hub_controller, new_addon_cert_controller,
}
use ocm_registration.Wiring.Events.{queued, requested, Hears, cluster_keys-missed, csr_keys_own}
use ocm_registration.Wiring.Starts.{out, IsReady, agent_controllers, start_main_lem}
use ocm_registration.Tests.Apis.{cluster_with, has_secret, has_csr, user_with, csr_with}

abbrev in_set : String → String → ManagedCluster
in_set set name = record (cluster_with name [] false true []) {
  labels = ("cluster.open-cluster-management.io/clusterset", set) ∷ [];
}

abbrev before : Dict String
before = ("c1", "b") ∷ []

abbrev moved : ManagedCluster
moved = in_set "a" "c1"

abbrev set_name : String
set_name = "b"

differ : current_cluster_set_queue_key moved ≢ set_name
unfolding string_eq current_cluster_set_queue_key at lookup
differ p = let q : false ≡ true = ap (λ (s : String). s == "b") p in absurd (ground (arith, q))

-- The cluster moved from the set "b" to "a".
cluster_keys-missed_example :
    (queued before before moved ≡ "a" ∷ "b" ∷ [])
    × (queued before (update_cluster_sets_map "a" (moved ∷ []) before) moved ≡ "a" ∷ "" ∷ [])
unfolding string_eq current_cluster_set_queue_key at lookup
cluster_keys-missed_example = cluster_keys-missed before moved "b" (moved ∷ []) refl differ refl

synced_map_lem_example :
    lookup "c1" (synced_map (in_set "a" "c1" ∷ in_set "b" "c2" ∷ []) ("b" ∷ "a" ∷ []) before)
    ≡ some "a"
unfolding string_eq current_cluster_set_queue_key lookup at
synced_map_lem_example =
    synced_map_lem (in_set "a" "c1" ∷ in_set "b" "c2" ∷ []) ("b" ∷ "a" ∷ []) before "c1"
      (refl, (refl, tt))

abbrev crypto : Crypto
crypto = record {
  parse_certs = λ text. none;
  make_private_key = ok "key";
  make_csr = λ key subject. ok "request";
  key_matches = λ cert key. true;
}

abbrev config : RegistrationConfig
config = record {
  addon_name = "addon1";
  installation_namespace = "ns1";
  registration = record {
    signer_name = "example.com/signer";
    user = "";
    groups = [];
    organization_units = [];
  };
  secret_name = "secret1";
  hash = "hash1";
  stop_func = none;
}

abbrev generate_name : String → String
generate_name prefix = prefix <> "x7k2p"

csr_keys_own_example :
    let agent = new_client_cert_for_hub_controller "c1" "a1" "ns" "secret" "config" "controller" in
    let addon = new_addon_cert_controller "c1" "a1" "config" config in
    let csr =
      requested crypto
        (has_secret (err not_found))
        (has_csr (csr_with (user_with "u" []) [] ""))
        "request"
        generate_name
        (user_with "u" []) in
    let hears =
      Hears crypto
        (has_secret (err not_found))
        (has_csr (csr_with (user_with "u" []) [] ""))
        "request"
        generate_name
        (user_with "u" []) in
    hears agent (csr (client_cert_for_hub_options "c1" "a1" "ns" "secret" "config"))
    × (config.registration.signer_name ≢ ""
        → hears addon (csr (options_for "c1" "a1" "config" config)))
    × ((other : Csr)
        → at other.labels spoke_cluster_name_label ≢ "c1"
        → (csr_keys agent.watches other ≡ []) × (csr_keys addon.watches other ≡ []))
csr_keys_own_example =
    csr_keys_own crypto (has_secret (err not_found)) (has_csr (csr_with (user_with "u" []) [] ""))
      "request" generate_name (user_with "u" []) "c1" "a1" "ns" "secret" "config" "controller"
      config (λ prefix small. ("x7k2p", refl)) (omega arith)

abbrev new_client : ClientKind → ServerConfig → Result (Unit {0})
new_client kind server = ok tt

abbrev build_config : String → Result ServerConfig
build_config path = ok (record { host = "https://hub"; ca_data = "ca" })

abbrev write : Kubeconfig → Result String
write k = ok k.current_context

abbrev addon_cache : AddOnApi
addon_cache = record {
  get = λ h namespace name. err not_found;
  update_status = λ h new. ok new;
  lister_get = λ h namespace name. err not_found;
  lister_list = λ h namespace. ok [];
}

abbrev spoke_client : Result (Unit {0})
spoke_client = ok tt

start_main_lem_example :
    let started =
      out new_client build_config write new_spoke_agent_options default_registration_feature_gates
        spoke_client addon_cache [] in
    ((e : Err) × (started ≡ ([], err e)))
    ⊎ ((server : ServerConfig) × (kubeconfig_data : String) × IsReady new_client build_config write
          new_spoke_agent_options default_registration_feature_gates spoke_client addon_cache []
          server kubeconfig_data
        × (spoke_client ≡ ok tt)
        × (started.1 ≡ ok tt)
        × (started.0
            ≡ agent_controllers new_client build_config write new_spoke_agent_options
                default_registration_feature_gates spoke_client addon_cache [] kubeconfig_data))
start_main_lem_example =
    start_main_lem new_client build_config write new_spoke_agent_options
      default_registration_feature_gates spoke_client addon_cache []

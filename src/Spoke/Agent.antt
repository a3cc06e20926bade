-- ===== src/Spoke/Agent.antt =====
-- pkg/spoke/spokeagent.go: the options of the agent, how they are completed from the agent's files
-- and checked, and whether the agent has a client configuration for the hub. A duration is its int64
-- bit pattern. The generated names are arguments. No other process writes the files during a call.
pub mod Options
pub mod Restart
pub mod Bootstrap
use ocm_registration.Base.{
  ℕ, String, Bool, true, false, List, [], ◌∷◌, Option, none, some, ◌==◌, string_eq, ◌&&◌, ◌||◌, not,
  ltb, if◌then◌else◌,
}
use ocm_registration.Kube.{Err, failure, Result, ok, err, Trace, SecretApi}
use ocm_registration.Helpers.Status.{is_valid_https_url}
use ocm_registration.ClientCert.Certificate.{
  Cert, kubeconfig_file, tls_key_file, tls_cert_file, is_certificate_valid,
}
use ocm_registration.Spoke.Registration.{
  cluster_name_file, agent_name_file, get_cluster_agent_names_from_certificate,
}
use ocm_registration.Spoke.Secret.{
  Files, Disk, Outcome, path_join, read_file, is_missing, dump_secret,
}

pub record SpokeAgentOptions : Type 0 where
  pub component_namespace : String
  pub cluster_name : String
  pub agent_name : String
  pub bootstrap_kubeconfig : String
  pub hub_kubeconfig_secret : String
  pub hub_kubeconfig_dir : String
  pub spoke_external_server_urls : List String
  pub cluster_health_check_period : ℕ  -- int64, in nanoseconds
  pub max_custom_cluster_claims : ℕ

abbrev pub new_spoke_agent_options : SpokeAgentOptions
new_spoke_agent_options = record {
  component_namespace = "";
  cluster_name = "";
  agent_name = "";
  bootstrap_kubeconfig = "";
  hub_kubeconfig_secret = "hub-kubeconfig-secret";
  hub_kubeconfig_dir = "/spoke/hub-kubeconfig";
  spoke_external_server_urls = [];
  cluster_health_check_period = 60000000000;
  max_custom_cluster_claims = 20;
}

-- `p > 0` of an int64.
abbrev pub is_positive : ℕ → Bool
is_positive p = ltb 0 p && ltb p 9223372036854775808

module _ (parse_url : String → Option String) where
  unfoldable pub validate_urls : List String → Result (Unit {0})
  unfolding is_valid_https_url
  validate_urls [] = ok tt
  validate_urls (url ∷ urls) =
      let rest = validate_urls urls in
      if not (is_valid_https_url parse_url url) then err (failure "url is invalid") else rest

  abbrev then_period : ℕ → Result (Unit {0}) → Result (Unit {0})
  then_period period (err e) = err e
  then_period period (ok _) =
      if is_positive period
      then ok tt
      else err (failure "cluster healthcheck period must greater than zero")

  unfoldable pub validate : SpokeAgentOptions → Result (Unit {0})
  unfolding validate_urls
  validate o =
      if o.bootstrap_kubeconfig == ""
      then err (failure "bootstrap-kubeconfig is required")
      else if o.cluster_name == ""
      then err (failure "cluster name is empty")
      else if o.agent_name == ""
      then err (failure "agent name is empty")
      else then_period o.cluster_health_check_period (validate_urls o.spoke_external_server_urls)

-- `""` for a name that is not known.
abbrev names_or_empty : Result (String × String) → String × String
names_or_empty (ok names) = names
names_or_empty (err e) = ("", "")

-- The switch that picks a name: from the certificate, from the file, or the generated one.
abbrev pick_name : String → Result String → String → String
pick_name in_cert (ok in_file) generated = if in_cert == "" then in_file else in_cert
pick_name in_cert (err e) generated = if in_cert == "" then generated else in_cert

abbrev pub namespace_file : String
namespace_file = "/var/run/secrets/kubernetes.io/serviceaccount/namespace"

module _ (disk : Disk) (parse_certs : String → Option (List Cert)) where
  abbrev names_in : Result String → String × String
  names_in (ok cert_data) =
      names_or_empty (get_cluster_agent_names_from_certificate parse_certs cert_data)
  names_in (err e) = ("", "")

  unfoldable pub get_or_generate_cluster_agent_names :
      String → String → SpokeAgentOptions → Files → Trace → String × String
  unfolding get_cluster_agent_names_from_certificate read_file
  get_or_generate_cluster_agent_names new_cluster_name new_agent_name o files h =
      let at_name : String → Result String =
        λ name. read_file disk (path_join o.hub_kubeconfig_dir name) files h in
      let (cluster_in_cert, agent_in_cert) = names_in (at_name tls_cert_file) in
      (
        (if o.cluster_name == ""
            then pick_name cluster_in_cert (at_name cluster_name_file) new_cluster_name
            else o.cluster_name),
        pick_name agent_in_cert (at_name agent_name_file) new_agent_name,
      )

  abbrev pub check_names : ℕ → SpokeAgentOptions → String → Result (String × String) → Result Bool
  check_names now o cert_data (err e) = ok false
  check_names now o cert_data (ok (cluster_name, agent_name)) =
      if not (cluster_name == o.cluster_name) || not (agent_name == o.agent_name)
      then ok false
      else is_certificate_valid parse_certs now cert_data none

  abbrev pub check_cert : ℕ → SpokeAgentOptions → Result String → Result Bool
  check_cert now o (err e) = ok false
  check_cert now o (ok cert_data) =
      check_names now o cert_data (get_cluster_agent_names_from_certificate parse_certs cert_data)

  unfoldable pub has_valid_hub_client_config : ℕ → SpokeAgentOptions → Files → Trace → Result Bool
  unfolding is_missing read_file get_cluster_agent_names_from_certificate is_certificate_valid
  has_valid_hub_client_config now o files h =
      if is_missing disk (path_join o.hub_kubeconfig_dir kubeconfig_file) files h
      then ok false
      else if is_missing disk (path_join o.hub_kubeconfig_dir tls_key_file) files h
      then ok false
      else check_cert now o (read_file disk (path_join o.hub_kubeconfig_dir tls_cert_file) files h)

  abbrev namespace_or_default : Result String → String
  namespace_or_default (ok namespace) = namespace
  namespace_or_default (err e) = "open-cluster-management"

  abbrev with_names :
      String
      → String
      → SpokeAgentOptions
      → Outcome
      → Result (Unit {0}) × SpokeAgentOptions × Files × Trace
  with_names new_cluster_name new_agent_name o (err e, files, h) = (err e, o, files, h)
  with_names new_cluster_name new_agent_name o (ok _, files, h) =
      let (cluster_name, agent_name) =
        get_or_generate_cluster_agent_names new_cluster_name new_agent_name o files h in
      (ok tt, record o { cluster_name = cluster_name; agent_name = agent_name }, files, h)

  unfoldable pub complete :
      SecretApi
      → String
      → String
      → SpokeAgentOptions
      → Files
      → Trace
      → Result (Unit {0}) × SpokeAgentOptions × Files × Trace
  unfolding read_file dump_secret get_or_generate_cluster_agent_names
  complete secrets new_cluster_name new_agent_name o files h =
      let namespace = namespace_or_default (read_file disk namespace_file files h) in
      with_names new_cluster_name new_agent_name (record o { component_namespace = namespace })
        (dump_secret disk secrets namespace o.hub_kubeconfig_secret o.hub_kubeconfig_dir files h)

-- `rest.Config`, as far as the CA goes.
pub record RestConfig : Type 0 where
  pub ca_data : Option String
  pub ca_file : String

unfoldable pub get_spoke_cluster_ca_bundle :
    Disk → SpokeAgentOptions → RestConfig → Files → Trace → Result (Option String)
unfolding read_file
get_spoke_cluster_ca_bundle disk o config files h = elim o.spoke_external_server_urls [
  | [] ↦ ok none
  | _ ∷ _ ↦ elim config.ca_data [
    | some ca ↦ ok (some ca)
    | none ↦ elim (read_file disk config.ca_file files h) [ err e ↦ err e | ok ca ↦ ok (some ca) ]
  ]
]

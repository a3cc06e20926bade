-- ===== src/Spoke/AddOn/Configuration.antt =====
-- pkg/spoke/addon/configuration.go: what an add-on is registered with. `hash_of` stands for the
-- SHA-256 sum of a registration's JSON text, which may fail. A `context.CancelFunc` is the number of
-- the controller that it stops.
use ocm_registration.Base.{
  ℕ, String, ◌<>◌, List, [], ◌∷◌, Option, none, ◌==◌, string_eq, ◌&&◌, nat_eq, if◌then◌else◌, Bool,
  true, false, ◌≡◌, inl, inr, arith, subst,
}
use ocm_registration.Base.Dict.{Dict, lookup, insert, IsMap, insert-IsMap}
use ocm_registration.Base.Texts.{replace_all}
use ocm_registration.Kube.{Result, ok, err, Result-cases, Registration, ManagedClusterAddOn}
use ocm_registration.Hub.Csr.{kube_apiserver_client_signer_name}

abbrev default_addon_installation_namespace : String
default_addon_installation_namespace = "open-cluster-management-agent-addon"

pub record RegistrationConfig : Type 0 where
  pub addon_name : String
  pub installation_namespace : String
  pub registration : Registration
  pub secret_name : String
  pub hash : String
  pub stop_func : Option ℕ

-- `pkix.Name`.
pub record X509Subject : Type 0 where
  pub common_name : String
  pub organization : List String
  pub organizational_unit : List String

abbrev pub default_organization : String → String → String
default_organization cluster_name addon_name =
    "system:open-cluster-management:cluster:" <> cluster_name <> ":addon:" <> addon_name

abbrev pub default_common_name : String → String → String → String
default_common_name cluster_name agent_name addon_name =
    default_organization cluster_name addon_name <> ":agent:" <> agent_name

abbrev is_nil : List String → Bool
is_nil [] = true
is_nil (x ∷ xs) = false

unfoldable pub x509_subject : RegistrationConfig → String → String → X509Subject
x509_subject c cluster_name agent_name = record {
  common_name =
      if c.registration.user == ""
      then default_common_name cluster_name agent_name c.addon_name
      else c.registration.user;
  organization =
      if c.registration.signer_name == kube_apiserver_client_signer_name
        && is_nil c.registration.groups
      then default_organization cluster_name c.addon_name ∷ []
      else c.registration.groups;
  organizational_unit = c.registration.organization_units;
}

unfoldable pub get_addon_installation_namespace : ManagedClusterAddOn → String
get_addon_installation_namespace addon =
    if addon.install_namespace == ""
    then default_addon_installation_namespace
    else addon.install_namespace

-- The switch on the signer's name.
unfoldable pub secret_name_for : String → String → String
unfolding replace_all
secret_name_for addon_name signer_name =
    if signer_name == kube_apiserver_client_signer_name
    then addon_name <> "-hub-kubeconfig"
    else addon_name <> "-" <> replace_all b'/' "-" signer_name <> "-client-cert"

module _ (hash_of : Registration → Result String) where
  abbrev pub config_of : ManagedClusterAddOn → Registration → String → RegistrationConfig
  config_of addon registration hash = record {
    addon_name = addon.name;
    installation_namespace = get_addon_installation_namespace addon;
    registration = registration;
    secret_name = secret_name_for addon.name registration.signer_name;
    hash = hash;
    stop_func = none;
  }

  -- The loop over the add-on's registrations.
  unfoldable pub add_configs :
      ManagedClusterAddOn
      → List Registration
      → Dict RegistrationConfig
      → Result (Dict RegistrationConfig)
  unfolding insert get_addon_installation_namespace secret_name_for
  add_configs addon [] configs = ok configs
  add_configs addon (r ∷ rs) configs = elim (hash_of r) [
    | err e ↦ err e
    | ok hash ↦ add_configs addon rs (insert hash (config_of addon r hash) configs)
  ]

  unfoldable pub get_registration_configs : ManagedClusterAddOn → Result (Dict RegistrationConfig)
  unfolding add_configs
  get_registration_configs addon = add_configs addon addon.status.registrations []

  add_configs-IsMap :
      (addon : ManagedClusterAddOn) (rs : List Registration)
      (configs configs' : Dict RegistrationConfig)
      → IsMap configs
      → add_configs addon rs configs ≡ ok configs'
      → IsMap configs'
  unfolding add_configs
  add_configs-IsMap addon [] configs configs' u e = subst IsMap (ground (arith, e)) u
  add_configs-IsMap addon (r ∷ rs) configs configs' u e = elim (Result-cases (hash_of r)) [
    | inr (why, bad) ↦ absurd (ground (arith, bad, e))
    | inl (hash, good) ↦
        let new = config_of addon r hash in
        add_configs-IsMap addon rs (insert hash new configs) configs'
          (insert-IsMap hash new configs u) (ground (arith, good, e))
  ]

  -- Each hash has one configuration.
  pub get_registration_configs-IsMap :
      (addon : ManagedClusterAddOn) (configs : Dict RegistrationConfig)
      → get_registration_configs addon ≡ ok configs
      → IsMap configs
  unfolding get_registration_configs lookup
  get_registration_configs-IsMap addon configs e =
      add_configs-IsMap addon addon.status.registrations [] configs tt e

-- ===== src/Tests/BootRuns.antt =====
-- Runs of the agent's start: the copy of the secret, the names, and the bootstrap.
use ocm_registration.Base.{
  String, true, List, [], ◌∷◌, Option, none, some, ◌≡◌, refl, inl, arith, string_eq, nat_eq,
}
use ocm_registration.Base.Texts.{occurs}
use ocm_registration.Base.Dict.{lookup, or_else}
use ocm_registration.Kube.{
  not_found, Result, ok, err, get_secret, Trace, Secret, SecretApi, Csr, CsrApi,
}
use ocm_registration.Hub.Csr.{Block, is_spoke_cluster_client_cert_renewal}
use ocm_registration.ClientCert.Certificate.{Cert, tls_cert_file}
use ocm_registration.ClientCert.Controller.{Crypto, new_csr, reset}
use ocm_registration.Spoke.Registration.{
  agent_common_name, agent_subject, client_cert_for_hub_options,
}
use ocm_registration.Spoke.Registration.Renewed.{agent_csr_renewal}
use ocm_registration.Spoke.Secret.{Files, Disk, path_join, dump_secret, read_file}
use ocm_registration.Spoke.Secret.Dumped.{dump_secret_holds}
use ocm_registration.Spoke.Secret.Repeated.{IsSound}
use ocm_registration.Spoke.Agent.{SpokeAgentOptions, new_spoke_agent_options, complete, validate}
use ocm_registration.Spoke.Agent.Options.{IsOwnCert}
use ocm_registration.Spoke.Agent.Restart.{registered_data, Restarted, complete_restart}
use ocm_registration.Spoke.Agent.Bootstrap.{World, running, bootstrapping, dumped, Reach, start}
use ocm_registration.Spoke.Agent.Bootstrap.Entered.{Reach-IsOwnCert, bootstrap_ends}
use ocm_registration.Tests.Apis.{has_secret, has_csr, user_with, csr_with}

abbrev agent_cert : Cert
agent_cert = record { common_name = agent_common_name "c1" "a1"; not_before = 100; not_after = 200 }

abbrev agent_certs : String → Option (List Cert)
agent_certs text = some (agent_cert ∷ [])

abbrev decode_request : String → Option Block
decode_request text =
    some (record { type = "CERTIFICATE REQUEST"; subject = some (agent_subject "c1" "a1") })

abbrev crypto : Crypto
crypto = record {
  parse_certs = agent_certs;
  make_private_key = ok "key";
  make_csr = λ key subject. ok "request";
  key_matches = λ cert_data key. true;
}

abbrev agent_secret : Secret
agent_secret = record {
  namespace = "open-cluster-management";
  name = "hub-kubeconfig-secret";
  resource_version = "1";
  contents = registered_data "c1" "a1" "config" "key" "pem";
}

abbrev agent_csr : Csr
agent_csr =
    record (new_csr (client_cert_for_hub_options "c1" "a1" "ns" "secret" "config") crypto
      (has_secret (ok agent_secret)) (has_csr (csr_with (user_with "u" []) [] "")) "request") {
        user = user_with (agent_common_name "c1" "a1") [];
      }

agent_csr_renewal_example : is_spoke_cluster_client_cert_renewal decode_request agent_csr ≡ true
unfolding string_eq agent_subject
agent_csr_renewal_example =
    agent_csr_renewal crypto (has_secret (ok agent_secret))
      (has_csr (csr_with (user_with "u" []) [] "")) decode_request "c1" "a1" "ns" "secret" "config"
      "request" (user_with (agent_common_name "c1" "a1") []) refl refl

abbrev disk : Disk
disk = record {
  stat_fault = λ h name. none;
  mkdir_fault = λ h name. none;
  read_fault = λ h name. none;
  write_fault = λ h name. none;
}

abbrev sound_disk : IsSound disk
sound_disk = record {
  stats = λ h name. refl;
  makes = λ h name. refl;
  reads = λ h name. refl;
  writes = λ h name. refl;
}

-- The file of the key "a" is out of date, and that of "b" is missing.
abbrev old_files : Files
old_files = ("/dir/a", "old") ∷ ("/other", "x") ∷ []

abbrev two_keys : Secret
two_keys = record {
  namespace = "ns";
  name = "s";
  resource_version = "1";
  contents = ("a", "1") ∷ ("b", "2") ∷ [];
}

dump_secret_holds_example :
    ((dump_secret disk (has_secret (ok two_keys)) "ns" "s" "/dir" old_files []).0 ≡ ok tt
      → (key : String)
      → lookup
          (path_join "/dir" key)
          (dump_secret disk (has_secret (ok two_keys)) "ns" "s" "/dir" old_files []).1
        ≡ or_else (lookup key two_keys.contents) (lookup (path_join "/dir" key) old_files))
    × ((name : String)
        → ((key : String) → path_join "/dir" key ≡ name → lookup key two_keys.contents ≡ none)
        → lookup name (dump_secret disk (has_secret (ok two_keys)) "ns" "s" "/dir" old_files []).1
          ≡ lookup name old_files)
unfolding lookup string_eq
dump_secret_holds_example =
    dump_secret_holds disk (has_secret (ok two_keys)) "ns" "s" "/dir" old_files [] two_keys refl
      (refl, (refl, tt))

abbrev options : SpokeAgentOptions
options = record new_spoke_agent_options { bootstrap_kubeconfig = "/bootstrap" }

abbrev mounted : Files
mounted = ("/var/run/secrets/kubernetes.io/serviceaccount/namespace", "ns") ∷ []

complete_restart_example :
    Restarted disk sound_disk
      (has_secret (ok agent_secret))
      agent_certs
      "c1"
      "a1"
      (agent_cert ∷ [])
      (complete disk agent_certs (has_secret (ok agent_secret)) "random" "abcde" options mounted [])
unfolding occurs nat_eq read_file string_eq agent_subject
complete_restart_example =
    complete_restart disk sound_disk (has_secret (ok agent_secret)) agent_certs "random" "abcde"
      "c1" "a1" "config" "key" "pem" "ns" options mounted [] agent_secret agent_cert [] refl refl
      (inl refl) refl refl refl refl refl

-- The secret comes to be after the start.
abbrev secret_later : Trace → Result Secret
secret_later [] = err not_found
secret_later (c ∷ h) = ok agent_secret

abbrev late_secrets : SecretApi
late_secrets = record (has_secret (err not_found)) { get = λ h namespace name. secret_later h }

abbrev completed : SpokeAgentOptions
completed = record options { component_namespace = "ns"; cluster_name = "c1"; agent_name = "a1" }

abbrev first_world : World
first_world = record { files = mounted; trace = []; bootstrap = reset; now = 150 }

abbrev started_world : World
started_world = record first_world { trace = get_secret "ns" "hub-kubeconfig-secret" ∷ [] }

abbrev parse_url : String → Option String
parse_url url = none

abbrev csrs : CsrApi
csrs = has_csr (csr_with (user_with "u" []) [] "")

bootstraps :
    Reach disk late_secrets csrs agent_certs parse_url "config" completed bootstrapping
      started_world
unfolding complete string_eq validate ocm_registration.Spoke.Agent.Bootstrap.decide
    ocm_registration.Spoke.Agent.has_valid_hub_client_config
bootstraps = start "c1" "a1" options completed first_world started_world refl refl refl

abbrev ready_world : World
ready_world = dumped disk late_secrets csrs agent_certs parse_url "config" completed started_world

ready :
    Reach disk late_secrets csrs agent_certs parse_url "config" completed
      (running ready_world.files ready_world.now)
      ready_world
unfolding occurs nat_eq agent_subject
ready =
    bootstrap_ends disk late_secrets csrs agent_certs parse_url "config" sound_disk completed
      started_world "config" "key" "pem" agent_secret agent_cert [] bootstraps refl refl refl refl
      refl refl (omega arith, tt)

Reach-IsOwnCert_example :
    (validate parse_url completed ≡ ok tt)
    × ((g : Trace) × (cert_data : String) × (read_file disk
            (path_join completed.hub_kubeconfig_dir tls_cert_file)
            ready_world.files
            g
          ≡ ok cert_data)
        × IsOwnCert disk agent_certs 150 completed cert_data)
Reach-IsOwnCert_example =
    Reach-IsOwnCert disk late_secrets csrs agent_certs parse_url "config" completed
      ready_world.files ready_world.now ready_world ready

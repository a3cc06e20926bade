-- ===== src/Spoke/Agent/Bootstrap.antt =====
-- pkg/spoke/spokeagent.go, `RunSpokeAgent` up to the clients for the hub: the agent completes and
-- checks its options, and goes on once it has a valid client configuration. Until then it runs the
-- client certificate controller with the bootstrap kubeconfig, and polls. The controller of the
-- secret runs all the time. The two controllers and the poll take turns in any order, and time
-- passes between them.
pub mod Entered
use ocm_registration.Base.{ℕ, ◌+◌, String, Bool, true, false, List, Option, ◌≡◌}
use ocm_registration.Kube.{Err, Result, ok, err, Trace, SecretApi, CsrApi}
use ocm_registration.ClientCert.Certificate.{Cert}
use ocm_registration.ClientCert.Controller as Controller
use ocm_registration.ClientCert.Controller.{Crypto, reset}
use ocm_registration.Spoke.Registration.{client_cert_for_hub_options}
use ocm_registration.Spoke.Secret.{Files, Disk, dump_secret}
use ocm_registration.Spoke.Agent.{
  SpokeAgentOptions, validate, complete, has_valid_hub_client_config,
}

-- The agent bootstraps, or builds its clients from the files at a time, or has returned an error.
pub data Phase : Type 0 where
  bootstrapping : Phase
  running : Files → ℕ → Phase
  failed : Err → Phase

pub record World : Type 0 where
  pub files : Files
  pub trace : Trace
  pub bootstrap : Controller.State
  pub now : ℕ

-- `ok, err := o.hasValidHubClientConfig()`, first and at each poll.
unfoldable pub decide : Result Bool → World → Phase
decide (err e) w = failed e
decide (ok false) w = bootstrapping
decide (ok true) w = running w.files w.now

module _ (disk : Disk) (secrets : SecretApi) (csrs : CsrApi)
    (parse_certs : String → Option (List Cert)) (parse_url : String → Option String)
    (kubeconfig_data : String) where
  abbrev pub check : SpokeAgentOptions → World → Result Bool
  check o w = has_valid_hub_client_config disk parse_certs w.now o w.files w.trace

  -- A run of the controller of the secret.
  abbrev pub dumped : SpokeAgentOptions → World → World
  dumped o w =
      let (result, files, trace) =
        dump_secret disk secrets o.component_namespace o.hub_kubeconfig_secret o.hub_kubeconfig_dir
          w.files w.trace in
      record w { files = files; trace = trace }

  -- A run of the bootstrap controller for the client certificate.
  abbrev pub requested : SpokeAgentOptions → Crypto → ℕ → ℕ → World → World
  requested o crypto scale draw w =
      let (result, state, trace) =
        Controller.sync
          (client_cert_for_hub_options o.cluster_name o.agent_name o.component_namespace
            o.hub_kubeconfig_secret kubeconfig_data)
          crypto secrets csrs w.now scale draw w.bootstrap w.trace in
      record w { bootstrap = state; trace = trace }

  pub data Step (o : SpokeAgentOptions) : Phase → World → Phase → World → Type 0 where
    dump : (p : Phase) (w : World) → Step o p w p (dumped o w)
    request_certificate :
        (crypto : Crypto) (scale draw : ℕ) (w : World)
        → Step o bootstrapping w bootstrapping (requested o crypto scale draw w)
    poll : (w : World) (q : Phase) → decide (check o w) w ≡ q → Step o bootstrapping w q w
    wait : (p : Phase) (w : World) (d : ℕ) → Step o p w p (record w { now = w.now + d })

  -- What the agent reaches, with the options that it completed and checked.
  pub data Reach : SpokeAgentOptions → Phase → World → Type 0 where
    start :
        (new_cluster_name new_agent_name : String) (o o' : SpokeAgentOptions) (w w' : World)
        → complete disk parse_certs secrets new_cluster_name new_agent_name o w.files w.trace
          ≡ (ok tt, o', w'.files, w'.trace)
        → validate parse_url o' ≡ ok tt
        → w'.bootstrap ≡ reset
        → Reach o' (decide (check o' w') w') w'
    later :
        (o : SpokeAgentOptions) (p q : Phase) (w w' : World)
        → Reach o p w
        → Step o p w q w'
        → Reach o q w'

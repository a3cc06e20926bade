-- ===== src/ClientCert/Kubeconfig.antt =====
-- pkg/clientcert/certificate.go, `BuildKubeconfig`: the kubeconfig with references to the files of the
-- client certificate. The fields that it leaves empty are left out.
use ocm_registration.Base.{String, Bool, false, [], ◌∷◌}
use ocm_registration.Base.Dict.{Dict}

-- `rest.Config`, as far as the server goes.
pub record ServerConfig : Type 0 where
  pub host : String
  pub ca_data : String

pub record Cluster : Type 0 where
  pub server : String
  pub insecure_skip_tls_verify : Bool
  pub certificate_authority_data : String

pub record AuthInfo : Type 0 where
  pub client_certificate : String
  pub client_key : String

pub record Context : Type 0 where
  pub cluster : String
  pub auth_info : String
  pub namespace : String

pub record Kubeconfig : Type 0 where
  pub clusters : Dict Cluster
  pub auth_infos : Dict AuthInfo
  pub contexts : Dict Context
  pub current_context : String

unfoldable pub build_kubeconfig : ServerConfig → String → String → Kubeconfig
build_kubeconfig client_config cert_path key_path = record {
  clusters =
      (
        "default-cluster",
        record {
          server = client_config.host;
          insecure_skip_tls_verify = false;
          certificate_authority_data = client_config.ca_data;
        },
      )
      ∷ [];
  auth_infos =
      ("default-auth", record { client_certificate = cert_path; client_key = key_path }) ∷ [];
  contexts =
      (
        "default-context",
        record {
          cluster = "default-cluster";
          auth_info = "default-auth";
          namespace = "configuration";
        },
      )
      ∷ [];
  current_context = "default-context";
}

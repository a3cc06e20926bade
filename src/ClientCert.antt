-- ===== src/ClientCert.antt =====
-- pkg/clientcert: the client certificate of an agent, its creation and its rotation.
pub mod Certificate
pub mod Kubeconfig
pub mod Controller

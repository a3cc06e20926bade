-- ===== src/Kube.antt =====
-- What the controllers share of Kubernetes: objects, errors, the monad of API calls, the client
-- interfaces and the functions of the apimachinery and library-go packages that the code calls.
pub mod Objects
pub mod Calls
pub mod Packages
pub mod Api
pub use Objects.*
pub use Calls.*
pub use Packages.*
pub use Api.*

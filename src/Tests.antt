-- ===== src/Tests.antt =====
-- Runs on small inputs: the instances that stand for other packages, and the examples.
mod Fixtures
mod Apis
mod HelperRuns
mod ClusterRuns
mod RbacRuns
mod WebhookRuns
mod CertRuns
mod AgentRuns
mod JoinRuns
mod BootRuns
mod AddOnRuns
mod ProtocolRuns
mod RenewalRuns
mod WiringRuns

-- ===== src/Tests.antt =====
-- Runs of the model on concrete inputs, and each property at an input that meets its hypotheses.
mod Fixtures
mod AdmissionRuns
mod RegistryRuns
mod PrefixRuns
mod RoutingRuns
mod GatewayRuns
mod WorkerRuns
mod RequestRuns
mod ServerRuns
mod JobRuns
mod QueueRuns
mod ChannelRuns
mod PoolRuns
mod LoadgenRuns

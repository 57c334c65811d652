-- ===== src/Tests.antt =====
-- Runs of the code at concrete inputs.
mod Fixtures
mod AgentRuns
mod SlotRuns
mod StatusRuns
mod PodRuns
mod NodeRuns
mod WebhookRuns
mod WatcherRuns
mod ClusterRuns
mod DiscoveryRuns
mod ConfigRuns
mod RaceRuns

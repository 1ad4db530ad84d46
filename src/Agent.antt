-- ===== src/Agent.antt =====
-- internal/agent: the agent that runs on a node. It holds the configuration that it applied last,
-- reports to the control plane, fetches configurations and hands their rules to the forwarder.
pub mod Logs
pub mod Config
pub mod Runtime

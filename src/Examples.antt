-- ===== src/Examples.antt =====
-- Runs of the model on small inputs, and the theorems at inputs that meet their hypotheses.
mod Fleet
mod Rules
mod Accounts
mod Validation
mod Agent
mod Telemetry
mod Control
mod Forward
mod Auth
mod Api
mod Enrollment
mod History
mod Node
mod Traffic

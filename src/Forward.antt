-- ===== src/Forward.antt =====
-- internal/forward: the forwarder of a node. What a forwarder reports, and what its client, the
-- agent's runtime, relies on.
pub mod Prepare
pub mod Permits
pub mod Bandwidth
pub mod Manager
pub mod Udp
pub mod Tcp
pub mod Copying
pub mod Statistics
use portflow.Prelude.{ℕ, String, Bool, Option, List, ◌≡◌, ◌≢◌, none}
use portflow.Domain.{ForwardRule}

pub record ConnectionStats : Type 0 where
  pub id : String
  pub rule_id : String
  pub protocol : String
  pub source_address : String
  pub target_address : String
  pub started_at : ℕ
  pub last_activity : ℕ
  pub bytes_in : ℕ
  pub bytes_out : ℕ

pub record RuleStats : Type 0 where
  pub rule_id : String
  pub active_connections : ℕ
  pub bytes_in : ℕ
  pub bytes_out : ℕ

pub record Stats : Type 0 where
  pub active_connections : ℕ
  pub bytes_in : ℕ
  pub bytes_out : ℕ
  pub rules : List RuleStats
  pub connections : List ConnectionStats
  pub connections_complete : Bool

-- The forwarder as the runtime sees it: `apply` answers with an error's text or none, and `serves`
-- is the rules that are in force. Apply is all or nothing.
pub record Forwarder (M : Type 0) : Type 0 where
  pub apply : M → List ForwardRule → Option (List ℕ) × M
  pub stats : M → Stats
  pub serves : M → List ForwardRule
  pub apply-ok :
      (m : M) (rules : List ForwardRule)
      → (apply m rules).0 ≡ none
      → serves (apply m rules).1 ≡ rules
  pub apply-err :
      (m : M) (rules : List ForwardRule)
      → (apply m rules).0 ≢ none
      → serves (apply m rules).1 ≡ serves m

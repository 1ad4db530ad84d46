-- ===== src/Store/Telemetry/Heartbeats.antt =====
-- What an accepted or refused heartbeat does to the nodes, the connections and the samples.
use mathlib.Core.Option.{some-injective}
use portflow.Prelude.{
  ◌≤◌, ◌<◌, ◌≡◌, refl, sym, subst, ◌∙◌, ◌==◌, ◌⊎◌, inl, inr, String, true, false, none, some, [],
  arith, length, if◌then◌else◌, Bool-cases, Option-cases, ok, err,
}
use portflow.Dict.{Dict, lookup, get_or, insert}
use portflow.Dict.Laws.{lookup-insert}
use portflow.Domain.{Node, node_online}
use portflow.Store.{
  Memory, AgentHeartbeat, ActiveConnection, max_stored_connections_per_node, not_found,
}
use portflow.Store.Rules.{is_admitted}
use portflow.Store.Telemetry.{
  heartbeat_node, update_agent_heartbeat, accept_heartbeat, record_connections, record_rule_stats,
  record_agent_logs, add_connections, trim_connections, record_metric,
}
use portflow.Store.Telemetry.Connections.{IsKeyed, add_connections-IsKeyed, trim_connections-bound}

-- Of every node: at most the bound, each under its identifier.
abbrev pub AreBounded : Memory → Type 0
AreBounded memory =
    (node_id : String) (stored : Dict ActiveConnection)
    → lookup node_id memory.active_connections ≡ some stored
    → (length stored ≤ max_stored_connections_per_node) × IsKeyed stored

stored_before :
    (memory : Memory) (node_id : String)
    → AreBounded memory
    → IsKeyed (get_or [] (lookup node_id memory.active_connections))
unfolding get_or
stored_before memory node_id bounded =
    elim (Option-cases (lookup node_id memory.active_connections)) [
      | inl nothing ↦ rw nothing tt
      | inr (stored, found) ↦ rw found (bounded node_id stored found).1
    ]

insert-bounded :
    (stored : Dict (Dict ActiveConnection)) (node_id : String) (new : Dict ActiveConnection)
    → (length new ≤ max_stored_connections_per_node) × IsKeyed new
    → ((k : String) (s : Dict ActiveConnection)
        → lookup k stored ≡ some s
        → (length s ≤ max_stored_connections_per_node) × IsKeyed s)
    → (k : String) (s : Dict ActiveConnection) → lookup k (insert node_id new stored) ≡ some s
    → (length s ≤ max_stored_connections_per_node) × IsKeyed s
insert-bounded stored node_id new fits rest k s found =
    let read = lookup-insert node_id k new stored in
    elim (Bool-cases (node_id == k)) [
      | inl here ↦
          subst (λ c. (length c ≤ max_stored_connections_per_node) × IsKeyed c)
            (some-injective new s (
              sym (
                subst
                  (λ b.
                    lookup k (insert node_id new stored)
                    ≡ (if b then some new else lookup k stored))
                  here read)
              ∙ found))
            fits
      | inr elsewhere ↦ rest k s (
          sym (
            subst
              (λ b.
                lookup k (insert node_id new stored) ≡ (if b then some new else lookup k stored))
              elsewhere read)
          ∙ found)
    ]

record_connections-AreBounded :
    (memory : Memory) (node_id : String) (heartbeat : AgentHeartbeat)
    → AreBounded memory
    → AreBounded (record_connections memory node_id heartbeat)
unfolding record_connections
record_connections-AreBounded memory node_id heartbeat bounded k stored found =
    let before =
      if heartbeat.connections_complete
      then []
      else get_or [] (lookup node_id memory.active_connections) in
    let keyed : IsKeyed before = elim (Bool-cases heartbeat.connections_complete) [
      | inl complete ↦ simp complete tt
      | inr partly ↦ simp partly (stored_before memory node_id bounded)
    ] in
    let added = add_connections node_id heartbeat.received_at heartbeat.connections before in
    let trimmed =
      trim_connections-bound added (
        add_connections-IsKeyed node_id heartbeat.received_at heartbeat.connections before keyed) in
    insert-bounded memory.active_connections node_id (trim_connections added) trimmed bounded k
      stored found

-- The other parts of a heartbeat leave the connections alone.
accept_heartbeat-AreBounded :
    (memory : Memory) (node_id : String) (node : Node) (heartbeat : AgentHeartbeat)
    → AreBounded memory
    → AreBounded (accept_heartbeat memory node_id node heartbeat)
unfolding accept_heartbeat record_rule_stats record_agent_logs
accept_heartbeat-AreBounded memory node_id node heartbeat bounded =
    let online = record memory {
      nodes = insert node_id node memory.nodes;
      metric_samples = record_metric memory.metric_samples node_id heartbeat;
    } in
    record_connections-AreBounded (record_agent_logs online node_id heartbeat) node_id heartbeat
      bounded

-- UpdateAgentHeartbeat keeps at most 4000 connections of every node, each under its identifier,
-- whatever the heartbeat reports and whether it is accepted or not.
pub update_agent_heartbeat-AreBounded :
    (memory : Memory) (node_id credential_hash : String) (heartbeat : AgentHeartbeat)
    → AreBounded memory
    → AreBounded (update_agent_heartbeat memory node_id credential_hash heartbeat).1
unfolding update_agent_heartbeat
update_agent_heartbeat-AreBounded memory node_id credential_hash heartbeat bounded =
    elim (Option-cases (lookup node_id memory.nodes)) [
      | inl missing ↦ rw missing bounded
      | inr (node, found) ↦
          rw found (elim (Bool-cases (is_admitted memory node_id credential_hash node)) [
            | inl admitted ↦ rw admitted (
                accept_heartbeat-AreBounded memory node_id (heartbeat_node node heartbeat) heartbeat
                  bounded)
            | inr refused ↦ rw refused bounded
          ])
    ]

-- The answer to a heartbeat, and the node that it leaves.
pub record Reported (node : Node) (heartbeat : AgentHeartbeat) (next : Node) : Type 0 where
  pub online : next.status ≡ node_online
  pub same_version : next.config_version ≡ node.config_version
  pub applied : next.applied_config_version ≤ node.config_version
  pub attempted : next.attempted_config_version ≤ node.config_version
  pub exact :
      (node.config_version < heartbeat.config_version)
      ⊎ (next.applied_config_version ≡ heartbeat.config_version)
  pub address : next.tunnel_address ≡ heartbeat.tunnel_address

heartbeat_node-Reported :
    (node : Node) (heartbeat : AgentHeartbeat)
    → Reported node heartbeat (heartbeat_node node heartbeat)
unfolding heartbeat_node
heartbeat_node-Reported node heartbeat = record {
  online = refl;
  same_version = refl;
  applied = ground arith;
  attempted = ground arith;
  exact = ground arith;
  address = refl;
}

-- UpdateAgentHeartbeat of a node that is unknown, has another credential or is disabled gives
-- ErrNotFound and changes nothing. Else the node is returned and stored online at its unchanged
-- configuration version, with applied and attempted versions that never exceed that version and an
-- applied version that is the reported one where that does not; every other node is as it was.
pub update_agent_heartbeat_outcome :
    (memory : Memory) (node_id credential_hash : String) (heartbeat : AgentHeartbeat)
    → let reply = update_agent_heartbeat memory node_id credential_hash heartbeat in
      ((reply ≡ (err not_found, memory))
        × ((lookup node_id memory.nodes ≡ none)
            ⊎ ((node : Node) × (lookup node_id memory.nodes ≡ some node)
                × (is_admitted memory node_id credential_hash node ≡ false))))
      ⊎ ((node next : Node) × (lookup node_id memory.nodes ≡ some node)
          × (is_admitted memory node_id credential_hash node ≡ true)
          × (reply.0 ≡ ok next)
          × Reported node heartbeat next
          × ((k : String)
              → lookup k reply.1.nodes
                ≡ (if node_id == k then some next else lookup k memory.nodes)))
unfolding update_agent_heartbeat accept_heartbeat record_rule_stats record_agent_logs
    record_connections
update_agent_heartbeat_outcome memory node_id credential_hash heartbeat =
    elim (Option-cases (lookup node_id memory.nodes)) [
      | inl missing ↦ inl (rw missing (refl, inl refl))
      | inr (node, found) ↦ (elim (Bool-cases (is_admitted memory node_id credential_hash node)) [
        | inl admitted ↦
            let next = heartbeat_node node heartbeat in
            inr (
              rw (found, admitted)
                (
                  node,
                  next,
                  refl,
                  admitted,
                  refl,
                  heartbeat_node-Reported node heartbeat,
                  λ k. lookup-insert node_id k next memory.nodes,
                ))
        | inr refused ↦ inl (rw (found, refused) (refl, inr (node, refl, refused)))
      ])
    ]

-- ===== src/Agent/Runtime/Safety.antt =====
-- What a synchronisation of internal/agent/runtime.go comes to, for the configuration that is held and
-- saved and for what the forwarder serves.
use portflow.Prelude.{
  ℕ, ◌≤◌, ◌≡◌, refl, ◌∙◌, none, List, eqb, ltb, not, arith, Bool-cases, Option-cases, ◌&&◌, inl,
  inr, Result, ok, err,
}
use portflow.Domain.{Net}
use portflow.Forward.{Forwarder}
use portflow.Agent.Config.{Config, validate_config}
use portflow.Agent.Runtime.{
  Runtime, World, SyncError, RemoteConfig, HeartbeatResponse, rollback_failed, fetch_failed,
  apply_failed, config_invalid, heartbeat_failed, version_regressed, record_config_failure,
  clear_config_failure, commit, apply_candidate, accept_remote, candidate_of, acknowledged,
  on_config, on_heartbeat, synchronize, heartbeat_interval, heartbeat_of, save,
}

module _ {M : Type 0} (net : Net) (forwarder : Forwarder M) where
  -- What is in force, what is held and what is on disk agree, and it is valid.
  pub record IsSettled (runtime : Runtime M) : Type 0 where
    pub in_force : forwarder.serves runtime.forward ≡ runtime.current.rules
    pub on_disk : runtime.saved ≡ runtime.current
    pub valid : validate_config net runtime.current ≡ none

  pub data Outcome (runtime : Runtime M) (reply : Result SyncError ℕ) (next : Runtime M)
      : Type 0 where
    updated :
        (interval : ℕ)
        → reply ≡ ok interval
        → IsSettled next
        → runtime.current.version ≤ next.current.version
        → next.current.node_id ≡ runtime.current.node_id
        → next.current.credential ≡ runtime.current.credential
        → Outcome runtime reply next
    refused :
        (problem : SyncError)
        → reply ≡ err problem
        → IsSettled next
        → next.current ≡ runtime.current
        → Outcome runtime reply next
    stranded :
        (saving rolling_back : List ℕ)
        → reply ≡ err (rollback_failed saving rolling_back)
        → next.current ≡ runtime.current
        → next.saved ≡ runtime.saved
        → Outcome runtime reply next

  record_failure-IsSettled :
      (runtime : Runtime M) (version : ℕ) (message : List ℕ)
      → IsSettled runtime
      → IsSettled (record_config_failure runtime version message)
        × ((record_config_failure runtime version message).current ≡ runtime.current)
  unfolding record_config_failure
  record_failure-IsSettled runtime version message s =
      (record { in_force = s.in_force; on_disk = s.on_disk; valid = s.valid }, refl)

  fails-Outcome :
      (origin runtime : Runtime M) (world : World) (version : ℕ) (problem : SyncError)
      → IsSettled runtime
      → runtime.current ≡ origin.current
      → Outcome origin
          (err problem)
          (record_config_failure runtime version (world.error_text problem))
  fails-Outcome origin runtime world version problem s same =
      let kept = record_failure-IsSettled runtime version (world.error_text problem) s in
      refused problem refl kept.0 (kept.1 ∙ same)

  commit-Outcome :
      (origin : Runtime M) (forward : M) (world : World) (interval : ℕ) (candidate : Config)
      → IsSettled origin
      → forwarder.serves forward ≡ candidate.rules
      → validate_config net candidate ≡ none
      → origin.current.version ≤ candidate.version
      → candidate.node_id ≡ origin.current.node_id
      → candidate.credential ≡ origin.current.credential
      → let reply =
          commit net forwarder (record origin { forward = forward }) world interval candidate in
        Outcome origin reply.0 reply.1
  unfolding commit clear_config_failure record_config_failure
  commit-Outcome origin forward world interval candidate s served valid higher node credential =
      elim (Option-cases (save net world candidate)) [
        | inl saved ↦ rw saved (
            updated interval refl (record { in_force = served; on_disk = refl; valid = valid })
              higher node credential)
        | inr (problem, unsaved) ↦
            rw unsaved (elim (Option-cases (forwarder.apply forward origin.current.rules).0) [
              | inl back ↦ rw back (
                  refused problem refl
                    (record {
                      in_force = forwarder.apply-ok forward origin.current.rules back;
                      on_disk = s.on_disk;
                      valid = s.valid;
                    })
                    refl)
              | inr (message, stuck) ↦
                  rw stuck (stranded (world.error_text problem) message refl refl refl)
            ])
      ]

  apply_candidate-Outcome :
      (runtime : Runtime M) (world : World) (interval : ℕ) (candidate : Config)
      → IsSettled runtime
      → runtime.current.version ≤ candidate.version
      → candidate.node_id ≡ runtime.current.node_id
      → candidate.credential ≡ runtime.current.credential
      → let reply = apply_candidate net forwarder runtime world interval candidate in
        Outcome runtime reply.0 reply.1
  unfolding apply_candidate
  apply_candidate-Outcome runtime world interval candidate s higher node credential =
      elim (Option-cases (validate_config net candidate)) [
        | inr (problem, bad) ↦
            rw bad (
              fails-Outcome runtime runtime world candidate.version (config_invalid problem) s refl)
        | inl valid ↦
            rw valid (elim (Option-cases (forwarder.apply runtime.forward candidate.rules).0) [
              | inl taken ↦ rw taken (
                  commit-Outcome runtime (forwarder.apply runtime.forward candidate.rules).1 world
                    interval candidate s (forwarder.apply-ok runtime.forward candidate.rules taken)
                    valid higher node credential)
              | inr (message, refusal) ↦ rw refusal (
                  fails-Outcome runtime
                    (record runtime {
                      forward = (forwarder.apply runtime.forward candidate.rules).1;
                    })
                    world candidate.version (apply_failed message)
                    (record {
                      in_force =
                          forwarder.apply-err runtime.forward candidate.rules
                            (λ e. ground (arith, e, refusal))
                          ∙ s.in_force;
                      on_disk = s.on_disk;
                      valid = s.valid;
                    })
                    refl)
            ])
      ]

  clear-Outcome :
      (runtime : Runtime M) (version interval : ℕ)
      → IsSettled runtime
      → Outcome runtime (ok interval) (clear_config_failure runtime version)
  unfolding clear_config_failure
  clear-Outcome runtime version interval s =
      updated interval refl (record { in_force = s.in_force; on_disk = s.on_disk; valid = s.valid })
        (omega arith) refl refl

  accept_remote-Outcome :
      (runtime : Runtime M) (world : World) (interval : ℕ) (remote : RemoteConfig)
      → IsSettled runtime
      → let reply = accept_remote net forwarder runtime world interval remote in
        Outcome runtime reply.0 reply.1
  unfolding accept_remote
  accept_remote-Outcome runtime world interval remote s =
      elim (Bool-cases (ltb remote.version runtime.current.version)) [
        | inl lower ↦ rw lower (
            fails-Outcome runtime runtime world remote.version
              (version_regressed runtime.current.version remote.version) s refl)
        | inr upper ↦ rw upper (elim (Bool-cases (eqb remote.version runtime.current.version)) [
          | inl same ↦ rw same (clear-Outcome runtime runtime.current.version interval s)
          | inr higher ↦ rw higher (
              apply_candidate-Outcome runtime world interval (candidate_of runtime.current remote) s
                (ground (arith, upper)) refl refl)
        ])
      ]

  on_config-Outcome :
      (runtime : Runtime M) (world : World) (interval : ℕ) (reply : HeartbeatResponse)
      (config : Result (List ℕ) RemoteConfig)
      → IsSettled runtime
      → let answer = on_config net forwarder runtime world interval reply config in
        Outcome runtime answer.0 answer.1
  unfolding on_config
  on_config-Outcome runtime world interval reply (err message) s =
      fails-Outcome runtime runtime world reply.config_version (fetch_failed message) s refl
  on_config-Outcome runtime world interval reply (ok remote) s =
      accept_remote-Outcome runtime world interval remote s

  -- The logs of a runtime are no part of its outcome.
  logs-Outcome :
      (runtime : Runtime M) (reply : Result SyncError ℕ) (next : Runtime M)
      → Outcome (acknowledged runtime) reply next
      → Outcome runtime reply next
  logs-Outcome runtime reply next (updated interval e s higher node credential) =
      updated interval e s higher node credential
  logs-Outcome runtime reply next (refused problem e s same) = refused problem e s same
  logs-Outcome runtime reply next (stranded saving back e same disk) =
      stranded saving back e same disk

  on_heartbeat-Outcome :
      (runtime : Runtime M) (world : World) (reply : Result (List ℕ) HeartbeatResponse)
      → IsSettled runtime
      → let answer = on_heartbeat net forwarder runtime world reply in
        Outcome runtime answer.0 answer.1
  unfolding on_heartbeat
  on_heartbeat-Outcome runtime world (err message) s =
      refused (heartbeat_failed message) refl s refl
  on_heartbeat-Outcome runtime world (ok reply) s =
      let later = acknowledged runtime in
      let settled : IsSettled later = record {
        in_force = s.in_force;
        on_disk = s.on_disk;
        valid = s.valid;
      } in
      let interval = heartbeat_interval reply in
      let answer = on_config net forwarder later world interval reply world.fetch_config in
      elim (Bool-cases
        (not reply.config_changed && eqb reply.config_version runtime.current.version)) [
          | inl unchanged ↦ rw unchanged (
              logs-Outcome runtime (ok interval)
                (clear_config_failure later runtime.current.version)
                (clear-Outcome later runtime.current.version interval settled))
          | inr changed ↦ rw changed (
              logs-Outcome runtime answer.0 answer.1
                (on_config-Outcome later world interval reply world.fetch_config settled))
        ]

  -- From a state in which the rules in force, the configuration held and the one on disk agree and
  -- are valid, a synchronisation ends in one of three ways. It succeeds: the three agree again, the
  -- version is no lower, the node's identity is unchanged. It fails: the three agree and are what
  -- they were. Or the save and then the rollback fail: the error says so, and the configuration
  -- held and the one on disk are what they were.
  pub synchronize-Outcome :
      (runtime : Runtime M) (world : World)
      → IsSettled runtime
      → let reply = synchronize net forwarder runtime world in Outcome runtime reply.0 reply.1
  unfolding synchronize
  synchronize-Outcome runtime world s =
      on_heartbeat-Outcome runtime world
        (world.send_heartbeat (heartbeat_of net forwarder runtime world)) s

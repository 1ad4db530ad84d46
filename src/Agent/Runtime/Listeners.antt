-- ===== src/Agent/Runtime/Listeners.antt =====
-- The runtime of internal/agent/runtime.go with the manager of internal/forward/tcp.go as its
-- forwarder: what the node listens on behind each round.
use portflow.Prelude.{
  ℕ, ◌≡◌, ◌≢◌, true, List, [], ◌∷◌, eqb, ltb, not, Bool-cases, Option-cases, Result-cases, ◌&&◌,
  inl, inr, subst, Result, ok, err,
}
use portflow.Domain.{Net, ForwardRule}
use portflow.Forward.{Forwarder, Stats}
use portflow.Forward.Manager.{Host, ApplyError}
use portflow.Forward.Manager.Running.{
  Running, IsRunning, IsServing, manager_forwarder, run_apply-IsRunning,
}
use portflow.Agent.Config.{Config, validate_config}
use portflow.Agent.Runtime.{
  Runtime, World, SyncError, RemoteConfig, HeartbeatResponse, record_config_failure,
  clear_config_failure, commit, apply_candidate, accept_remote, candidate_of, acknowledged,
  on_config, on_heartbeat, synchronize, heartbeat_interval, heartbeat_of, save, pass, passes,
  rollback_failed, logf,
}
use portflow.Agent.Runtime.Safety.{IsSettled, updated, refused, stranded, synchronize-Outcome}

-- What every Apply keeps of the forwarder, every round keeps.
module _ {M : Type 0} (net : Net) (forwarder : Forwarder M) (P : M → Type 0)
    (keeps : (m : M) (rules : List ForwardRule) → P m → P (forwarder.apply m rules).1) where
  Keeps : Result SyncError ℕ × Runtime M → Type 0
  Keeps reply = P reply.1.forward

  commit-Keeps :
      (runtime : Runtime M) (world : World) (interval : ℕ) (candidate : Config)
      → P runtime.forward
      → Keeps (commit net forwarder runtime world interval candidate)
  unfolding commit Keeps clear_config_failure record_config_failure
  commit-Keeps runtime world interval candidate p =
      let back = keeps runtime.forward runtime.current.rules p in
      elim (Option-cases (save net world candidate)) [
        | inl saved ↦ rw (commit, saved) p
        | inr (problem, unsaved) ↦
            elim (Option-cases (forwarder.apply runtime.forward runtime.current.rules).0) [
              | inl fine ↦ rw (commit, unsaved, fine) back
              | inr (message, stuck) ↦ rw (commit, unsaved, stuck) back
            ]
      ]

  apply_candidate-Keeps :
      (runtime : Runtime M) (world : World) (interval : ℕ) (candidate : Config)
      → P runtime.forward
      → Keeps (apply_candidate net forwarder runtime world interval candidate)
  unfolding apply_candidate Keeps record_config_failure
  apply_candidate-Keeps runtime world interval candidate p =
      let next = keeps runtime.forward candidate.rules p in
      elim (Option-cases (validate_config net candidate)) [
        | inr (problem, bad) ↦ rw (apply_candidate, bad) p
        | inl valid ↦ elim (Option-cases (forwarder.apply runtime.forward candidate.rules).0) [
          | inr (message, refusal) ↦ rw (apply_candidate, valid, refusal) next
          | inl taken ↦
              rw (apply_candidate, valid, taken)
                (commit-Keeps
                  (record runtime { forward = (forwarder.apply runtime.forward candidate.rules).1 })
                  world interval candidate next)
        ]
      ]

  accept_remote-Keeps :
      (runtime : Runtime M) (world : World) (interval : ℕ) (remote : RemoteConfig)
      → P runtime.forward
      → Keeps (accept_remote net forwarder runtime world interval remote)
  unfolding accept_remote Keeps record_config_failure clear_config_failure
  accept_remote-Keeps runtime world interval remote p =
      elim (Bool-cases (ltb remote.version runtime.current.version)) [
        | inl lower ↦ rw (accept_remote, lower) p
        | inr upper ↦ elim (Bool-cases (eqb remote.version runtime.current.version)) [
          | inl same ↦ rw (accept_remote, upper, same) p
          | inr higher ↦
              rw (accept_remote, upper, higher)
                (apply_candidate-Keeps runtime world interval (candidate_of runtime.current remote)
                  p)
        ]
      ]

  on_config-Keeps :
      (runtime : Runtime M) (world : World) (interval : ℕ) (reply : HeartbeatResponse)
      (config : Result (List ℕ) RemoteConfig)
      → P runtime.forward
      → Keeps (on_config net forwarder runtime world interval reply config)
  unfolding on_config Keeps record_config_failure
  on_config-Keeps runtime world interval reply (err message) p = p
  on_config-Keeps runtime world interval reply (ok remote) p =
      accept_remote-Keeps runtime world interval remote p

  on_heartbeat-Keeps :
      (runtime : Runtime M) (world : World) (reply : Result (List ℕ) HeartbeatResponse)
      → P runtime.forward
      → Keeps (on_heartbeat net forwarder runtime world reply)
  unfolding on_heartbeat Keeps clear_config_failure
  on_heartbeat-Keeps runtime world (err message) p = p
  on_heartbeat-Keeps runtime world (ok reply) p =
      let later = acknowledged runtime in
      elim (Bool-cases
        (not reply.config_changed && eqb reply.config_version runtime.current.version)) [
          | inl unchanged ↦ rw (on_heartbeat, unchanged) p
          | inr changed ↦
              rw (on_heartbeat, changed)
                (on_config-Keeps later world (heartbeat_interval reply) reply world.fetch_config p)
        ]

  synchronize-Keeps :
      (runtime : Runtime M) (world : World)
      → P runtime.forward
      → P (synchronize net forwarder runtime world).1.forward
  unfolding synchronize Keeps
  synchronize-Keeps runtime world p =
      on_heartbeat-Keeps runtime world
        (world.send_heartbeat (heartbeat_of net forwarder runtime world)) p

module _ (net : Net) (host : Host) (clock : ℕ → ℕ) (text : ApplyError → List ℕ)
    (report : Running → Stats)
    (sound : (a b : ForwardRule) → host.deep_equal a b ≡ true → a ≡ b) where
  -- Where rules that reflect.DeepEqual takes as equal are equal, and the manager's listeners are
  -- those of the rules of its last successful Apply, a synchronisation that starts from agreeing and
  -- valid configurations and does not end in a failed rollback leaves the node listening for exactly
  -- the rules of the configuration that is then held.
  pub synchronize-IsServing :
      (runtime : Runtime Running) (world : World)
      → IsSettled net (manager_forwarder net host clock text report) runtime
      → IsRunning net runtime.forward
      → let reply = synchronize net (manager_forwarder net host clock text report) runtime world in
        ((saving rolling_back : List ℕ) → reply.0 ≢ err (rollback_failed saving rolling_back))
        → IsServing net reply.1.forward.manager reply.1.current.rules
  synchronize-IsServing runtime world settled running done =
      let forwarder = manager_forwarder net host clock text report in
      let next = (synchronize net forwarder runtime world).1 in
      let r =
        synchronize-Keeps net forwarder (IsRunning net)
          (run_apply-IsRunning net host clock text sound) runtime world running in
      let serves = λ (rules : List ForwardRule). IsServing net next.forward.manager rules in
      elim (synchronize-Outcome net forwarder runtime world settled) [
        | updated interval e s higher node credential ↦ subst serves s.in_force r.serving
        | refused problem e s same ↦ subst serves s.in_force r.serving
        | stranded saving back e same disk ↦ absurd (done saving back e)
      ]

  -- No pass ends in a rollback that fails.
  unfoldable pub NoneStranded : Runtime Running × ℕ × ℕ → List World → Type 0
  NoneStranded state [] = Unit
  NoneStranded state (world ∷ worlds) =
      ((saving rolling_back : List ℕ)
        → (synchronize net (manager_forwarder net host clock text report) state.0 world).0
          ≢ err (rollback_failed saving rolling_back))
      × NoneStranded (pass net (manager_forwarder net host clock text report) state world) worlds

  -- A pass leaves what its synchronisation leaves, but for a message in the log.
  pass_after :
      (P : Runtime Running → Type 0) (state : Runtime Running × ℕ × ℕ) (world : World)
      → let forwarder = manager_forwarder net host clock text report in
        ((runtime : Runtime Running) (message : List ℕ)
          → P runtime
          → P (logf runtime world message))
        → P (synchronize net forwarder state.0 world).1
        → P (pass net forwarder state world).0
  unfolding pass
  pass_after P (runtime, failures, delay) world logged after =
      let forwarder = manager_forwarder net host clock text report in
      elim (Result-cases (synchronize net forwarder runtime world).0) [
        | inl (problem, failed) ↦ rw (pass, failed) (logged _ _ after)
        | inr (interval, fine) ↦ rw (pass, fine) after
      ]

  pass-IsSettled :
      (state : Runtime Running × ℕ × ℕ) (world : World)
      → let forwarder = manager_forwarder net host clock text report in
        IsSettled net forwarder state.0
        → ((saving rolling_back : List ℕ)
            → (synchronize net forwarder state.0 world).0
              ≢ err (rollback_failed saving rolling_back))
        → IsSettled net forwarder (pass net forwarder state world).0
  pass-IsSettled state world settled done =
      let forwarder = manager_forwarder net host clock text report in
      pass_after (IsSettled net forwarder) state world
        (λ runtime message s. record {
          in_force = s.in_force;
          on_disk = s.on_disk;
          valid = s.valid;
        })
        (elim (synchronize-Outcome net forwarder state.0 world settled) [
          | updated interval e s higher node credential ↦ s
          | refused problem e s same ↦ s
          | stranded saving back e same disk ↦ absurd (done saving back e)
        ])

  -- Where rules that reflect.DeepEqual takes as equal are equal, the manager's listeners are those of
  -- the rules of its last successful Apply, and the configuration that the runtime holds is valid, in
  -- force and saved: after any number of passes of which none ends in a failed rollback, whatever
  -- else the control plane answers and whatever else fails, the configuration that the runtime then
  -- holds is valid, in force and saved, and the node listens for exactly its rules.
  pub passes-IsServing :
      (state : Runtime Running × ℕ × ℕ) (worlds : List World)
      → IsSettled net (manager_forwarder net host clock text report) state.0
      → IsRunning net state.0.forward
      → NoneStranded state worlds
      → let forwarder = manager_forwarder net host clock text report in
        let last = (passes net forwarder state worlds).0 in
        IsSettled net forwarder last × IsServing net last.forward.manager last.current.rules
  unfolding passes NoneStranded
  passes-IsServing state [] settled running none_stranded = (
    settled,
    subst (λ (rules : List ForwardRule). IsServing net state.0.forward.manager rules)
        settled.in_force running.serving,
  )
  passes-IsServing state (world ∷ worlds) settled running none_stranded =
      let forwarder = manager_forwarder net host clock text report in
      let kept =
        pass_after (λ runtime. IsRunning net runtime.forward) state world (λ runtime message r. r)
          (synchronize-Keeps net forwarder (IsRunning net)
            (run_apply-IsRunning net host clock text sound) state.0 world running) in
      passes-IsServing (pass net forwarder state world) worlds
        (pass-IsSettled state world settled none_stranded.0) kept none_stranded.1

-- ===== src/Store/Frames/Rules.antt =====
-- The forwarding rules across the operations of internal/store/memory.go that are not on rules.
use portflow.Prelude.{
  ℕ, String, ◌≡◌, refl, List, [], ◌∷◌, Option-cases, Bool-cases, inl, inr, arith, none, some, not,
  ◌||◌, ◌&&◌, ltb, eqb, length, false, contains, ◌==◌, eq_iff, if◌then◌else◌, on_option, ◌∙◌, subst,
}
use portflow.Dict.{Dict, lookup, insert}
use portflow.Domain.{ForwardRule}
use portflow.Store.{Memory, AgentIdentity, AgentHeartbeat, EnrollmentToken, RuleRuntimeStats}
use portflow.Store.Enrollment.{create_enrollment_token, enroll_agent, is_used}
use portflow.Store.Users.{
  AccountCall, creates_initial, creates, updates, deletes, sets_mfa, consumes, account_step,
  create_initial_user, create_user, update_user, delete_user, set_user_mfa, consume_recovery_code,
  without_code, demotes_last, is_last_admin,
}
use portflow.Store.Rules.{clash, is_admitted}
use portflow.Store.Rules.Conflicts.{NoClash, ne_blank, insert-NoClash}
use portflow.Store.Telemetry.{
  update_agent_heartbeat, accept_heartbeat, record_agent_logs, record_connections,
  record_rule_stats, count_rules, reset_unreported, counted_rule,
}

pub create_enrollment_token-rules :
    (m : Memory) (token : EnrollmentToken)
    → (create_enrollment_token m token).1.forward_rules ≡ m.forward_rules
unfolding create_enrollment_token
create_enrollment_token-rules m token =
    elim (Option-cases (lookup token.token_hash m.enrollment_tokens)) [
      | inl e ↦ rw e refl
      | inr (other, e) ↦ rw e refl
    ]

pub enroll_agent-rules :
    (m : Memory) (hash : String) (now : ℕ) (agent : AgentIdentity)
    → (enroll_agent m hash now agent).1.forward_rules ≡ m.forward_rules
unfolding enroll_agent
enroll_agent-rules m hash now agent = elim (Option-cases (lookup hash m.enrollment_tokens)) [
  | inl e ↦ rw e refl
  | inr (token, e) ↦ elim (Bool-cases (is_used token || not (ltb now token.expires_at))) [
    | inl spent ↦ rw (e, spent) refl
    | inr valid ↦ elim (Option-cases (lookup agent.id m.nodes)) [
      | inl f ↦ rw (e, valid, f) refl
      | inr (other, f) ↦ rw (e, valid, f) refl
    ]
  ]
]

pub account_step-rules :
    (m : Memory) (call : AccountCall) → (account_step m call).forward_rules ≡ m.forward_rules
unfolding account_step create_initial_user create_user update_user delete_user set_user_mfa
    consume_recovery_code
account_step-rules m (creates_initial user) = elim (Bool-cases (eqb (length m.users) 0)) [
  | inl e ↦ rw (account_step, e) refl
  | inr e ↦ rw (account_step, e) refl
]
account_step-rules m (creates user) = ground arith
account_step-rules m (updates id update) = elim (Option-cases (lookup id m.users)) [
  | inl e ↦ rw (account_step, e) refl
  | inr (user, e) ↦ elim (Bool-cases (demotes_last m user update)) [
    | inl f ↦ rw (account_step, e, f) refl
    | inr f ↦ rw (account_step, e, f) refl
  ]
]
account_step-rules m (deletes id) = elim (Option-cases (lookup id m.users)) [
  | inl e ↦ rw (account_step, e) refl
  | inr (user, e) ↦ elim (Bool-cases (is_last_admin m user)) [
    | inl f ↦ rw (account_step, e, f) refl
    | inr f ↦ rw (account_step, e, f) refl
  ]
]
account_step-rules m (sets_mfa id enabled secret hashes) = elim (Option-cases (lookup id m.users)) [
  | inl e ↦ rw (account_step, e) refl
  | inr (user, e) ↦ rw (account_step, e) refl
]
account_step-rules m (consumes id hash) = elim (Option-cases (lookup id m.users)) [
  | inl e ↦ rw (account_step, e) refl
  | inr (user, e) ↦ elim (Option-cases (without_code hash user.mfa_recovery_hashes)) [
    | inl n ↦ rw (account_step, e, n) refl
    | inr (kept, n) ↦ rw (account_step, e, n) refl
  ]
]

counted_rule-NoClash :
    (rules : Dict ForwardRule) (rule : ForwardRule) (stats : RuleRuntimeStats) (received_at : ℕ)
    → lookup stats.rule_id rules ≡ some rule
    → NoClash rules
    → NoClash (insert rule.id (counted_rule rule stats received_at) rules)
unfolding clash
counted_rule-NoClash rules rule stats received_at found v =
    let same = v.keyed stats.rule_id rule found in
    insert-NoClash rules (counted_rule rule stats received_at)
      (rw same (ne_blank rules stats.rule_id rule v found))
      (λ k r e n. v.apart k stats.rule_id r rule e found (ground (arith, n))) v

count_rules-NoClash :
    (node_id : String) (received_at : ℕ) (stats : List RuleRuntimeStats) (rules : Dict ForwardRule)
    (reported : List String)
    → NoClash rules
    → NoClash (count_rules node_id received_at stats (rules, reported)).0
unfolding count_rules
count_rules-NoClash node_id received_at [] rules reported v = v
count_rules-NoClash node_id received_at (stats ∷ rest) rules reported v =
    elim (Option-cases (lookup stats.rule_id rules)) [
      | inl e ↦ rw (count_rules, e) (count_rules-NoClash node_id received_at rest rules reported v)
      | inr (rule, e) ↦ elim (Bool-cases (rule.ingress_node_id == node_id)) [
        | inr other ↦
            rw (count_rules, e, other)
              (count_rules-NoClash node_id received_at rest rules reported v)
        | inl own ↦
            rw (count_rules, e, own)
              (count_rules-NoClash node_id received_at rest _ _
                (counted_rule-NoClash rules rule stats received_at e v))
      ]
    ]

-- A rule of the node that was not reported, without its connections.
abbrev settled : String → ℕ → List String → String → ForwardRule → ForwardRule
settled node_id received_at reported id rule =
    if rule.ingress_node_id == node_id && not (contains id reported)
    then record rule { active_conns = 0; runtime_updated = received_at }
    else rule

lookup-reset_unreported :
    (node_id : String) (received_at : ℕ) (reported : List String) (rules : Dict ForwardRule)
    (k : String)
    → lookup k (reset_unreported node_id received_at reported rules)
      ≡ on_option (lookup k rules) none λ rule. some (settled node_id received_at reported k rule)
unfolding lookup reset_unreported
lookup-reset_unreported node_id received_at reported [] k = refl
lookup-reset_unreported node_id received_at reported ((id, rule) ∷ rules) k =
    let rest = lookup-reset_unreported node_id received_at reported rules k in
    elim (Bool-cases (rule.ingress_node_id == node_id && not (contains id reported))) [
      | inl e ↦ ground (arith, rest, eq_iff id k)
      | inr e ↦ ground (arith, rest, eq_iff id k)
    ]

settled_lem :
    (node_id : String) (received_at : ℕ) (reported : List String) (j k : String) (r s : ForwardRule)
    → ((settled node_id received_at reported j r).id ≡ r.id)
      × (clash (settled node_id received_at reported j r) (settled node_id received_at reported k s)
          ≡ clash r s)
unfolding clash
settled_lem node_id received_at reported j k r s =
    elim (Bool-cases (r.ingress_node_id == node_id && not (contains j reported))) [
      | inl e ↦ elim (Bool-cases (s.ingress_node_id == node_id && not (contains k reported))) [
        | inl f ↦ rw (e, f) (refl, refl)
        | inr f ↦ rw (e, f) (refl, refl)
      ]
      | inr e ↦ elim (Bool-cases (s.ingress_node_id == node_id && not (contains k reported))) [
        | inl f ↦ rw (e, f) (refl, refl)
        | inr f ↦ rw (e, f) (refl, refl)
      ]
    ]

reset_unreported-NoClash :
    (node_id : String) (received_at : ℕ) (reported : List String) (rules : Dict ForwardRule)
    → NoClash rules
    → NoClash (reset_unreported node_id received_at reported rules)
reset_unreported-NoClash node_id received_at reported rules v =
    let found = lookup-reset_unreported node_id received_at reported rules in
    let same = settled_lem node_id received_at reported in
    let was : (k : String) (r : ForwardRule)
        → lookup k (reset_unreported node_id received_at reported rules) ≡ some r
        → (old : ForwardRule) × (lookup k rules ≡ some old)
          × (settled node_id received_at reported k old ≡ r) =
      λ k r h. elim (Option-cases (lookup k rules)) [
        | inl e ↦ ground (arith, found k, e)
        | inr (old, e) ↦ (old, e, ground (arith, found k, e))
      ] in
    record {
      no_blank = ground (arith, found "", v.no_blank);
      keyed = λ k r h.
          let (old, e, eq) = was k r h in
          subst (λ r'. r'.id ≡ k) eq ((same k k old old).0 ∙ v.keyed k old e);
      apart = λ j k r s h e n.
          let (r_old, e_r, eq_r) = was j r h in
          let (s_old, e_s, eq_s) = was k s e in
          subst (λ s'. clash r s' ≡ false) eq_s
            (subst (λ r'. clash r' (settled node_id received_at reported k s_old) ≡ false) eq_r
              ((same j k r_old s_old).1 ∙ v.apart j k r_old s_old e_r e_s n));
    }

-- UpdateAgentHeartbeat keeps the rules free of clashes.
pub update_agent_heartbeat-NoClash :
    (m : Memory) (node_id hash : String) (heartbeat : AgentHeartbeat)
    → NoClash m.forward_rules
    → NoClash (update_agent_heartbeat m node_id hash heartbeat).1.forward_rules
unfolding update_agent_heartbeat accept_heartbeat record_agent_logs record_connections
    record_rule_stats
update_agent_heartbeat-NoClash m node_id hash heartbeat v =
    elim (Option-cases (lookup node_id m.nodes)) [
      | inl e ↦ rw e v
      | inr (node, e) ↦ elim (Bool-cases (is_admitted m node_id hash node)) [
        | inl admitted ↦
            rw (e, admitted)
              (reset_unreported-NoClash node_id heartbeat.received_at _ _ (
                count_rules-NoClash node_id heartbeat.received_at heartbeat.rule_stats
                  m.forward_rules [] v))
        | inr stranger ↦ rw (e, stranger) v
      ]
    ]

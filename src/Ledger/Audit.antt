-- ===== src/Ledger/Audit.antt =====
-- src/ledger/in-memory-ledger.ts: the audit log.
use coin_manage.Base.{
  ℕ, String, Bool, true, false, Option, none, some, List, ◌==◌, truthy, str_le, take, sort, filter,
  or_default, if◌then◌else◌,
}
use coin_manage.Base.Map.{Map, insert, values}
use coin_manage.Base.Action.{pure, modify, ◌>>=◌, ◌>>◌}
use coin_manage.Contracts.{Host}
use coin_manage.Ledger.Types.Funds.{ActorType}
use coin_manage.Ledger.Types.Records.{EntityType, AuditLog}
use coin_manage.Ledger.State.{InMemoryLedger, Method, random_uuid}

pub record AuditInput : Type 0 where
  pub entity_type : EntityType
  pub entity_id : String
  pub action : String
  pub actor_type : ActorType
  pub actor_id : String
  pub metadata : Map String

module _ (host : Host) where
  unfoldable pub append_audit_log : AuditInput → String → Method AuditLog
  unfolding random_uuid
  append_audit_log input now_iso = do
    audit_id ← random_uuid host
    let log : AuditLog = record {
      audit_id = audit_id;
      entity_type = input.entity_type;
      entity_id = input.entity_id;
      action = input.action;
      actor_type = input.actor_type;
      actor_id = input.actor_id;
      metadata = input.metadata;
      created_at = now_iso;
    }
    modify (λ s. record s { audit_logs = insert audit_id log s.audit_logs })
    pure log

pub record AuditFilter : Type 0 where
  pub entity_type : Option EntityType
  pub entity_id : Option String
  pub actor_id : Option String
  pub action : Option String
  pub created_from : Option String
  pub created_to : Option String
  pub limit : Option ℕ

abbrev same_entity : EntityType → EntityType → Bool
same_entity EntityType.withdrawal EntityType.withdrawal = true
same_entity EntityType.sweep EntityType.sweep = true
same_entity EntityType.system EntityType.system = true
same_entity _ _ = false

-- `wanted ? test(wanted) : true`
abbrev when_given : Option String → (String → Bool) → Bool
when_given none test = true
when_given (some wanted) test = if truthy wanted then test wanted else true

abbrev when_entity : Option EntityType → EntityType → Bool
when_entity none type = true
when_entity (some wanted) type = same_entity type wanted

unfoldable pub list_audit_logs : AuditFilter → InMemoryLedger → List AuditLog
list_audit_logs input s = take (or_default input.limit 100) (
    sort (λ (a b : AuditLog). str_le b.created_at a.created_at)
      (filter (λ (log : AuditLog). when_given input.created_to (λ t. str_le log.created_at t))
        (filter (λ (log : AuditLog). when_given input.created_from (λ t. str_le t log.created_at))
          (filter (λ (log : AuditLog). when_given input.action (λ t. log.action == t))
            (filter (λ (log : AuditLog). when_given input.actor_id (λ t. log.actor_id == t))
              (filter (λ (log : AuditLog). when_given input.entity_id (λ t. log.entity_id == t))
                (filter (λ (log : AuditLog). when_entity input.entity_type log.entity_type)
                  (values s.audit_logs))))))))

-- ===== src/Authorization/Commands.antt =====
-- credit_harness/authorization/commands.py: the typed command of an intent, the bindings of a
-- capability to it, and the identity of an effect.
use credit_incident_resoluti.Prelude.{ℕ, Bool, ◌||◌, Option, none, some, ◌!=◌, nat_eq}
use credit_incident_resoluti.Domain.{ActionType, action_type_eq}
use credit_incident_resoluti.Authorization.Models.{
  capability_payload_mismatch, capability_scope_mismatch, capability_target_mismatch, DomainCommand,
  ExecutionCapability, RemediationIntent, RemediationTarget,
}
use credit_incident_resoluti.Database.{
  Deployment, command_json, effect_key_json, noop_target_json, target_json,
}
use credit_incident_resoluti.Database.Transaction.{
  Tx, pure, raise, raise_if, ◌>>=◌, ◌>>◌, authorization, value_error,
}

-- Command.no_alias: a model's alias is no address of a command.
has_alias : Deployment → RemediationIntent → Bool
has_alias env intent =
    env.is_alias intent.tenant_id
    || (env.is_alias intent.case_id || env.is_alias intent.internal_order_id)

unfoldable pub replay_command :
    Deployment → RemediationIntent → Option ℕ → Option ℕ → Tx (Option DomainCommand)
unfolding has_alias
replay_command env intent (some message) (some callback) = do
  raise_if (has_alias env intent || (env.is_alias message || env.is_alias callback)) value_error
  pure (
      some (
        DomainCommand.replay_callback intent.tenant_id intent.case_id intent.internal_order_id
          message callback))
replay_command env intent _ _ = raise value_error

unfoldable pub redeliver_command :
    Deployment → RemediationIntent → Option ℕ → Tx (Option DomainCommand)
unfolding has_alias
redeliver_command env intent (some delivery) = do
  raise_if (has_alias env intent || env.is_alias delivery) value_error
  pure (
      some (
        DomainCommand.redeliver_asset_notification intent.tenant_id intent.case_id
          intent.internal_order_id delivery))
redeliver_command env intent none = raise value_error

unfoldable pub command_for : Deployment → RemediationIntent → ActionType → Tx (Option DomainCommand)
unfolding has_alias replay_command redeliver_command
command_for env intent ActionType.no_remediation = pure none
command_for env intent ActionType.replay_callback_consumption =
    replay_command env intent intent.target.message_ref intent.target.callback_event_ref
command_for env intent ActionType.redeliver_asset_notification =
    redeliver_command env intent intent.target.delivery_ref
command_for env intent ActionType.create_reconciliation_task = do
  raise_if (has_alias env intent) value_error
  pure (
      some (
        DomainCommand.create_reconciliation_task intent.tenant_id intent.case_id
          intent.internal_order_id))
command_for env intent ActionType.request_operator_review = do
  raise_if (has_alias env intent) value_error
  pure (
      some (
        DomainCommand.request_operator_review intent.tenant_id intent.case_id
          intent.internal_order_id))

-- DomainCommandBuilder.for_intent; its TYPES have a command for every other action.
unfoldable pub for_intent : Deployment → RemediationIntent → Tx (Option DomainCommand)
unfolding command_for
for_intent env intent = command_for env intent intent.action_type

command_hash : Deployment → RemediationTarget → Option DomainCommand → ℕ
command_hash env target none = env.digest (noop_target_json target)
command_hash env target (some command) = env.digest (command_json command)

-- DomainCommandBuilder.payload_hash
unfoldable pub payload_hash : Deployment → RemediationIntent → Tx ℕ
unfolding command_hash
payload_hash env intent = do
  command ← for_intent env intent
  pure (command_hash env intent.target command)

-- DomainCommandBuilder.build
unfoldable pub build :
    Deployment → RemediationIntent → ExecutionCapability → Tx (Option DomainCommand)
build env intent capability = do
  raise_if
      (intent.intent_id != capability.intent_id
        || (intent.case_id != capability.case_id
            || (intent.tenant_id != capability.tenant_id
                || (intent.internal_order_id != capability.internal_order_id
                    || intent.action_type != capability.action_type))))
      (authorization capability_scope_mismatch)
  raise_if (env.digest (target_json intent.target) != capability.target_hash)
      (authorization capability_target_mismatch)
  hash ← payload_hash env intent
  raise_if (hash != capability.payload_hash) (authorization capability_payload_mismatch)
  for_intent env intent

-- `effect_key`: neither the snapshot nor the intent renames an effect.
unfoldable pub effect_key : Deployment → ExecutionCapability → ℕ
effect_key env cap = env.digest (
    effect_key_json cap.tenant_id cap.case_id cap.internal_order_id cap.action_type cap.target_hash)

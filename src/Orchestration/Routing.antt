-- ===== src/Orchestration/Routing.antt =====
-- credit_harness/orchestration/routing.py: which component answers a requirement.
use credit_incident_resoluti.Prelude.{
  ℕ, Bool, false, ◌&&◌, Option, none, some, List, [], ◌∷◌, map, ◌==◌, nat_eq, option_eq, leb, not,
  contains, if◌then◌else◌,
}
use credit_incident_resoluti.Domain.{
  EffectStatus, is_recoverable, ToolName, tool_name_eq, VerificationRequirement,
}

pub data RequirementRoute : Type 0 where
  read_verification effect_recovery operator_followup no_action : RequirementRoute

pub record RecoveryRouteState : Type 0 where
  pub effect_ref : ℕ
  pub status : EffectStatus
  pub recovery_available : Bool
  pub requires_escalation : Bool

pub record RoutedRequirement : Type 0 where
  pub requirement : VerificationRequirement
  pub route : RequirementRoute
  pub effect_ref : Option ℕ

-- VERIFICATION_TOOLS
unfoldable pub verification_tool : VerificationRequirement → Option ToolName
verification_tool VerificationRequirement.payment_finality = some ToolName.payment
verification_tool VerificationRequirement.payment_identity = some ToolName.payment
verification_tool VerificationRequirement.request_association = some ToolName.guarantee
verification_tool VerificationRequirement.fund_final_state = some ToolName.fund
verification_tool VerificationRequirement.guarantee_final_state = some ToolName.guarantee
verification_tool VerificationRequirement.asset_final_state = some ToolName.asset
verification_tool VerificationRequirement.accounting_entry = some ToolName.accounting
verification_tool VerificationRequirement.callback_consumption = some ToolName.messages
verification_tool VerificationRequirement.asset_delivery = some ToolName.asset_delivery
verification_tool VerificationRequirement.post_effect_message_status = some ToolName.messages
verification_tool VerificationRequirement.post_effect_delivery_status = some ToolName.asset_delivery
verification_tool _ = none

filter : (RecoveryRouteState → Bool) → List RecoveryRouteState → List RecoveryRouteState
filter p [] = []
filter p (s ∷ ss) = let rest = filter p ss in if p s then s ∷ rest else rest

add_by_ref : RecoveryRouteState → List RecoveryRouteState → List RecoveryRouteState
add_by_ref s [] = s ∷ []
add_by_ref s (t ∷ ts) =
    let later = add_by_ref s ts in if leb s.effect_ref t.effect_ref then s ∷ t ∷ ts else t ∷ later

by_ref : List RecoveryRouteState → List RecoveryRouteState
unfolding add_by_ref
by_ref [] = []
by_ref (s ∷ ss) = add_by_ref s (by_ref ss)

-- Recovery can go on with this effect.
unfoldable pub is_resolvable : RecoveryRouteState → Bool
is_resolvable s = s.recovery_available && not s.requires_escalation

unfoldable pub route_effect : RecoveryRouteState → RequirementRoute
unfolding is_resolvable
route_effect s =
    if not (is_recoverable s.status)
    then RequirementRoute.no_action
    else if is_resolvable s
    then RequirementRoute.effect_recovery
    else RequirementRoute.operator_followup

single : VerificationRequirement → RequirementRoute → List RoutedRequirement
single q route = record { requirement = q; route = route; effect_ref = none } ∷ []

route_effects : VerificationRequirement → List RecoveryRouteState → List RoutedRequirement
route_effects q states =
    map (λ s. record { requirement = q; route = route_effect s; effect_ref = some s.effect_ref })
      (by_ref states)

or_all : List RecoveryRouteState → List RecoveryRouteState → List RecoveryRouteState
or_all [] all = all
or_all (s ∷ ss) all = s ∷ ss

route_finality : List RecoveryRouteState → List RoutedRequirement
route_finality [] =
    single VerificationRequirement.effect_finality RequirementRoute.operator_followup
route_finality (s ∷ ss) = route_effects VerificationRequirement.effect_finality (s ∷ ss)

route_recovery : List RecoveryRouteState → List RoutedRequirement
unfolding or_all filter
route_recovery [] = single VerificationRequirement.recovery_finality RequirementRoute.no_action
route_recovery (s ∷ ss) =
    route_effects VerificationRequirement.recovery_finality
      (or_all (filter is_resolvable (s ∷ ss)) (s ∷ ss))

has_tool : Option ToolName → List ToolName → Bool
has_tool none available = false
has_tool (some tool) available = contains tool available

-- RequirementRouter.route; `tools` is `resolved_tools` where it is given, else VERIFICATION_TOOLS.
unfoldable pub route :
    VerificationRequirement
    → (effect_ref : Option ℕ) → (tools : VerificationRequirement → Option ToolName)
    → (available : List ToolName) → List RecoveryRouteState
    → List RoutedRequirement
unfolding route_finality route_recovery has_tool single route_effects filter by_ref or_all
route VerificationRequirement.effect_finality effect_ref tools available effects =
    route_finality (filter (λ s. some s.effect_ref == effect_ref) effects)
route VerificationRequirement.recovery_finality effect_ref tools available effects =
    route_recovery (filter (λ s. is_recoverable s.status) effects)
route q effect_ref tools available effects = single q (
    if has_tool (tools q) available
    then RequirementRoute.read_verification
    else RequirementRoute.operator_followup)

-- ===== src/Hypotheses/Facts.antt =====
-- RuleFacts of credit_harness/hypotheses/rules.py: the facts that the rules decide from.
use credit_incident_resoluti.Prelude.{
  ℕ, ◌==◌, ◌!=◌, ◌&&◌, any, Bool, collect, contains, distinct, false, if◌then◌else◌, is_none, keep,
  leb, List, [], ◌∷◌, ◌++◌, map, nat_eq, none, not, Option, option_eq, some, sole, String,
  string_eq, true,
}
use credit_incident_resoluti.Domain.{ToolName, tool_name_eq}
use credit_incident_resoluti.Evidence.Models.{
  ClaimType, Evidence, evidence_subject_eq, SourceKind, source_kind_eq, Value, value_eq,
}
use credit_incident_resoluti.Hypotheses.Index.{agreed, current, EvidenceIndex, for_request}
use credit_incident_resoluti.Identity.Models.{IdentityMatch, identity_match_eq}
use credit_incident_resoluti.Identity.Payment.{verify_payment_identity}

unfoldable pub facts : EvidenceIndex → ClaimType → Value → List ToolName → List Evidence
facts index claim value tools =
    keep (λ e. contains e.tool tools && e.source_kind == SourceKind.primary)
      (agreed index claim value)

unfoldable pub payment : EvidenceIndex → String → List Evidence
unfolding facts
payment index value =
    for_request index
      (facts index ClaimType.payment_finality (Value.word value) (ToolName.payment ∷ []))

unfoldable pub settled_witness : EvidenceIndex → List Evidence
settled_witness index =
    let result = verify_payment_identity index in
    if result.result == IdentityMatch.match
    then keep (λ e. contains e.evidence_id result.evidence_refs) index.evidence
    else []

unfoldable pub gateway : EvidenceIndex → List Evidence
unfolding facts
gateway index =
    facts index ClaimType.callback_gateway_received (Value.flag true)
      (ToolName.callback ∷ ToolName.callback_raw ∷ [])

unfoldable pub messages : EvidenceIndex → String → List Evidence
unfolding facts
messages index value =
    facts index ClaimType.message_consume_status (Value.word value) (ToolName.messages ∷ [])

-- `a <= b` of two times that are there.
is_ordered : Option ℕ → Option ℕ → Bool
is_ordered (some a) (some b) = leb a b
is_ordered _ _ = false

is_consumed_later : EvidenceIndex → Evidence → Evidence → Bool
unfolding messages is_ordered
is_consumed_later index gate message =
    any
      (λ m.
        m.metadata.callback_event_id == some gate.subject.identifier
        && is_ordered message.event_time m.event_time)
      (messages index "CONSUMED")

unfoldable pub is_callback_pair : EvidenceIndex → String → Evidence → Evidence → Bool
unfolding is_ordered is_consumed_later
is_callback_pair index value gate message =
    message.metadata.callback_event_id == some gate.subject.identifier
    && is_ordered gate.event_time message.event_time
    && not (value == "FAILED" && is_consumed_later index gate message)

unfoldable pub callback_pairs : EvidenceIndex → String → List (Evidence × Evidence)
unfolding gateway messages is_callback_pair
callback_pairs index value =
    collect
      (λ gate.
        map (λ message. (gate, message))
          (keep (is_callback_pair index value gate) (messages index value)))
      (gateway index)

-- The facts of one claim that were read with a failed message.
unfoldable pub read_with : EvidenceIndex → Evidence → ClaimType → List Evidence
read_with index failed claim =
    keep
      (λ e.
        e.tool == ToolName.messages
        && e.subject == failed.subject
        && e.observation_id == failed.observation_id
        && e.event_time == failed.event_time
        && e.metadata.callback_event_id == failed.metadata.callback_event_id
        && e.content_hash == failed.content_hash
        && e.source_kind == SourceKind.primary)
      (current index claim)

values : List Evidence → List Value
values items = distinct (map (λ e. e.value) items)

pub record MismatchGroup : Type 0 where
  pub failed : Evidence
  pub codes : List Evidence
  pub fields : List Evidence
  pub expected : List Evidence
  pub actual : List Evidence

unfoldable pub read_group : EvidenceIndex → Evidence → MismatchGroup
unfolding read_with
read_group index failed = record {
  failed = failed;
  codes = read_with index failed ClaimType.message_error_code;
  fields = read_with index failed ClaimType.message_error_field;
  expected = read_with index failed ClaimType.message_expected_field_type;
  actual = read_with index failed ClaimType.message_actual_field_type;
}

-- The message names one schema error of the field, with two types that differ.
unfoldable pub is_mismatch_group : MismatchGroup → Bool
unfolding values
is_mismatch_group group =
    sole (values group.codes) == some (Value.word "CALLBACK_SCHEMA_MISMATCH")
    && sole (values group.fields) == some (Value.word "loanNo")
    && not (is_none (sole (values group.expected)))
    && not (is_none (sole (values group.actual)))
    && sole (values group.expected) != sole (values group.actual)

unfoldable pub mismatch_groups : EvidenceIndex → List MismatchGroup
unfolding messages read_group is_mismatch_group
mismatch_groups index = keep is_mismatch_group (map (read_group index) (messages index "FAILED"))

unfoldable pub members : MismatchGroup → List Evidence
members group = group.failed ∷ (group.codes ++ group.fields ++ group.expected ++ group.actual)

is_named : Option String → Bool
is_named none = false
is_named (some text) = text != ""

unfoldable pub protocol_bindings : EvidenceIndex → List Evidence
unfolding is_named
protocol_bindings index = for_request index (
    keep
      (λ e.
        e.tool == ToolName.guarantee
        && is_named e.protocol_version
        && is_named e.metadata.fund_request_id
        && e.source_kind == SourceKind.primary)
      (current index ClaimType.guarantee_status))

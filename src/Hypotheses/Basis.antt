-- ===== src/Hypotheses/Basis.antt =====
-- What each confirmed hypothesis rests on.
use credit_incident_resoluti.Prelude.{
  ◌≡◌, ◌==◌, ◌&&◌, arith, Bool, contains, false, if◌then◌else◌, In, In-collect, In-is_filled,
  In-keep, ℕ, option_eq, string_eq, is_filled, is_filled-In, keep, List, [], ◌++◌, nat_eq, true,
}
use credit_incident_resoluti.Evidence.Models.{Evidence}
use credit_incident_resoluti.Hypotheses.Index.{EvidenceIndex, request_id}
use credit_incident_resoluti.Hypotheses.Models.{HypothesisId, HypothesisStatus}
use credit_incident_resoluti.Hypotheses.Facts.{
  callback_pairs, MismatchGroup, mismatch_groups, protocol_bindings, settled_witness,
}
use credit_incident_resoluti.Hypotheses.Rules
use credit_incident_resoluti.Hypotheses.Outcome.{findings, rule_result}
use credit_incident_resoluti.Identity.Models.{IdentityMatch, identity_match_eq}
use credit_incident_resoluti.Identity.Payment.{verify_payment_identity}
use credit_incident_resoluti.Hypotheses.Checked.{confirmed_by}

-- H4: a timeout of the Case's request in its trace, and a payment whose identity matches.
pub record SettledWithoutResponse (index : EvidenceIndex) : Type 0 where
  pub timeout : Evidence
  pub observed : In timeout (Rules.http_facts index "TIMEOUT")
  pub linked : timeout.metadata.fund_request_id ≡ request_id index
  pub identity : (verify_payment_identity index).result ≡ IdentityMatch.match
  pub unanswered : is_filled (Rules.http_facts index "OK") ≡ false

-- H6_SCHEMA_MISMATCH: a failed message that answers a gateway receipt, and its mismatch.
pub record SchemaMismatch (index : EvidenceIndex) : Type 0 where
  pub group : MismatchGroup
  pub grouped : In group (mismatch_groups index)
  pub receipt : Evidence
  pub message : Evidence
  pub answered : In (receipt, message) (callback_pairs index "FAILED")
  pub same_message : group.failed.evidence_id ≡ message.evidence_id

-- What confirms each hypothesis: nothing confirms H2, H3, H5 or the stale schema.
pub Basis : EvidenceIndex → HypothesisId → Type 0
Basis index HypothesisId.h1 =
    ((e : Evidence) × In e (Rules.sent index false)) × (is_filled (Rules.sent index true) ≡ false)
Basis index HypothesisId.h4 = SettledWithoutResponse index
Basis index HypothesisId.h6 =
    (receipt : Evidence) × ((message : Evidence) × In (receipt, message)
        (callback_pairs index "FAILED"))
Basis index HypothesisId.h6_schema_mismatch = SchemaMismatch index
Basis index HypothesisId.h7 =
    ((e : Evidence) × In e (Rules.applied index))
    × (((e : Evidence) × In e (Rules.delivery_failed index))
        × (((e : Evidence) × In e (Rules.asset_facts index "PROCESSING"))
            × (is_filled (Rules.asset_facts index "SUCCESS") ≡ false)))
Basis index HypothesisId.h8 = (binding : Evidence) × In binding (protocol_bindings index)
Basis index _ = ⊥

when_filled :
    (b : Bool) (items : List Evidence) → is_filled (if b then items else []) ≡ true → b ≡ true
unfolding is_filled
when_filled b items h = ground arith

both_filled_of :
    (xs ys : List Evidence)
    → (is_filled xs && is_filled ys) ≡ true
    → (is_filled xs ≡ true) × (is_filled ys ≡ true)
both_filled_of xs ys h = ground arith

-- The witness of a settled payment stands for a match.
pub settled-match :
    (index : EvidenceIndex)
    → is_filled (settled_witness index) ≡ true
    → (verify_payment_identity index).result ≡ IdentityMatch.match
unfolding settled_witness
settled-match index h =
    (identity_match_eq.agrees_iff (verify_payment_identity index).result IdentityMatch.match).0 (
      when_filled ((verify_payment_identity index).result == IdentityMatch.match)
        (keep (λ e. contains e.evidence_id (verify_payment_identity index).evidence_refs)
          index.evidence)
        h)

h4_grounds :
    (index : EvidenceIndex)
    → is_filled (findings index HypothesisId.h4).confirm ≡ true
    → is_filled (findings index HypothesisId.h4).eliminate ≡ false
    → SettledWithoutResponse index
unfolding findings Rules.of_support Rules.both_filled Rules.timeouts settled_witness
h4_grounds index c e =
    let (asked, settled) = both_filled_of _ _ (when_filled _ _ c) in
    let (timeout, i) = is_filled-In _ asked in
    let (observed, linked) = In-keep _ timeout _ i in
    record {
      timeout = timeout;
      observed = observed;
      linked = (option_eq.agrees_iff timeout.metadata.fund_request_id (request_id index)).0 linked;
      identity = settled-match index settled;
      unanswered = e;
    }

all_filled_of :
    (xs ys zs : List Evidence)
    → (is_filled xs && is_filled ys && is_filled zs) ≡ true
    → (is_filled xs ≡ true) × ((is_filled ys ≡ true) × (is_filled zs ≡ true))
all_filled_of xs ys zs h = ground arith

same_id : (a b : ℕ) → (a == b) ≡ true → a ≡ b
same_id a b h = ground arith

unless_empty :
    (e : Evidence) (b : Bool) (items : List Evidence) → In e (if b then [] else items) → In e items
unfolding In
unless_empty e true items h = absurd h
unless_empty e false items h = h

h6_grounds :
    (index : EvidenceIndex)
    → is_filled (Rules.pair_items index "FAILED") ≡ true
    → (receipt : Evidence) × ((message : Evidence) × In
          (receipt, message)
          (callback_pairs index "FAILED"))
unfolding Rules.pair_items
h6_grounds index c =
    let (e, i) = is_filled-In _ c in
    let (pair, (found, _)) = In-collect _ e (callback_pairs index "FAILED") i in
    (pair.0, (pair.1, found))

schema_grounds :
    (index : EvidenceIndex) → is_filled (Rules.schema_witness index) ≡ true → SchemaMismatch index
unfolding Rules.schema_witness
schema_grounds index c =
    let (e, i) = is_filled-In _ c in
    let (group, (grouped, inner)) = In-collect _ e (mismatch_groups index) i in
    let (pair, (found, chosen)) = In-collect _ e (callback_pairs index "FAILED") inner in
    record {
      group = group;
      grouped = grouped;
      receipt = pair.0;
      message = pair.1;
      answered = found;
      same_message = same_id _ _ (when_filled _ _ (In-is_filled e _ chosen));
    }

h7_grounds :
    (index : EvidenceIndex)
    → is_filled (findings index HypothesisId.h7).confirm ≡ true
    → is_filled (findings index HypothesisId.h7).eliminate ≡ false
    → Basis index HypothesisId.h7
unfolding Basis findings Rules.of_support
h7_grounds index c e =
    let (a, (d, p)) =
      all_filled_of (Rules.applied index) (Rules.delivery_failed index)
        (Rules.asset_facts index "PROCESSING")
        (when_filled _
          (Rules.applied index
            ++ Rules.delivery_failed index
            ++ Rules.asset_facts index "PROCESSING")
          c) in
    (is_filled-In _ a, (is_filled-In _ d, (is_filled-In _ p, e)))

h8_grounds :
    (index : EvidenceIndex)
    → is_filled (Rules.applicable index) ≡ true
    → (binding : Evidence) × In binding (protocol_bindings index)
unfolding Rules.applicable
h8_grounds index c =
    let (e, i) = is_filled-In _ c in
    let (binding, (found, _)) =
      In-collect (Rules.applicable_to index) e (protocol_bindings index) (unless_empty e _ _ i) in
    (binding, found)

by_findings :
    (index : EvidenceIndex) (h : HypothesisId)
    → (is_filled (findings index h).confirm ≡ true)
      × (is_filled (findings index h).eliminate ≡ false)
    → Basis index h
unfolding findings Rules.of_support Basis is_filled
by_findings index HypothesisId.h1 (c, e) = (is_filled-In _ c, e)
by_findings index HypothesisId.h2 (c, e) = absurd (cc c)
by_findings index HypothesisId.h3 (c, e) = absurd (cc c)
by_findings index HypothesisId.h4 (c, e) = h4_grounds index c e
by_findings index HypothesisId.h5 (c, e) = absurd (cc c)
by_findings index HypothesisId.h6 (c, e) = h6_grounds index c
by_findings index HypothesisId.h6_schema_mismatch (c, e) = schema_grounds index c
by_findings index HypothesisId.h6_stale_consumer_schema (c, e) = absurd (cc c)
by_findings index HypothesisId.h7 (c, e) = h7_grounds index c e
by_findings index HypothesisId.h8 (c, e) = h8_grounds index c

-- A hypothesis that the rules confirm rests on facts of its own: H1 on a trace that states the
-- request as not sent, and none as sent; H4 on a timeout of the Case's request, a matching payment
-- and no response; H6 on a failed message that answers a gateway receipt; the schema mismatch on
-- such a message with its mismatch; H7 on the applied result, the failed delivery and the pending
-- asset, and no successful one; H8 on a binding of the request. H2, H3, H5 and the stale schema are
-- never confirmed.
pub confirmed-Basis :
    (index : EvidenceIndex) (h : HypothesisId)
    → (rule_result index h).status ≡ HypothesisStatus.confirmed
    → Basis index h
unfolding rule_result Rules.decide findings Rules.of_support Basis
confirmed-Basis index h s =
    by_findings index h (confirmed_by index.case.status (findings index h) s)

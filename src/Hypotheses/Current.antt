-- ===== src/Hypotheses/Current.antt =====
-- What an item of the index being current, and agreed upon, means.
use credit_incident_resoluti.Prelude.{
  ◌≤◌, ◌<◌, ◌≡◌, ◌≢◌, ◌==◌, ◌&&◌, arith, Bool, every-In, false, In, In-keep, In-sorted_by, keep,
  keep-In, List, none, true, not_any-In,
}
use credit_incident_resoluti.Evidence.Models.{
  ClaimType, claim_type_eq, Completeness, completeness_eq, Evidence, Freshness, freshness_eq, Value,
  value_eq,
}
use credit_incident_resoluti.Hypotheses.Index.{
  agreed, all, business_time, current, dimension, dimension_eq, EvidenceIndex, is_eligible,
  is_latest, is_superseded, is_undisputed, latest,
}

-- An item that a rule may rest on: the source stated it as current and complete at a known instant,
-- no later lookup of the same query failed, and nothing later is known of its subject.
pub record Current (index : EvidenceIndex) (claim : ClaimType) (e : Evidence) : Type 0 where
  pub listed : In e index.evidence
  pub claims : e.claim_type ≡ claim
  pub fresh : e.freshness ≡ Freshness.current
  pub complete : e.completeness ≡ Completeness.complete
  pub dated : e.source_as_of ≢ none
  pub standing :
      (l : Evidence)
      → In l index.evidence
      → l.claim_type ≡ ClaimType.source_lookup_status
      → l.tool ≡ e.tool
      → l.metadata.scope ≡ e.metadata.scope
      → l.observed_at < e.observed_at
  pub newest :
      (other : Evidence)
      → In other (keep (is_eligible index) (all index claim))
      → dimension other ≡ dimension e
      → business_time other ≤ business_time e

not_superseded :
    (index : EvidenceIndex) (e l : Evidence)
    → is_superseded index e ≡ false
    → In l index.evidence
    → l.claim_type ≡ ClaimType.source_lookup_status
    → l.tool ≡ e.tool
    → l.metadata.scope ≡ e.metadata.scope
    → l.observed_at < e.observed_at
unfolding is_superseded all
not_superseded index e l s i c t q =
    let looked =
      keep-In (λ (x : Evidence). x.claim_type == ClaimType.source_lookup_status) l index.evidence i
        (ground arith) in
    let later = not_any-In _ l _ s looked in ground arith

eligible_of :
    (index : EvidenceIndex) (e : Evidence)
    → is_eligible index e ≡ true
    → (e.freshness ≡ Freshness.current)
      × ((e.completeness ≡ Completeness.complete)
          × ((e.source_as_of ≢ none) × (is_superseded index e ≡ false)))
unfolding is_eligible
eligible_of index e h = ground arith

newest_of :
    (items : List Evidence) (e other : Evidence)
    → is_latest items e ≡ true
    → In other items
    → dimension other ≡ dimension e
    → business_time other ≤ business_time e
unfolding is_latest
newest_of items e other h i d =
    let same =
      keep-In (λ (x : Evidence). dimension x == dimension e) other items i (ground arith) in
    let later = every-In _ other _ h same in ground arith

-- Every item that the index gives as current for a claim is an item of the Case's Evidence for that
-- claim, current and complete and dated by its source, observed after every failed lookup of the
-- same query, and of the latest business time among the eligible items of its subject.
pub current-Current :
    (index : EvidenceIndex) (claim : ClaimType) (e : Evidence)
    → In e (current index claim)
    → Current index claim e
unfolding current latest all
current-Current index claim e h =
    let (kept, newest) =
      In-keep (is_latest (keep (is_eligible index) (all index claim))) e _ (In-sorted_by _ e _ h) in
    let (found, eligible) = In-keep (is_eligible index) e (all index claim) kept in
    let (listed, claims) =
      In-keep (λ (x : Evidence). x.claim_type == claim) e index.evidence found in
    let (fresh, (complete, (dated, standing))) = eligible_of index e eligible in
    record {
      listed = listed;
      claims = ground arith;
      fresh = fresh;
      complete = complete;
      dated = dated;
      standing = λ l i. not_superseded index e l standing i;
      newest = λ other i d. newest_of _ e other newest i d;
    }

both_true : (a b : Bool) → (a && b) ≡ true → (a ≡ true) × (b ≡ true)
both_true a b h = ground arith

undisputed_of :
    (items : List Evidence) (value : Value) (e other : Evidence)
    → is_undisputed items value e ≡ true
    → In other items
    → dimension other ≡ dimension e
    → other.value ≡ value
unfolding is_undisputed
undisputed_of items value e other h i d =
    let same =
      keep-In (λ (x : Evidence). dimension x == dimension e) other items i (ground arith) in
    let later = every-In _ other _ h same in ground arith

-- A value is agreed for a claim through current items alone, and every other current item of the
-- same claim and subject states the same value.
pub agreed-undisputed :
    (index : EvidenceIndex) (claim : ClaimType) (value : Value) (e other : Evidence)
    → In e (agreed index claim value)
    → In other (current index claim)
    → dimension other ≡ dimension e
    → Current index claim e × ((e.value ≡ value) × (other.value ≡ value))
unfolding agreed
agreed-undisputed index claim value e other h i d =
    let (found, agrees) =
      In-keep (λ (x : Evidence). x.value == value && is_undisputed (current index claim) value x) e
        _ h in
    let (says, undisputed) = both_true (e.value == value) _ agrees in
    (
      current-Current index claim e found,
      (ground arith, undisputed_of _ value e other undisputed i d),
    )

-- ===== src/Hypotheses/OpenGaps.antt =====
-- The gaps that stay open.
use credit_incident_resoluti.Prelude.{
  ◌≡◌, ◌≢◌, refl, ◌==◌, arith, Bool-cases, false, In, inl, inr, is_filled, keep-In, sorted_by-In,
}
use credit_incident_resoluti.Hypotheses.Index.{EvidenceIndex}
use credit_incident_resoluti.Hypotheses.Models.{
  EvidenceGap, GapStatus, gap_status_eq, PriorityClass,
}
use credit_incident_resoluti.Hypotheses.Facts.{settled_witness}
use credit_incident_resoluti.Hypotheses.Gaps
use credit_incident_resoluti.Hypotheses.Engine
use credit_incident_resoluti.Hypotheses.Basis.{settled-match}
use credit_incident_resoluti.Identity.Models.{IdentityMatch}
use credit_incident_resoluti.Identity.Payment.{verify_payment_identity}

open_gaps-In :
    (index : EvidenceIndex) (g : EvidenceGap)
    → In g (Gaps.derive_gaps index)
    → g.status ≡ GapStatus.«open»
    → In g (Engine.graph_of index).open_gaps
unfolding Engine.graph_of
open_gaps-In index g h s =
    keep-In (λ (x : EvidenceGap). x.status == GapStatus.«open») g _ h (ground arith)

identity_gap-listed :
    (index : EvidenceIndex) → In (Gaps.identity_gap index) (Gaps.derive_gaps index)
unfolding Gaps.derive_gaps In
identity_gap-listed index =
    sorted_by-In (λ (g : EvidenceGap). Gaps.gap_rank g.name) (Gaps.identity_gap index) _ (inl refl)

unmatched-empty :
    (index : EvidenceIndex)
    → (verify_payment_identity index).result ≢ IdentityMatch.match
    → is_filled (settled_witness index) ≡ false
unmatched-empty index h = elim (Bool-cases (is_filled (settled_witness index))) [
  | inl t ↦ absurd (h (settled-match index t))
  | inr f ↦ f
]

-- As long as the payment's identity does not match, be it unknown or a mismatch, the graph lists the
-- question of that identity among its open gaps, as critical to safety.
pub unmatched-open :
    (index : EvidenceIndex)
    → (verify_payment_identity index).result ≢ IdentityMatch.match
    → In (Gaps.identity_gap index) (Engine.graph_of index).open_gaps
      × ((Gaps.identity_gap index).priority_class ≡ PriorityClass.safety_critical)
unfolding Gaps.identity_gap Gaps.gap
unmatched-open index h = (
  open_gaps-In index (Gaps.identity_gap index) (identity_gap-listed index)
      (rw (unmatched-empty index h)),
  refl,
)

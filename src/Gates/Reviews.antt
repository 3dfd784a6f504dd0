-- ===== src/Gates/Reviews.antt =====
-- When the reviews of a role let its gate pass: `reviewGateState` of src/kernel/execution.ts.
use Prim.Native.String.{String}
use uads.Common.{
  Bool, true, false, ◌||◌, ◌&&◌, arith, All, Bool-cases, inl, inr, refl, ◌≡◌, ◌≢◌, ◌↔◌, List, [],
  ◌∷◌, Option, none, some, any, filter, ◌==◌, string_eq,
}
use uads.Gates.Registry.{review_gate_role}
use uads.Gates.Records.{
  GateRuntimeStatus, ReviewFinding, ReviewRecord, ReviewVerdict, is_severe, verdict_eq,
}
use uads.Gates.States.{
  Validation, is_current_review, is_tainted_approval, review_gate_state, review_status,
  review_status_for,
}

-- An approval with no HIGH or CRITICAL finding.
abbrev pub IsCleanApproval : ReviewRecord → Type 0
IsCleanApproval r =
    (r.verdict ≡ ReviewVerdict.approved)
    × (any (λ (f : ReviewFinding). is_severe f.severity) r.findings ≡ false)

abbrev has_verdict : ReviewVerdict → ReviewRecord → Bool
has_verdict k r = r.verdict == k

clean_iff :
    (v : ReviewVerdict) (severe : Bool)
    → (((v == ReviewVerdict.approved && severe) ≡ false)
        × ((v == ReviewVerdict.review_blocked) ≡ false)
        × ((v == ReviewVerdict.correction_needed) ≡ false))
      ↔ ((v ≡ ReviewVerdict.approved) × (severe ≡ false))
clean_iff v severe = ground arith

clean_reviews_iff :
    (rs : List ReviewRecord)
    → ((any is_tainted_approval rs ≡ false)
        × (any (has_verdict ReviewVerdict.review_blocked) rs ≡ false)
        × (any (has_verdict ReviewVerdict.correction_needed) rs ≡ false))
      ↔ All IsCleanApproval rs
unfolding any is_tainted_approval
clean_reviews_iff [] = ground arith
clean_reviews_iff (r ∷ rs) = ground (
  arith,
  clean_reviews_iff rs,
  clean_iff r.verdict (any (λ (f : ReviewFinding). is_severe f.severity) r.findings),
)

review_status-chain :
    (rs : List ReviewRecord)
    → (review_status rs ≡ GateRuntimeStatus.pass) ↔ (
        (any is_tainted_approval rs ≡ false)
        × (any (has_verdict ReviewVerdict.review_blocked) rs ≡ false)
        × (any (has_verdict ReviewVerdict.correction_needed) rs ≡ false)
        × (any (has_verdict ReviewVerdict.approved) rs ≡ true))
unfolding review_status
review_status-chain rs = ground arith

any-approved :
    (r : ReviewRecord) (rs : List ReviewRecord)
    → r.verdict ≡ ReviewVerdict.approved
    → any (has_verdict ReviewVerdict.approved) (r ∷ rs) ≡ true
unfolding any
any-approved r rs e = ground arith

nothing_approved : any (has_verdict ReviewVerdict.approved) [] ≡ false
unfolding any
nothing_approved = refl

-- The current reviews of a role let its gate pass exactly when there is one and every one of them
-- is an approval with no HIGH or CRITICAL finding: a single other verdict, or a single approval
-- over a severe finding, keeps the gate from passing, whatever the order.
pub review_status-pass_iff :
    (rs : List ReviewRecord)
    → (review_status rs ≡ GateRuntimeStatus.pass) ↔ ((rs ≢ []) × All IsCleanApproval rs)
review_status-pass_iff [] = (
  (λ h. let (a, b, c, d) = (review_status-chain []).0 h in cc (d, nothing_approved)),
  (λ h. absurd (h.0 refl)),
)
review_status-pass_iff (r ∷ rs) =
    let (sound, complete) = review_status-chain (r ∷ rs) in
    let (clean, unclean) = clean_reviews_iff (r ∷ rs) in
    (
      (λ h. let (a, b, c, d) = sound h in ((λ e. cc e), clean (a, b, c))),
      (λ h.
          let (a, b, c) = unclean h.1 in
          let first : IsCleanApproval r = h.1.0 in complete (a, b, c, any-approved r rs first.0)),
    )

-- What a review gate passes on: a digest, the gate's role, and the current reviews of both.
abbrev pub IsReviewed :
    Option String → Option String → List ReviewRecord → Option Validation → Type 0
IsReviewed none role reviews v = ⊥
IsReviewed (some d) none reviews v = ⊥
IsReviewed (some d) (some r) reviews v =
    ((d == "" || r == "") ≡ false)
    × (filter (is_current_review d r v) reviews ≢ [])
    × All IsCleanApproval (filter (is_current_review d r v) reviews)

review_status_for-pass_iff :
    (digest role : Option String) (reviews : List ReviewRecord) (v : Option Validation)
    → (review_status_for digest role reviews v ≡ GateRuntimeStatus.pass)
      ↔ IsReviewed digest role reviews v
review_status_for-pass_iff none role reviews v = ((λ h. cc h), (λ h. absurd h))
review_status_for-pass_iff (some d) none reviews v = ((λ h. cc h), (λ h. absurd h))
review_status_for-pass_iff (some d) (some r) reviews v =
    let current : List ReviewRecord = filter (is_current_review d r v) reviews in
    let (sound, complete) = review_status-pass_iff current in
    elim (Bool-cases (d == "" || r == "")) [
      | inl blank ↦ ((λ h. cc (h, blank)), (λ h. cc (h.0, blank)))
      | inr filled ↦ (
        (λ h. let (some_review, clean) = sound (rw filled at h) in (filled, some_review, clean)),
        (λ (seen, some_review, clean). rw filled (complete (some_review, clean))),
      )
    ]

-- A review gate passes exactly when there is a change digest, and a review of that digest by the
-- gate's role and of the same run, and every such review is an approval with no HIGH or CRITICAL
-- finding. Reviews of other digests, roles or runs do not count.
pub review_gate_state-pass_iff :
    (id : String) (digest : Option String) (reviews : List ReviewRecord) (v : Option Validation)
    → ((review_gate_state id digest reviews v).status ≡ GateRuntimeStatus.pass)
      ↔ IsReviewed digest (review_gate_role id) reviews v
unfolding review_gate_state
review_gate_state-pass_iff id digest reviews v =
    review_status_for-pass_iff digest (review_gate_role id) reviews v

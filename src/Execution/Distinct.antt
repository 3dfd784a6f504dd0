-- ===== src/Execution/Distinct.antt =====
-- Whom `runAssuranceRecord` of src/kernel/execution.ts lets review.
use Prim.Native.String.{String}
use uads.Common.{
  true_of_not, Bool, true, false, ◌||◌, List, some, contains, ◌==◌, string_eq, arith, ◌≡◌, ◌∙◌, ap,
  sym, refl,
}
use uads.Common.Nullable.{or_text}
use uads.Kernel.Types.{WorkOrder}
use uads.Kernel.Execution.{ExecutionPhase, ExecutionRun, execution_phase_eq}
use uads.Gates.Records.{EvidenceRecord, ReviewFinding, ReviewRecord}
use uads.Execution.Store.{Store, World, returned}
use uads.Execution.Run.{Active, load_active}
use uads.Execution.Review.{compose_review, prepare_review, reviewed_run, run_assurance_record}
use uads.Execution.Reviewer.{
  ReviewInput, Reviewed, assert_reviewer, distinct_reviewer, review_record_of,
}
use uads.Execution.Returns.{passed_guard, passed_option, returned_by}

-- A review of the run's current digest by a required role that is not the implementer's, in a
-- session that is not the bound session of the implementer.
abbrev pub IsDistinct : ExecutionRun → ReviewRecord → Type 0
IsDistinct run r =
    (run.implementer_session_id ≡ some r.implementer_session_id)
    × ((r.review_session_id == r.implementer_session_id) ≡ false)
    × ((r.reviewer_role == run.implementer_role) ≡ false)
    × (contains run.required_reviewers r.reviewer_role ≡ true)
    × (r.change_digest ≡ or_text run.current_change_digest "")

module _ (world : World) where
  -- What the bound session is told apart from.
  abbrev IsApart : ExecutionRun → ReviewInput → String → Type 0
  IsApart run input bound =
      ((world.redact input.session == bound) ≡ false)
      × ((world.redact input.role == run.implementer_role) ≡ false)
      × (contains run.required_reviewers (world.redact input.role) ≡ true)

  neither : (a b : Bool) → (a || b) ≡ false → a ≡ false
  neither a b h = ground (arith, h)

  distinct_reviewer-IsApart :
      (run : ExecutionRun) (input : ReviewInput) (bound kept : String) (s : Store)
      → (distinct_reviewer world run input bound s).0 ≡ returned kept
      → IsApart run input kept × (bound ≡ kept)
  unfolding distinct_reviewer
  distinct_reviewer-IsApart run input bound kept s h =
      let (a, h) = passed_guard _ _ _ s kept h in
      let (roles, h) = passed_guard _ _ _ s kept h in
      let (session, h) = passed_guard _ _ _ s kept h in
      let (known, h) = passed_guard _ _ _ s kept h in
      let (required, h) = passed_guard _ _ _ s kept h in
      let same : bound ≡ kept = cc h in
      ((rw (← same) session, neither _ _ roles, true_of_not _ required), same)

  assert_reviewer-IsApart :
      (order : WorkOrder) (run : ExecutionRun) (input : ReviewInput) (kept : String) (s : Store)
      → (assert_reviewer world order run input s).0 ≡ returned kept
      → IsApart run input kept × (run.implementer_session_id ≡ some kept)
  unfolding assert_reviewer
  assert_reviewer-IsApart order run input kept s h =
      let (a, h) = passed_guard _ _ _ s kept h in
      let (b, h) = passed_guard _ _ _ s kept h in
      let (c, h) = passed_guard _ _ _ s kept h in
      let (d, h) = passed_guard _ _ _ s kept h in
      let (bound, found, h) = passed_option run.implementer_session_id _ _ s kept h in
      let (apart, same) = distinct_reviewer-IsApart run input bound kept s h in
      (apart, rw (← same) found)

  compose_review-made :
      (active : Active) (input : ReviewInput) (bound : String) (s : Store) (r : ReviewRecord)
      → (compose_review world active input bound s).0 ≡ returned r
      → (findings : List ReviewFinding) × (evidence : List EvidenceRecord) × (r
          ≡ review_record_of world active.run input bound findings evidence)
  unfolding compose_review
  compose_review-made active input bound s r h =
      let (evidence, a, h) = returned_by _ _ s r h in
      let (reviews, b, h) = returned_by _ _ _ r h in
      let (selection, c, h) = returned_by _ _ _ r h in
      let (findings, d, h) = returned_by _ _ _ r h in
      let (unit, e, h) = returned_by _ _ _ r h in (findings, evidence, cc h)

  record-IsDistinct :
      (run : ExecutionRun) (input : ReviewInput) (bound : String) (findings : List ReviewFinding)
      (evidence : List EvidenceRecord)
      → IsApart run input bound
      → run.implementer_session_id ≡ some bound
      → IsDistinct run (review_record_of world run input bound findings evidence)
  unfolding review_record_of
  record-IsDistinct run input bound findings evidence apart known =
      (known, apart.0, apart.1, apart.2, refl)

  prepare_review-IsDistinct :
      (active : Active) (input : ReviewInput) (s : Store) (r : ReviewRecord)
      → (prepare_review world active input s).0 ≡ returned r
      → (active.run.phase ≡ ExecutionPhase.review) × IsDistinct active.run r
  unfolding prepare_review
  prepare_review-IsDistinct active input s r h =
      let (phase, h) = passed_guard _ _ _ s r h in
      let (bound, checked, h) = returned_by _ _ s r h in
      let (apart, known) =
        assert_reviewer-IsApart active.work_order active.run input bound s checked in
      let (findings, evidence, made) = compose_review-made active input bound _ r h in
      (
        (execution_phase_eq.beq_iff active.run.phase ExecutionPhase.review).0 (true_of_not _ phase),
        rw made (record-IsDistinct active.run input bound findings evidence apart known),
      )

IsDistinct-kept :
    (run : ExecutionRun) (r kept : ReviewRecord) → r ≡ kept → IsDistinct run r → IsDistinct run kept
IsDistinct-kept run r kept same h = rw (← same) h

-- A review that `assurance record` accepts is of a run under review, by a required role other than
-- the implementer's, in a session other than the bound session of the implementer, and of the
-- current digest; the run that it returns is moved on by that review.
pub run_assurance_record-IsDistinct :
    (world : World) (input : ReviewInput) (s : Store) (reviewed : Reviewed)
    → (run_assurance_record world input s).0 ≡ returned reviewed
    → (active : Active) × ((load_active world s).0 ≡ returned active)
      × (active.run.phase ≡ ExecutionPhase.review)
      × IsDistinct active.run reviewed.record_kept
      × (reviewed.run ≡ reviewed_run world active.run reviewed.record_kept)
unfolding run_assurance_record
run_assurance_record-IsDistinct world input s reviewed h =
    let (active, loaded, h) = returned_by (load_active world) _ s reviewed h in
    let (r, prepared, h) = returned_by (prepare_review world active input) _ _ reviewed h in
    let (a, filed, h) = returned_by _ _ _ reviewed h in
    let (b, stored, h) = returned_by _ _ _ reviewed h in
    let (c, noted, h) = returned_by _ _ _ reviewed h in
    let made : record { record_kept = r; run = reviewed_run world active.run r } ≡ reviewed =
      cc h in
    let (phase, distinct) = prepare_review-IsDistinct world active input _ r prepared in
    (
      active,
      loaded,
      phase,
      IsDistinct-kept active.run r reviewed.record_kept (ap (λ (x : Reviewed). x.record_kept) made)
          distinct,
      sym (ap (λ (x : Reviewed). x.run) made)
          ∙ ap (reviewed_run world active.run) (ap (λ (x : Reviewed). x.record_kept) made),
    )

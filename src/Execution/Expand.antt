-- ===== src/Execution/Expand.antt =====
-- `runContextExpand` of src/kernel/execution.ts: one radius further, within the token budget.
-- `publishImpactAndPack` writes files that no command here reads.
use Prim.Native.String.{String}
use uads.Common.{
  Bool, true, false, not, ◌&&◌, List, [], ◌∷◌, ◌++◌, Option, none, some, if◌then◌else◌, ◌&◌,
}
use uads.Kernel.Types.{ContextRadius, c0, c1, c2, c3, c4, c5}
use uads.Kernel.Execution.{ExecutionPacket, ExecutionRun}
use uads.Kernel.Ids.{unique}
use uads.Cost.Types.{GovernorOutcome, no_patch}
use uads.Cost.Budget.{enforce_token_budget, note_governor_event}
use uads.Execution.Store.{
  Action, Intel, World, ◌>>=◌, ◌>>◌, execution_blocked, governor, or_raise, other_error, pure,
  raise_if,
}
use uads.Execution.Persist.{persist_execution_packet, persist_execution_run, write_checkpoint}
use uads.Execution.Run.{build_packet, load_active}

abbrev pub radius_text : ContextRadius → String
radius_text c0 = "C0"
radius_text c1 = "C1"
radius_text c2 = "C2"
radius_text c3 = "C3"
radius_text c4 = "C4"
radius_text c5 = "C5"

-- `RADIUS_ORDER[index + 1]`
abbrev pub next_radius : ContextRadius → Option ContextRadius
next_radius c0 = some c1
next_radius c1 = some c2
next_radius c2 = some c3
next_radius c3 = some c4
next_radius c4 = some c5
next_radius c5 = none

abbrev pub is_c5 : ContextRadius → Bool
is_c5 c0 = false
is_c5 c1 = false
is_c5 c2 = false
is_c5 c3 = false
is_c5 c4 = false
is_c5 c5 = true

abbrev or_candidates : Option (List String) → List String → List String
or_candidates none old = unique old
or_candidates (some found) old = found

module _ (world : World) where
  unfoldable pub expanded_run :
      ExecutionRun → ContextRadius → String → List String → Intel → ExecutionRun
  expanded_run run next reason candidates intel = record run {
    context_radius = next;
    context_candidates = candidates;
    expansion_history =
        run.expansion_history
        ++ (record {
          from = run.context_radius;
          to = next;
          reason = world.redact reason;
          at_time = world.now;
        }
            ∷ []);
    next_action =
        "Context expanded to "
        & radius_text next
        & ". Do not treat this as permission to edit unrelated areas.";
    context_pack_id = some intel.context_pack_id;
    impact_report_id = some intel.impact_report_id;
    index_digest = some intel.index_digest;
    updated_at = world.now;
  }

  unfoldable pub run_context_expand : String → Bool → Action (ExecutionRun × ExecutionPacket)
  run_context_expand reason approve_c5 = do
    active ← load_active world
    let run = active.run
    let order = active.work_order
    next ← or_raise (next_radius run.context_radius) (
        execution_blocked "context radius cannot expand further"
          (("radius is " & radius_text run.context_radius) ∷ []))
    raise_if (is_c5 next && not approve_c5) (
        execution_blocked "C5 is exceptional and blocked by default"
          ("C5 requires explicit approval" ∷ []))
    let candidates = or_candidates (world.candidates_at next order) run.context_candidates
    intel ←
        or_raise (world.intel_at next order run) (other_error "impact and context pack unavailable")
    governor (λ costs.
        enforce_token_budget world.costs costs order intel.estimated_tokens
          ("context-expand:" & radius_text next) (some run.execution_run_id))
    governor (λ costs.
        note_governor_event world.costs costs world.project_id (some run.work_order_id)
          (some run.execution_run_id)
          (if is_c5 next then GovernorOutcome.warn else GovernorOutcome.allow)
          (if is_c5 next
            then "CONTEXT_EXPANDED" ∷ "C5_EXCEPTIONAL" ∷ []
            else "CONTEXT_EXPANDED" ∷ [])
          ("context-expand:" & radius_text next)
          (some (record no_patch {
            context_expansions = some 1;
            c5_uses = some (if is_c5 next then 1 else 0);
          })))
    let updated = expanded_run run next reason candidates intel
    packet ← persist_execution_packet world (build_packet updated order)
    persist_execution_run world updated (some packet)
    write_checkpoint world
        (record active.checkpoint { updated_at = world.now; next_action = updated.next_action })
        order
        (record active.context_plan {
          radius = next;
          candidate_areas = candidates;
          reason = active.context_plan.reason & "; expanded: " & reason;
          context_pack_id = some intel.context_pack_id;
          impact_report_id = some intel.impact_report_id;
          index_digest = some intel.index_digest;
        })
    pure (updated, packet)

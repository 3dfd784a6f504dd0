-- ===== src/Execution/Persist.antt =====
-- Reading and writing the sidecar: src/kernel/execution-persist.ts and src/kernel/persist.ts. A
-- record is redacted, then its schema is asked, then it is written; what a schema refuses is thrown
-- before anything is written. Files that hold no valid record read as missing.
use Prim.Native.String.{String}
use uads.Common.{
  not, List, [], ◌∷◌, ◌++◌, Option, none, some, filter, ◌==◌, string_eq, if◌then◌else◌, ◌&◌,
}
use uads.Common.Sort.{sort_by}
use uads.Kernel.Types.{Checkpoint, ContextPlan, RoutingDecision, WorkOrder}
use uads.Kernel.Execution.{ExecutionPacket, ExecutionRun}
use uads.Gates.Records.{EvidenceRecord, ReviewRecord}
use uads.Execution.Store.{
  Action, ExecutionError, ReviewPacket, Store, World, ◌>>=◌, ◌>>◌, invalid_orchestration_state,
  or_raise, other_error, pure, put, raise_if, read, write,
}
use uads.Execution.Sanitize.{
  sanitize_evidence, sanitize_packet, sanitize_review, sanitize_review_packet, sanitize_run,
}
use uads.Execution.SanitizePlan.{
  sanitize_checkpoint, sanitize_context_plan, sanitize_routing, sanitize_work_order,
}

abbrev pub schema_error : String → ExecutionError
schema_error name = other_error ("schema: " & name)

module _ (world : World) where
  -- The run is written before the packet's schema is asked, and the pointer last.
  abbrev pub write_run : ExecutionRun → Store → Store
  write_run run s = record s { runs = put run.execution_run_id run s.runs }

  abbrev pub point_to : String → Store → Store
  point_to id s = record s { current_execution = some id }

  unfoldable pub persist_execution_packet : ExecutionPacket → Action ExecutionPacket
  persist_execution_packet packet =
      let kept = sanitize_packet world.redact packet in
      raise_if (not (world.accepts_packet kept)) (schema_error "execution-packet")
      >> write (λ s. record s { packets = put kept.execution_run_id kept s.packets })
      >> pure kept

  abbrev pub persist_optional : Option ExecutionPacket → Action (Unit {0})
  persist_optional none = pure tt
  persist_optional (some packet) = persist_execution_packet packet >> pure tt

  unfoldable pub persist_execution_run : ExecutionRun → Option ExecutionPacket → Action (Unit {0})
  persist_execution_run run packet =
      let kept = sanitize_run world.redact run in
      raise_if (not (world.accepts_run kept)) (schema_error "execution-run")
      >> write (write_run kept)
      >> persist_optional packet
      >> write (point_to kept.execution_run_id)

  -- A record replaces the one whose file has its name.
  abbrev pub put_record : {A : Type 0} → (A → String) → A → List A → List A
  put_record id_of a records = filter (λ r. not (id_of r == id_of a)) records ++ (a ∷ [])

  abbrev pub put_evidence : EvidenceRecord → Store → Store
  put_evidence r s = record s {
    evidence = λ id.
        if r.execution_run_id == id
        then put_record (λ (e : EvidenceRecord). e.evidence_id) r (s.evidence id)
        else s.evidence id;
  }

  abbrev pub put_review : ReviewRecord → Store → Store
  put_review r s = record s {
    reviews = λ id.
        if r.execution_run_id == id
        then put_record (λ (v : ReviewRecord). v.review_id) r (s.reviews id)
        else s.reviews id;
  }

  unfoldable pub persist_evidence_record : EvidenceRecord → Action (Unit {0})
  persist_evidence_record r =
      let kept = sanitize_evidence world.redact r in
      raise_if (not (world.accepts_evidence kept)) (schema_error "evidence-record")
      >> write (put_evidence kept)

  unfoldable pub persist_review_record : ReviewRecord → Action (Unit {0})
  persist_review_record r =
      let kept = sanitize_review world.redact r in
      raise_if (not (world.accepts_review kept)) (schema_error "review-record")
      >> write (put_review kept)

  unfoldable pub persist_review_packet : ReviewPacket → Action (Unit {0})
  persist_review_packet packet =
      let kept = sanitize_review_packet world.redact packet in
      raise_if (not (world.accepts_review_packet kept)) (schema_error "review-packet")
      >> write (λ s. record s { review_packets = put kept.execution_run_id kept s.review_packets })

  -- By file name, then stably by the time of creation.
  abbrev pub evidence_in : String → Store → List EvidenceRecord
  evidence_in id s =
      sort_by (λ (a b : EvidenceRecord). world.locale_compare a.created_at b.created_at)
        (sort_by
          (λ (a b : EvidenceRecord).
            world.name_compare (a.evidence_id & ".json") (b.evidence_id & ".json"))
          (s.evidence id))

  abbrev pub reviews_in : String → Store → List ReviewRecord
  reviews_in id s =
      sort_by (λ (a b : ReviewRecord). world.locale_compare a.created_at b.created_at)
        (sort_by
          (λ (a b : ReviewRecord).
            world.name_compare (a.review_id & ".json") (b.review_id & ".json"))
          (s.reviews id))

  unfoldable pub list_evidence_records : String → Action (List EvidenceRecord)
  list_evidence_records id = read (evidence_in id)

  unfoldable pub list_review_records : String → Action (List ReviewRecord)
  list_review_records id = read (reviews_in id)

  abbrev pub run_at : Option String → Store → Option ExecutionRun
  run_at none s = none
  run_at (some id) s = if id == "" then none else s.runs id

  unfoldable pub current_run : Store → Option ExecutionRun
  current_run s = run_at s.current_execution s

  unfoldable pub persist_plan :
      WorkOrder → RoutingDecision → Checkpoint → ContextPlan → Action (Unit {0})
  persist_plan order decision checkpoint plan =
      let order = sanitize_work_order world.redact order in
      let decision = sanitize_routing world.redact decision in
      let checkpoint = sanitize_checkpoint world.redact checkpoint in
      raise_if (not (world.accepts_plan order decision checkpoint)) (schema_error "plan")
      >> write (λ s. record s {
        work_orders = put order.work_order_id order s.work_orders;
        routing_decisions = put decision.routing_decision_id decision s.routing_decisions;
        checkpoint = some checkpoint;
        context_plan = some (sanitize_context_plan world.redact plan);
      })

  abbrev routing_of : String → Store → Option RoutingDecision
  routing_of id s = if id == "" then none else s.routing_decisions id

  -- `writeCheckpoint` of src/kernel/execution.ts
  unfoldable pub write_checkpoint : Checkpoint → WorkOrder → ContextPlan → Action (Unit {0})
  write_checkpoint checkpoint order plan = read (routing_of order.routing_decision_id) >>= λ found.
      or_raise found (invalid_orchestration_state "routing decision missing for checkpoint update")
      >>= λ routing. persist_plan order routing checkpoint plan

-- ===== src/Execution/Steps.antt =====
-- The stored runs as a command finds and leaves them: each filed under its own id, and what happened
-- to it since the start.
use Prim.Native.String.{String}
use uads.Common.{
  false, not, Option, none, some, ◌==◌, string_eq, ◌≡◌, refl, sym, ◌∙◌, inl, inr, Bool-cases,
}
use uads.Kernel.Execution.{ExecutionPacket, ExecutionRun}
use uads.Execution.Store.{World, put, write}
use uads.Execution.Sanitize.{sanitize_run}
use uads.Execution.Persist.{
  persist_execution_packet, persist_execution_run, persist_optional, schema_error, write_run,
}
use uads.Execution.Logic.{
  IsFrame, Runs, Triple, >>=-IsFrame, >>=-Triple, frame-Triple, pure-IsFrame, raise_if-IsFrame,
  raise_if-Triple, write-IsFrame, needs,
}
use uads.Execution.Lifecycle.{CommandKind, Course, Course-then, stage_at, stage_of}
use uads.Execution.Valid.{IsValid, sanitize_run-IsValid}

abbrev pub IsFiled : (String → String) → Runs → Type 0
IsFiled redact rs =
    (id : String) (r : ExecutionRun)
    → rs id ≡ some r
    → IsValid r × (r.execution_run_id ≡ id) × (redact id ≡ id)

-- A command under way: its kind, and the stored runs that it found.
abbrev pub Origin : Type 0
Origin = CommandKind × Runs

abbrev pub Leads : Origin → Runs → Type 0
Leads (kind, found) rs = (id : String) → Course kind (stage_at (found id)) (stage_at (rs id))

module _ (world : World) (start : Origin) where
  abbrev pub IsKept : Runs → Type 0
  IsKept rs = IsFiled world.redact rs × Leads start rs

  -- The run at its id has the stage of `r`.
  abbrev pub IsAt : ExecutionRun → Runs → Type 0
  IsAt r rs =
      IsKept rs
      × (stage_at (rs r.execution_run_id) ≡ stage_of r)
      × (world.redact r.execution_run_id ≡ r.execution_run_id)

  written :
      (r : ExecutionRun) (rs : Runs)
      → IsValid r
      → world.redact r.execution_run_id ≡ r.execution_run_id
      → Course start.0 (stage_at (rs r.execution_run_id)) (stage_of r)
      → IsKept rs
      → IsKept (put (world.redact r.execution_run_id) (sanitize_run world.redact r) rs)
  unfolding sanitize_run
  written r rs valid own path kept = (
    (λ id x e. elim (Bool-cases (world.redact r.execution_run_id == id)) [
      | inl same ↦
          let here : world.redact r.execution_run_id ≡ id =
            (string_eq.beq_iff (world.redact r.execution_run_id) id).0 same in
          let whole : some (sanitize_run world.redact r) ≡ some x = rw same at e in
          let found : sanitize_run world.redact r ≡ x = cc whole in
          let fixed : world.redact id ≡ id = cc (here, own) in
          rw (← found) (sanitize_run-IsValid world r valid, here, fixed)
      | inr other ↦ kept.0 id x (rw other at e)
    ]),
    (λ id. elim (Bool-cases (world.redact r.execution_run_id == id)) [
      | inl same ↦
          let here : world.redact r.execution_run_id ≡ id =
            (string_eq.beq_iff (world.redact r.execution_run_id) id).0 same in
          let mine : r.execution_run_id ≡ id = sym own ∙ here in
          let further : Course start.0 (stage_at (rs id)) (stage_of r) = rw mine at path in
          rw same (Course-then (kept.1 id) further)
      | inr other ↦ rw other (kept.1 id)
    ]),
  )

  written_at :
      (r : ExecutionRun) (rs : Runs)
      → world.redact r.execution_run_id ≡ r.execution_run_id
      → stage_at (
          put (world.redact r.execution_run_id) (sanitize_run world.redact r) rs r.execution_run_id)
        ≡ stage_of r
  unfolding sanitize_run
  written_at r rs own =
      let same = (string_eq.beq_iff (world.redact r.execution_run_id) r.execution_run_id).1 own in
      rw same refl

  pub persist_execution_packet-IsFrame :
      (packet : ExecutionPacket) → IsFrame (persist_execution_packet world packet)
  unfolding persist_execution_packet
  persist_execution_packet-IsFrame packet =
      >>=-IsFrame (>>=-IsFrame (raise_if-IsFrame _ _) (λ a. write-IsFrame _ (λ s. refl)))
        (λ a. pure-IsFrame _)

  persist_optional-IsFrame :
      (packet : Option ExecutionPacket) → IsFrame (persist_optional world packet)
  persist_optional-IsFrame none = pure-IsFrame tt
  persist_optional-IsFrame (some packet) =
      >>=-IsFrame (persist_execution_packet-IsFrame packet) (λ a. pure-IsFrame tt)

  write_next :
      (r next : ExecutionRun)
      → next.execution_run_id ≡ r.execution_run_id
      → IsValid next
      → Course start.0 (stage_of r) (stage_of next)
      → Triple IsKept
          (λ rs. IsAt r rs × (not (world.accepts_run (sanitize_run world.redact next)) ≡ false))
          (write (write_run world (sanitize_run world.redact next)))
          (λ a. IsAt next)
  unfolding sanitize_run
  write_next r next same valid path = record {
    ends = λ s ((kept, at_stage, own), accepted).
        let mine : world.redact next.execution_run_id ≡ next.execution_run_id = rw same own in
        let reached : Course start.0 (stage_at (s.runs next.execution_run_id)) (stage_of next) =
          rw (same, at_stage) path in
        (written next s.runs valid mine reached kept, written_at next s.runs mine, mine);
  }

  -- A command that writes a well-formed run, moved on from the run that is stored, keeps all.
  pub persist_execution_run-Triple :
      (r next : ExecutionRun) (packet : Option ExecutionPacket)
      → next.execution_run_id ≡ r.execution_run_id
      → IsValid next
      → Course start.0 (stage_of r) (stage_of next)
      → Triple IsKept (IsAt r) (persist_execution_run world next packet) (λ a. IsAt next)
  unfolding persist_execution_run
  persist_execution_run-Triple r next packet same valid path =
      >>=-Triple
        (>>=-Triple
          (>>=-Triple
            (needs (λ rs i. i)
              (raise_if-Triple (not (world.accepts_run (sanitize_run world.redact next)))
                (schema_error "execution-run") (λ rs i. i.0)))
            (λ a. write_next r next same valid path))
          (λ a. frame-Triple (λ rs i. i.0) (persist_optional-IsFrame packet)))
        (λ a. frame-Triple (λ rs i. i.0) (write-IsFrame _ (λ s. refl)))

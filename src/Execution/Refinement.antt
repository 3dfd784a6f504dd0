-- ===== src/Execution/Refinement.antt =====
-- The commands of src/kernel/execution.ts, alone and in sequence, against the life of a run.
use Prim.Native.String.{String}
use uads.Common.{map, sym, ◌++◌, All, Bool, List, [], ◌∷◌, ◌≡◌}
use uads.Execution.Store.{Action, Result, Store, World, ◌>>=◌, pure, returned, thrown}
use uads.Execution.Verify.{run_verify}
use uads.Execution.Record.{run_evidence_record}
use uads.Execution.Contract.{EvidenceInput}
use uads.Execution.Assure.{run_assurance_start}
use uads.Execution.Review.{run_assurance_record}
use uads.Execution.Reviewer.{ReviewInput}
use uads.Execution.Finalize.{run_finalize}
use uads.Execution.Expand.{run_context_expand}
use uads.Execution.Lifecycle.{
  CommandKind, Course-Step, Step, Trace, by_evidence, by_expand, by_finalize, by_review, by_start,
  by_verify, done, ended, reviewing, stage_at, stay, stepped,
}
use uads.Execution.Logic.{Ends, Runs, >>=-Triple, pure-Triple}
use uads.Execution.Steps.{IsFiled, IsKept}
use uads.Execution.Kept.{run_verify-Keeps}
use uads.Execution.Held.{Keeps}
use uads.Execution.Moves.{run_assurance_start-Keeps, run_evidence_record-Keeps}
use uads.Execution.Closing.{
  run_assurance_record-Keeps, run_context_expand-Keeps, run_finalize-Keeps,
}

-- The commands of `uads` on an active run, with what their callers pass.
pub data Command : Type 0 where
  verify start_assurance finalize : Command
  record_evidence : EvidenceInput → Command
  record_review : ReviewInput → Command
  expand_context : String → Bool → Command

abbrev pub kind_of : Command → CommandKind
kind_of verify = by_verify
kind_of start_assurance = by_start
kind_of finalize = by_finalize
kind_of (record_evidence input) = by_evidence
kind_of (record_review input) = by_review
kind_of (expand_context reason approve_c5) = by_expand

abbrev pub kinds_of : List (World × Command) → List CommandKind
kinds_of cs = map (λ c. kind_of c.1) cs

abbrev quietly : {A : Type 0} → Action A → Action (Unit {0})
quietly m = m >>= λ a. pure tt

unfoldable pub perform : World → Command → Action (Unit {0})
perform world verify = quietly (run_verify world)
perform world start_assurance = quietly (run_assurance_start world)
perform world finalize = quietly (run_finalize world)
perform world (record_evidence input) = quietly (run_evidence_record world input)
perform world (record_review input) = quietly (run_assurance_record world input)
perform world (expand_context reason approve_c5) =
    quietly (run_context_expand world reason approve_c5)

-- The store after some commands, whether they returned or threw.
unfoldable pub store_after : List (World × Command) → Store → Store
store_after [] s = s
store_after ((world, c) ∷ cs) s = store_after cs (perform world c s).1

module _ (world : World) (start : Runs) where
  quietly-Keeps :
      {A : Type 0} (k : CommandKind) (m : Action A)
      → Keeps world (k, start) m
      → Keeps world (k, start) (quietly m)
  quietly-Keeps k m h = >>=-Triple h (λ a. pure-Triple _ _ (λ rs i. i))

  perform-Keeps : (c : Command) → Keeps world (kind_of c, start) (perform world c)
  unfolding perform
  perform-Keeps verify = quietly-Keeps by_verify _ (run_verify-Keeps world start)
  perform-Keeps start_assurance = quietly-Keeps by_start _ (run_assurance_start-Keeps world start)
  perform-Keeps finalize = quietly-Keeps by_finalize _ (run_finalize-Keeps world start)
  perform-Keeps (record_evidence input) =
      quietly-Keeps by_evidence _ (run_evidence_record-Keeps world start input)
  perform-Keeps (record_review input) =
      quietly-Keeps by_review _ (run_assurance_record-Keeps world start input)
  perform-Keeps (expand_context reason approve_c5) =
      quietly-Keeps by_expand _ (run_context_expand-Keeps world start reason approve_c5)

  kept_end :
      (k : CommandKind) (o : Result (Unit {0}) × Store)
      → Ends (IsKept world (k, start)) (λ a. IsKept world (k, start)) o
      → IsKept world (k, start) o.1.runs
  kept_end k (returned a, s) h = h
  kept_end k (thrown e, s) h = h

-- A command that starts on well-formed runs, each filed under its id, leaves such runs, and moves
-- the run of every id by at most one move, of the command's own kind, whether it returns or throws.
pub perform_refines :
    (world : World) (c : Command) (s : Store)
    → IsFiled world.redact s.runs
    → IsFiled world.redact (perform world c s).1.runs
      × ((id : String)
          → Step (kind_of c) (stage_at (s.runs id)) (stage_at ((perform world c s).1.runs id)))
perform_refines world c s h =
    let (filed, courses) =
      kept_end world s.runs (kind_of c) (perform world c s)
        ((perform-Keeps world s.runs c).ends s (h, (λ id. stay))) in
    (filed, (λ id. Course-Step (courses id)))

IsFiled-same : (f g : String → String) (rs : Runs) → f ≡ g → IsFiled f rs → IsFiled g rs
IsFiled-same f g rs same h = rw (sym same) h

-- Every sequence of commands, each with a time, a change set and answers of the modules beside it of
-- its own, and wherever some of them throw, leaves the stored runs well-formed and filed under their
-- ids where it finds them so. And each command, in its turn, moves the run of every id by at most
-- one move that the life of a run allows to that command: only verify to `verifying`, from an open
-- stage; only start to `reviewing`, from `verifying`; only finalize to `done`, from `reviewing`.
pub store_after_refines :
    (redact : String → String) (cs : List (World × Command)) (s : Store)
    → All (λ c. c.0.redact ≡ redact) cs
    → IsFiled redact s.runs
    → IsFiled redact (store_after cs s).runs
      × ((id : String)
          → Trace (kinds_of cs) (stage_at (s.runs id)) (stage_at ((store_after cs s).runs id)))
unfolding store_after
store_after_refines redact [] s same h = (h, (λ id. ended))
store_after_refines redact ((world, c) ∷ cs) s same h =
    let (here, step) =
      perform_refines world c s (IsFiled-same redact world.redact s.runs (sym same.0) h) in
    let (there, further) =
      store_after_refines redact cs (perform world c s).1 same.1
        (IsFiled-same world.redact redact (perform world c s).1.runs same.0 here) in
    (there, (λ id. stepped (step id) (further id)))

-- A finalize among the commands found the run of `id` under review, and left it done.
abbrev pub IsFinalizing : String → List (World × Command) → Store → Type 0
IsFinalizing id cs s =
    (before : List (World × Command)) × (world : World) × (later : List (World × Command)) × (cs
      ≡ before ++ ((world, finalize) ∷ later))
    × (stage_at ((store_after before s).runs id) ≡ reviewing)
    × (stage_at ((perform world finalize (store_after before s)).1.runs id) ≡ done)

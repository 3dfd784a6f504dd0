-- ===== src/Execution/Lifecycle.antt =====
-- The life of a run as the commands promise it: six stages and the moves between them.
use uads.Common.{List, [], ◌∷◌, Bool, true, false, Option, none, some, ◌≡◌, ◌⊎◌, inl, inr, refl}
use uads.Kernel.Execution.{ExecutionPhase, ExecutionRun, ExecutionStatus}

pub data Stage : Type 0 where
  absent implementing verifying reviewing halted done : Stage

-- The stages of a run that is at work.
pub data IsOpen : Stage → Type 0 where
  open_implementing : IsOpen implementing
  open_verifying : IsOpen verifying
  open_reviewing : IsOpen reviewing

-- The six commands on a run.
pub data CommandKind : Type 0 where
  by_verify by_evidence by_start by_review by_finalize by_expand : CommandKind

-- What each command may do to the stage of a run: verify finds the change of an open run in scope or
-- not, start begins the review of what is verified, a review corrects or blocks, and finalize
-- completes what is under review. Evidence and a wider context move nothing.
pub data Move : CommandKind → Stage → Stage → Type 0 where
  verified : {a : Stage} → IsOpen a → Move by_verify a verifying
  violated : {a : Stage} → IsOpen a → Move by_verify a halted
  review_started : Move by_start verifying reviewing
  review_corrected : Move by_review reviewing implementing
  review_refused : Move by_review reviewing halted
  finished : Move by_finalize reviewing done

-- The writes of one command in a row.
pub data Course : CommandKind → Stage → Stage → Type 0 where
  stay : {k : CommandKind} {a : Stage} → Course k a a
  move : {k : CommandKind} {a b c : Stage} → Move k a b → Course k b c → Course k a c

pub Course-then : {k : CommandKind} {a b c : Stage} → Course k a b → Course k b c → Course k a c
Course-then stay q = q
Course-then (move m p) q = move m (Course-then p q)

-- One command: at most one move of its kind.
pub data Step : CommandKind → Stage → Stage → Type 0 where
  unmoved : {k : CommandKind} {a : Stage} → Step k a a
  moved : {k : CommandKind} {a b : Stage} → Move k a b → Step k a b

-- Commands in a row, one step each.
pub data Trace : List CommandKind → Stage → Stage → Type 0 where
  ended : {a : Stage} → Trace [] a a
  stepped :
      {k : CommandKind} {ks : List CommandKind} {a b c : Stage}
      → Step k a b
      → Trace ks b c
      → Trace (k ∷ ks) a c

abbrev pub stage_of_phase : ExecutionPhase → ExecutionStatus → Stage
stage_of_phase ExecutionPhase.implement s = implementing
stage_of_phase ExecutionPhase.verify s = verifying
stage_of_phase ExecutionPhase.review s = reviewing
stage_of_phase ExecutionPhase.stopped ExecutionStatus.ready = halted
stage_of_phase ExecutionPhase.stopped ExecutionStatus.in_progress = halted
stage_of_phase ExecutionPhase.stopped ExecutionStatus.correction_needed = halted
stage_of_phase ExecutionPhase.stopped ExecutionStatus.blocked = halted
stage_of_phase ExecutionPhase.stopped ExecutionStatus.completed = done
stage_of_phase ExecutionPhase.stopped ExecutionStatus.failed = halted

abbrev pub stage_of : ExecutionRun → Stage
stage_of run = stage_of_phase run.phase run.status

abbrev pub stage_at : Option ExecutionRun → Stage
stage_at none = absent
stage_at (some run) = stage_of run

abbrev pub is_live : Stage → Bool
is_live absent = false
is_live implementing = true
is_live verifying = true
is_live reviewing = true
is_live halted = false
is_live done = false

pub open_live : {a : Stage} → IsOpen a → is_live a ≡ true
open_live open_implementing = refl
open_live open_verifying = refl
open_live open_reviewing = refl

move_live : {k : CommandKind} {a b : Stage} → Move k a b → is_live a ≡ true
move_live (verified o) = open_live o
move_live (violated o) = open_live o
move_live review_started = refl
move_live review_corrected = refl
move_live review_refused = refl
move_live finished = refl

start_source : {a b : Stage} → Move by_start a b → a ≡ verifying
start_source review_started = refl

review_source : {a b : Stage} → Move by_review a b → a ≡ reviewing
review_source review_corrected = refl
review_source review_refused = refl

-- No command moves a run twice to more than it moves it once.
again : {k : CommandKind} {a b c : Stage} → Move k a b → Move k b c → Move k a c
again (verified o) (verified q) = verified o
again (verified o) (violated q) = violated o
again (violated o) m = cc (move_live m)
again review_started m = cc (start_source m)
again review_corrected m = cc (review_source m)
again review_refused m = cc (move_live m)
again finished m = cc (move_live m)

after_move : {k : CommandKind} {a b c : Stage} → Move k a b → Step k b c → Step k a c
after_move m unmoved = moved m
after_move m (moved n) = moved (again m n)

pub Course-Step : {k : CommandKind} {a b : Stage} → Course k a b → Step k a b
Course-Step stay = unmoved
Course-Step (move m p) = after_move m (Course-Step p)

-- What is done or halted stays so.
pub Step-closed : {k : CommandKind} {a b : Stage} → Step k a b → is_live a ≡ false → a ≡ b
Step-closed unmoved e = refl
Step-closed (moved m) e = cc (move_live m, e)

move_done :
    {k : CommandKind} {a b : Stage} → Move k a b → b ≡ done → (k ≡ by_finalize) × (a ≡ reviewing)
move_done (verified o) e = cc e
move_done (violated o) e = cc e
move_done review_started e = cc e
move_done review_corrected e = cc e
move_done review_refused e = cc e
move_done finished e = (refl, refl)

-- What gets done was done before, or finalize found it under review.
pub Step-done :
    {k : CommandKind} {a b : Stage}
    → Step k a b
    → b ≡ done
    → (a ≡ done) ⊎ ((k ≡ by_finalize) × (a ≡ reviewing))
Step-done unmoved e = inl e
Step-done (moved m) e = inr (move_done m e)

-- ===== src/Execution/Logic.antt =====
-- A small program logic for commands: what an action that starts where `p` holds of the stored runs
-- leaves behind, whether it returns or throws.
use uads.Common.{Bool, true, false, Option, none, some, ◌≡◌, refl, ◌∙◌, if◌then◌else◌}
use uads.Kernel.Execution.{ExecutionRun}
use uads.Execution.Store.{
  Action, ExecutionError, Files, Result, Store, ◌>>=◌, after, or_raise, pure, raise, raise_if, read,
  returned, thrown, when, write,
}

abbrev pub Runs : Type 0
Runs = Files ExecutionRun

-- An action that leaves the runs alone.
pub record IsFrame {A : Type 0} (m : Action A) : Type 0 where
  pub same_runs : (s : Store) → (m s).1.runs ≡ s.runs

module _ {A : Type 0} where
  pub pure-IsFrame : (a : A) → IsFrame (pure a)
  pure-IsFrame a = record { same_runs = λ s. refl }

  pub raise-IsFrame : (e : ExecutionError) → IsFrame (raise {A = A} e)
  raise-IsFrame e = record { same_runs = λ s. refl }

  pub read-IsFrame : (f : Store → A) → IsFrame (read f)
  read-IsFrame f = record { same_runs = λ s. refl }

  pub or_raise-IsFrame : (o : Option A) (e : ExecutionError) → IsFrame (or_raise o e)
  or_raise-IsFrame none e = record { same_runs = λ s. refl }
  or_raise-IsFrame (some a) e = record { same_runs = λ s. refl }

pub raise_if-IsFrame : (c : Bool) (e : ExecutionError) → IsFrame (raise_if c e)
raise_if-IsFrame true e = record { same_runs = λ s. refl }
raise_if-IsFrame false e = record { same_runs = λ s. refl }

pub when-IsFrame : (c : Bool) (m : Action (Unit {0})) → IsFrame m → IsFrame (when c m)
when-IsFrame true m h = h
when-IsFrame false m h = record { same_runs = λ s. refl }

pub write-IsFrame : (f : Store → Store) → ((s : Store) → (f s).runs ≡ s.runs) → IsFrame (write f)
write-IsFrame f h = record { same_runs = h }

module _ {A B : Type 0} where
  after_runs :
      (f : A → Action B) (rs : Runs) (o : Result A × Store)
      → ((a : A) → IsFrame (f a))
      → o.1.runs ≡ rs
      → (after f o).1.runs ≡ rs
  after_runs f rs (returned a, s) h e = (h a).same_runs s ∙ e
  after_runs f rs (thrown x, s) h e = e

  pub >>=-IsFrame :
      {m : Action A} {f : A → Action B} → IsFrame m → ((a : A) → IsFrame (f a)) → IsFrame (m >>= f)
  unfolding ◌>>=◌
  >>=-IsFrame {m} {f} h k = record { same_runs = λ s. after_runs f s.runs (m s) k (h.same_runs s) }

module _ (E : Runs → Type 0) where
  abbrev pub Ends : {A : Type 0} → (A → Runs → Type 0) → Result A × Store → Type 0
  Ends Q (returned a, s) = Q a s.runs
  Ends Q (thrown e, s) = E s.runs

  -- From `p` the action returns into `Q` or throws into `E`.
  pub record Triple {A : Type 0} (p : Runs → Type 0) (m : Action A) (Q : A → Runs → Type 0)
      : Type 0 where
    pub ends : (s : Store) → p s.runs → Ends Q (m s)

never :
    (E : Runs → Type 0) (Q : Unit {0} → Runs → Type 0) (o : Result (Unit {0}) × Store)
    → Ends E (λ a rs. ⊥) o
    → Ends E Q o
never E Q (returned a, s) h = absurd h
never E Q (thrown e, s) h = h

module _ {E : Runs → Type 0} where
  module _ {A B : Type 0} where
    after-Ends :
        (f : A → Action B) (R : A → Runs → Type 0) (Q : B → Runs → Type 0) (o : Result A × Store)
        → Ends E R o
        → ((a : A) → Triple E (R a) (f a) Q)
        → Ends E Q (after f o)
    after-Ends f R Q (returned a, s) h k = (k a).ends s h
    after-Ends f R Q (thrown e, s) h k = h

    pub >>=-Triple :
        {p : Runs → Type 0} {m : Action A} {f : A → Action B} {R : A → Runs → Type 0}
        {Q : B → Runs → Type 0}
        → Triple E p m R
        → ((a : A) → Triple E (R a) (f a) Q)
        → Triple E p (m >>= f) Q
    unfolding ◌>>=◌
    >>=-Triple {p} {m} {f} {R} {Q} h k = record {
      ends = λ s i. after-Ends f R Q (m s) (h.ends s i) k;
    }

  module _ {A : Type 0} where
    frame_end :
        (p : Runs → Type 0) (rs : Runs) (o : Result A × Store)
        → ((rs : Runs) → p rs → E rs)
        → p rs
        → o.1.runs ≡ rs
        → Ends E (λ a. p) o
    frame_end p rs (returned a, s) w i e = rw e i
    frame_end p rs (thrown x, s) w i e = w s.runs (rw e i)

    -- An action that leaves the runs alone keeps what holds of them.
    pub frame-Triple :
        {p : Runs → Type 0} {m : Action A}
        → ((rs : Runs) → p rs → E rs)
        → IsFrame m
        → Triple E p m (λ a. p)
    frame-Triple {p} {m} w h = record { ends = λ s i. frame_end p s.runs (m s) w i (h.same_runs s) }

    pub pure-Triple :
        {p : Runs → Type 0} (Q : A → Runs → Type 0) (a : A)
        → ((rs : Runs) → p rs → Q a rs)
        → Triple E p (pure a) Q
    pure-Triple Q a w = record { ends = λ s i. w s.runs i }

    pub raise-Triple :
        {p : Runs → Type 0} (e : ExecutionError)
        → ((rs : Runs) → p rs → E rs)
        → Triple E p (raise {A = A} e) (λ a rs. ⊥)
    raise-Triple e w = record { ends = λ s i. w s.runs i }

    -- What is there adds that it was found.
    pub or_raise-Triple :
        {p : Runs → Type 0} (o : Option A) (e : ExecutionError)
        → ((rs : Runs) → p rs → E rs)
        → Triple E p (or_raise o e) (λ a rs. p rs × (o ≡ some a))
    or_raise-Triple none e w = record { ends = λ s i. w s.runs i }
    or_raise-Triple (some a) e w = record { ends = λ s i. (i, refl) }

    -- What is read of the runs is known of them.
    pub read-Triple :
        {p : Runs → Type 0} (f : Store → A) (Q : A → Runs → Type 0)
        → ((s : Store) → p s.runs → Q (f s) s.runs)
        → Triple E p (read f) Q
    read-Triple f Q h = record { ends = h }

    -- What an action needs may be less than what is known.
    pub needs :
        {p q : Runs → Type 0} {m : Action A} {Q : A → Runs → Type 0}
        → ((rs : Runs) → p rs → q rs)
        → Triple E q m Q
        → Triple E p m Q
    needs w h = record { ends = λ s i. h.ends s (w s.runs i) }

  -- A guard that lets through adds that its condition is false.
  pub raise_if-Triple :
      {p : Runs → Type 0} (c : Bool) (e : ExecutionError)
      → ((rs : Runs) → p rs → E rs)
      → Triple E p (raise_if c e) (λ a rs. p rs × (c ≡ false))
  raise_if-Triple true e w = record { ends = λ s i. w s.runs i }
  raise_if-Triple false e w = record { ends = λ s i. (i, refl) }

  -- A branch that never returns lets through only where its condition is false.
  pub when-Triple :
      {p : Runs → Type 0} (c : Bool) {m : Action (Unit {0})}
      → (c ≡ true → Triple E p m (λ a rs. ⊥))
      → Triple E p (when c m) (λ a rs. p rs × (c ≡ false))
  when-Triple {p} true {m} h = record {
    ends = λ s i. never E (λ a rs. p rs × (true ≡ false)) (m s) ((h refl).ends s i);
  }
  when-Triple false h = record { ends = λ s i. (i, refl) }

  -- A branch that may be passed over.
  pub when_either :
      {p q : Runs → Type 0} (c : Bool) {m : Action (Unit {0})}
      → ((rs : Runs) → p rs → q rs)
      → Triple E p m (λ a. q)
      → Triple E p (when c m) (λ a. q)
  when_either true w h = h
  when_either false w h = record { ends = λ s i. w s.runs i }

  pub if-Triple :
      {A : Type 0} {p : Runs → Type 0} {Q : A → Runs → Type 0} (c : Bool) {m k : Action A}
      → (c ≡ true → Triple E p m Q)
      → (c ≡ false → Triple E p k Q)
      → Triple E p (if c then m else k) Q
  if-Triple true h l = h refl
  if-Triple false h l = l refl

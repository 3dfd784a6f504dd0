-- ===== src/Execution/Reading.antt =====
-- Loading the active run, and what it does to the files.
use uads.Common.{Bool, true, false, Option, none, some, ◌≡◌, refl, ◌∙◌}
use uads.Kernel.Types.{Checkpoint, ContextPlan, RoutingDecision, WorkOrder}
use uads.Kernel.Execution.{ExecutionPacket, ExecutionRun}
use uads.Execution.Store.{
  Action, ExecutionError, Result, Store, World, ◌>>=◌, after, or_raise, pure, raise_if, read,
  returned, thrown,
}
use uads.Execution.Run.{
  assert_active_execution_consistency, load_active, load_artifacts, with_packet,
}

pub record IsReader {A : Type 0} (m : Action A) : Type 0 where
  pub same_store : (s : Store) → (m s).1 ≡ s

raise_if-IsReader : (c : Bool) (e : ExecutionError) → IsReader (raise_if c e)
raise_if-IsReader true e = record { same_store = λ s. refl }
raise_if-IsReader false e = record { same_store = λ s. refl }

module _ {A : Type 0} where
  or_raise-IsReader : (o : Option A) (e : ExecutionError) → IsReader (or_raise o e)
  or_raise-IsReader none e = record { same_store = λ s. refl }
  or_raise-IsReader (some a) e = record { same_store = λ s. refl }

  read-IsReader : (f : Store → A) → IsReader (read f)
  read-IsReader f = record { same_store = λ s. refl }

  pure-IsReader : (a : A) → IsReader (pure a)
  pure-IsReader a = record { same_store = λ s. refl }

module _ {A B : Type 0} where
  after_reader :
      (f : A → Action B) (o : Result A × Store) (s : Store)
      → o.1 ≡ s
      → ((a : A) → IsReader (f a))
      → (after f o).1 ≡ s
  after_reader f (returned a, t) s e k = (k a).same_store t ∙ e
  after_reader f (thrown x, t) s e k = e

  >>=-IsReader :
      {m : Action A} {f : A → Action B}
      → IsReader m
      → ((a : A) → IsReader (f a))
      → IsReader (m >>= f)
  unfolding ◌>>=◌
  >>=-IsReader {m} {f} h k = record { same_store = λ s. after_reader f (m s) s (h.same_store s) k }

module _ (world : World) where
  consistency-IsReader :
      (c : Checkpoint) (order : WorkOrder) (routing : RoutingDecision) (run : ExecutionRun)
      (packet : ExecutionPacket)
      → IsReader (assert_active_execution_consistency world c order routing run packet)
  unfolding assert_active_execution_consistency
  consistency-IsReader c order routing run packet =
      >>=-IsReader
        (>>=-IsReader (>>=-IsReader (raise_if-IsReader _ _) (λ a. raise_if-IsReader _ _))
          (λ a. raise_if-IsReader _ _))
        (λ a. raise_if-IsReader _ _)

  with_packet-IsReader :
      (run : ExecutionRun) (c : Checkpoint) (order : WorkOrder) (plan : ContextPlan)
      (routing : RoutingDecision)
      → IsReader (with_packet world run c order plan routing)
  unfolding with_packet
  with_packet-IsReader run c order plan routing = >>=-IsReader (read-IsReader _) (λ found.
      >>=-IsReader (or_raise-IsReader _ _) (λ packet.
        >>=-IsReader (consistency-IsReader c order routing run packet) (λ a. pure-IsReader _)))

  load_artifacts-IsReader :
      (run : ExecutionRun) (found : Option Checkpoint) → IsReader (load_artifacts world run found)
  unfolding load_artifacts
  load_artifacts-IsReader run found = >>=-IsReader (or_raise-IsReader _ _) (λ c.
      >>=-IsReader (read-IsReader _) (λ order_found. >>=-IsReader (read-IsReader _) (λ plan_found.
        >>=-IsReader (read-IsReader _) (λ routing_found.
          >>=-IsReader (or_raise-IsReader _ _) (λ order.
            >>=-IsReader (or_raise-IsReader _ _) (λ plan.
              >>=-IsReader (or_raise-IsReader _ _)
                (λ routing. with_packet-IsReader run c order plan routing)))))))

  pub load_active-IsReader : IsReader (load_active world)
  unfolding load_active
  load_active-IsReader = >>=-IsReader (read-IsReader _) (λ found.
      >>=-IsReader (read-IsReader _) (λ present.
        >>=-IsReader (raise_if-IsReader _ _)
          (λ a. >>=-IsReader (or_raise-IsReader _ _) (λ run. load_artifacts-IsReader run found))))

-- ===== src/Runtime/Settle/Settled.antt =====
-- src/internal/runtime.ts: `settleObserved` as a whole, for a running Operation.
use pions.Prelude.{ℕ, String}
use pions.Platform.{Platform}
use pions.Operation.{Operation}
use pions.Store.Backend.{Storage, StorageLaws}
use pions.Runtime.{World}
use pions.Runtime.Steps.{Ends, IsStored, IsReliable}

module _ (p : Platform) {S : Type 0} (b : Storage S) (laws : StorageLaws b) (clock : ℕ → String)
    (operation_id : String) (r : IsReliable p b clock operation_id) where
  abbrev Stored : Operation → World S → Type 0
  Stored = IsStored p b clock operation_id

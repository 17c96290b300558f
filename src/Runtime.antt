-- ===== src/Runtime.antt =====
-- src/internal/runtime.ts: how the runtime drives an Operation through the store. A step takes the
-- world and returns an outcome beside the new world; an `Effect` that fails, and a rejected promise,
-- is an `err`. `project` writes nothing, and its failure is ignored, so it is left out.
pub mod Steps
pub mod Cleanup
pub mod Settle
pub mod Cancel
pub mod Handoff
pub mod Confirmation
use pions.Prelude.{
  ℕ, ◌+◌, String, Bool, true, false, ◌&&◌, ◌||◌, not, Option, none, some, List, ◌∷◌, ◌==◌, str_eq,
  is_some, if◌then◌else◌,
}
use pions.Except.{Except, ok, err, map_err}
use pions.Platform.{Platform}
use pions.Types.Evidence.{OperationFailureReason, AgentRunEvidence, UnknownReason}
use pions.Operation.{Operation, EventInput}
use pions.Codec.{StoreErrorCode}
use pions.Store.Backend.{Storage}
use pions.Store.{OperationSnapshot, read}
use pions.Store
use pions.OperationReader.{ReadError, persistence, persistence_error}

-- What the runtime asks of the presentation about an owned workspace.
pub data PresentationCall : Type 0 where
  inspect_owned_workspace close_owned_workspace : PresentationCall

-- The stored records, how often the clock has been asked, and the calls of the presentation so far,
-- the last one first.
pub record World (S : Type 0) : Type 0 where
  pub storage : S
  pub ticks : ℕ
  pub calls : List PresentationCall

abbrev pub Run : Type 0 → Type 0 → Type 0
Run S A = World S → Except ReadError A × World S

module _ {S : Type 0} where
  abbrev pub return : {A : Type 0} → A → Run S A
  return a w = (ok a, w)

  abbrev pub throw : {A : Type 0} → ReadError → Run S A
  throw e w = (err e, w)

  infixl 5 ◌>>=◌ ◌>>◌
  abbrev pub ◌>>=◌ : {A B : Type 0} → Run S A → (A → Run S B) → Run S B
  ◌>>=◌ m f w = elim (m w).0 [ ok a ↦ f a (m w).1 | err e ↦ (err e, (m w).1) ]

  abbrev pub ◌>>◌ : {A B : Type 0} → Run S A → Run S B → Run S B
  m >> k = m >>= λ _. k

  abbrev pub tried :
      {A B : Type 0} → Except ReadError A → (A → Run S B) → (ReadError → Run S B) → Run S B
  tried (ok a) f handle = f a
  tried (err e) f handle = handle e

  -- `try { const a = await m; … } catch (error) { … }`, where only `m` is tried
  abbrev pub attempt : {A B : Type 0} → Run S A → (A → Run S B) → (ReadError → Run S B) → Run S B
  attempt m f handle w = tried (m w).0 f handle (m w).1

  abbrev pub call : PresentationCall → Run S (Unit {0})
  call x w = (ok tt, record w { calls = x ∷ w.calls })

  -- `if (test) await step;`
  abbrev pub when : {A : Type 0} → Bool → Run S A → Run S (Unit {0})
  when true step = step >>= λ _. return tt
  when false step = return tt

-- The outcome of `store.read` and `store.advance` as the runtime sees it.
abbrev pub operation_or : Except StoreErrorCode OperationSnapshot → Except ReadError Operation
operation_or (ok snapshot) = ok snapshot.operation
operation_or (err code) = err (persistence (persistence_error code))

-- The clock's answers are given in the order in which it is asked.
module _ (p : Platform) {S : Type 0} (b : Storage S) (clock : ℕ → String)
    (operation_id : String) where
  unfoldable pub get_operation : Run S Operation
  get_operation w = (operation_or (read p b w.storage operation_id), w)

  unfoldable pub advance : EventInput → Run S Operation
  advance intent w =
      let (outcome, s') = Store.advance p b w.storage operation_id intent (clock w.ticks) in
      (operation_or outcome, record w { storage = s'; ticks = w.ticks + 1 })

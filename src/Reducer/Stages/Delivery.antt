-- ===== src/Reducer/Stages/Delivery.antt =====
-- The stages through the cases of `reduceOperation` for the start delivery.
use pions.Prelude.{arith, ℕ, String}
use pions.Types.Evidence.{StartInstructionReference}
use pions.Operation.{EventMetadata, Operation, GenerationConfirmation}
use pions.Platform.{Platform}
use pions.Reducer.Guards.{presentation_cleanup_eligible, valid_start_instruction_reference}
use pions.Reducer.Delivery.{
  on_authority_acquired, on_authority_revoked, on_generation_confirmed, on_delivery_entered,
  on_instruction_dispatched, on_instruction_accepted, on_instruction_acknowledged,
}
use pions.Reducer.Stages.Defs.{IsStaged, Ensures}

pub on_authority_acquired-IsStaged :
    (p : Platform) {o : Operation} (m : EventMetadata) (x : StartInstructionReference)
    → IsStaged o
    → Ensures IsStaged (on_authority_acquired p o m x)
unfolding on_authority_acquired valid_start_instruction_reference presentation_cleanup_eligible
on_authority_acquired-IsStaged p m x v next h = ground arith

pub on_authority_revoked-IsStaged :
    {o : Operation} (m : EventMetadata) (x : String) (n : ℕ)
    → IsStaged o
    → Ensures IsStaged (on_authority_revoked o m x n)
unfolding on_authority_revoked presentation_cleanup_eligible
on_authority_revoked-IsStaged m x n v next h = ground arith

pub on_generation_confirmed-IsStaged :
    (p : Platform) {o : Operation} (m : EventMetadata) (x : GenerationConfirmation)
    → IsStaged o
    → Ensures IsStaged (on_generation_confirmed p o m x)
unfolding on_generation_confirmed presentation_cleanup_eligible
on_generation_confirmed-IsStaged p m x v next h = ground arith

pub on_delivery_entered-IsStaged :
    {o : Operation} (m : EventMetadata) (x : StartInstructionReference)
    → IsStaged o
    → Ensures IsStaged (on_delivery_entered o m x)
unfolding on_delivery_entered presentation_cleanup_eligible
on_delivery_entered-IsStaged m x v next h = ground arith

pub on_instruction_dispatched-IsStaged :
    {o : Operation} (m : EventMetadata) (x : StartInstructionReference)
    → IsStaged o
    → Ensures IsStaged (on_instruction_dispatched o m x)
unfolding on_instruction_dispatched presentation_cleanup_eligible
on_instruction_dispatched-IsStaged m x v next h = ground arith

pub on_instruction_accepted-IsStaged :
    {o : Operation} (m : EventMetadata) (x : StartInstructionReference) (proof : String)
    → IsStaged o
    → Ensures IsStaged (on_instruction_accepted o m x proof)
unfolding on_instruction_accepted presentation_cleanup_eligible
on_instruction_accepted-IsStaged m x proof v next h = ground arith

pub on_instruction_acknowledged-IsStaged :
    {o : Operation} (m : EventMetadata) (x : StartInstructionReference) (proof : String)
    → IsStaged o
    → Ensures IsStaged (on_instruction_acknowledged o m x proof)
unfolding on_instruction_acknowledged presentation_cleanup_eligible
on_instruction_acknowledged-IsStaged m x proof v next h = ground arith

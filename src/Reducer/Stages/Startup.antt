-- ===== src/Reducer/Stages/Startup.antt =====
-- The stages through the cases of `reduceOperation` for the presentation and the Worker.
use pions.Prelude.{arith}
use pions.Types.Configuration.{ObservedWorkerConfig}
use pions.Types.Evidence.{WorkerIdentity}
use pions.Operation.{EventMetadata, Operation, PresentationOwnership}
use pions.Reducer.Guards.{presentation_cleanup_eligible}
use pions.Reducer.Startup.{
  on_presentation_owned, on_operation_starting, on_worker_launched, on_worker_identified,
}
use pions.Reducer.Stages.Defs.{IsStaged, Ensures}

pub on_presentation_owned-IsStaged :
    {o : Operation} (m : EventMetadata) (x : PresentationOwnership)
    → IsStaged o
    → Ensures IsStaged (on_presentation_owned o m x)
unfolding on_presentation_owned presentation_cleanup_eligible
on_presentation_owned-IsStaged m x v next h = ground arith

pub on_operation_starting-IsStaged :
    {o : Operation} (m : EventMetadata) → IsStaged o → Ensures IsStaged (on_operation_starting o m)
unfolding on_operation_starting presentation_cleanup_eligible
on_operation_starting-IsStaged m v next h = ground arith

pub on_worker_launched-IsStaged :
    {o : Operation} (m : EventMetadata) → IsStaged o → Ensures IsStaged (on_worker_launched o m)
unfolding on_worker_launched presentation_cleanup_eligible
on_worker_launched-IsStaged m v next h = ground arith

pub on_worker_identified-IsStaged :
    {o : Operation} (m : EventMetadata) (x : WorkerIdentity) (config : ObservedWorkerConfig)
    → IsStaged o
    → Ensures IsStaged (on_worker_identified o m x config)
unfolding on_worker_identified presentation_cleanup_eligible
on_worker_identified-IsStaged m x config v next h = ground arith

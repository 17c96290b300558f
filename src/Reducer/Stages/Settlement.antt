-- ===== src/Reducer/Stages/Settlement.antt =====
-- The stages through the cases of `reduceOperation` for a Result, a stopped Worker, and the end of
-- an Operation.
use pions.Prelude.{arith, ℕ, String, Option}
use pions.Types.Evidence.{
  AcceptedResult, AgentRunEvidence, OperationFailureReason, UnknownReason, cancel_unproven,
}
use pions.Operation.{EventMetadata, Operation}
use pions.Platform.{Platform}
use pions.Reducer.Guards.{presentation_cleanup_eligible}
use pions.Reducer.Settlement.{
  on_result_accepted, on_worker_stop_confirmed, on_agent_settled, on_operation_completed,
  on_operation_failed, on_cancellation_requested, on_cancel_dispatched, on_cancel_acknowledged,
  on_operation_cancelled, on_operation_unknown,
}
use pions.Reducer.Stages.Defs.{IsStaged, Ensures}

pub on_result_accepted-IsStaged :
    (p : Platform) {o : Operation} (m : EventMetadata) (x : AcceptedResult)
    → IsStaged o
    → Ensures IsStaged (on_result_accepted p o m x)
unfolding on_result_accepted presentation_cleanup_eligible
on_result_accepted-IsStaged p m x v next h = ground arith

pub on_worker_stop_confirmed-IsStaged :
    {o : Operation} (m : EventMetadata) (proof : String)
    → IsStaged o
    → Ensures IsStaged (on_worker_stop_confirmed o m proof)
unfolding on_worker_stop_confirmed presentation_cleanup_eligible
on_worker_stop_confirmed-IsStaged m proof v next h = ground arith

pub on_agent_settled-IsStaged :
    {o : Operation} (m : EventMetadata) (x : AgentRunEvidence)
    → IsStaged o
    → Ensures IsStaged (on_agent_settled o m x)
unfolding on_agent_settled presentation_cleanup_eligible
on_agent_settled-IsStaged m x v next h = ground arith

pub on_operation_completed-IsStaged :
    {o : Operation} (m : EventMetadata) → IsStaged o → Ensures IsStaged (on_operation_completed o m)
unfolding on_operation_completed presentation_cleanup_eligible
on_operation_completed-IsStaged m v next h = ground arith

pub on_operation_failed-IsStaged :
    {o : Operation} (m : EventMetadata) (reason : OperationFailureReason)
    → IsStaged o
    → Ensures IsStaged (on_operation_failed o m reason)
unfolding on_operation_failed presentation_cleanup_eligible
on_operation_failed-IsStaged m reason v next h = ground arith

pub on_cancellation_requested-IsStaged :
    {o : Operation} (m : EventMetadata) (epoch : ℕ)
    → IsStaged o
    → Ensures IsStaged (on_cancellation_requested o m epoch)
unfolding on_cancellation_requested presentation_cleanup_eligible
on_cancellation_requested-IsStaged m epoch v next h = ground arith

pub on_cancel_dispatched-IsStaged :
    {o : Operation} (m : EventMetadata) (epoch : ℕ)
    → IsStaged o
    → Ensures IsStaged (on_cancel_dispatched o m epoch)
unfolding on_cancel_dispatched presentation_cleanup_eligible
on_cancel_dispatched-IsStaged m epoch v next h = ground arith

pub on_cancel_acknowledged-IsStaged :
    {o : Operation} (m : EventMetadata) (epoch : ℕ) (proof : String)
    → IsStaged o
    → Ensures IsStaged (on_cancel_acknowledged o m epoch proof)
unfolding on_cancel_acknowledged presentation_cleanup_eligible
on_cancel_acknowledged-IsStaged m epoch proof v next h = ground arith

pub on_operation_cancelled-IsStaged :
    {o : Operation} (m : EventMetadata) (epoch : ℕ)
    → IsStaged o
    → Ensures IsStaged (on_operation_cancelled o m epoch)
unfolding on_operation_cancelled presentation_cleanup_eligible
on_operation_cancelled-IsStaged m epoch v next h = ground arith

pub on_operation_unknown-IsStaged :
    {o : Operation} (m : EventMetadata) (reason : UnknownReason) (epoch : Option ℕ)
    → IsStaged o
    → Ensures IsStaged (on_operation_unknown o m reason epoch)
unfolding on_operation_unknown presentation_cleanup_eligible
on_operation_unknown-IsStaged m cancel_unproven epoch v next h = ground arith
on_operation_unknown-IsStaged m _ epoch v next h = ground arith

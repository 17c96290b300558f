-- ===== src/Reducer/Stages/Cleanup.antt =====
-- The stages through the cases of `reduceOperation` for the presentation cleanup.
use pions.Prelude.{arith, String}
use pions.Types.Evidence.{CleanupDiagnosticCode}
use pions.Operation.{EventMetadata, Operation}
use pions.Reducer.Guards.{presentation_cleanup_eligible}
use pions.Reducer.Cleanup.{on_cleanup_started, on_cleanup_completed, on_cleanup_unconfirmed}
use pions.Reducer.Stages.Defs.{IsStaged, Ensures}

pub on_cleanup_started-IsStaged :
    {o : Operation} (m : EventMetadata) (x y : String)
    → IsStaged o
    → Ensures IsStaged (on_cleanup_started o m x y)
unfolding on_cleanup_started presentation_cleanup_eligible
on_cleanup_started-IsStaged m x y v next h = ground arith

pub on_cleanup_completed-IsStaged :
    {o : Operation} (m : EventMetadata) (x y : String)
    → IsStaged o
    → Ensures IsStaged (on_cleanup_completed o m x y)
unfolding on_cleanup_completed presentation_cleanup_eligible
on_cleanup_completed-IsStaged m x y v next h = ground arith

pub on_cleanup_unconfirmed-IsStaged :
    {o : Operation} (m : EventMetadata) (x y : String) (reason : CleanupDiagnosticCode)
    → IsStaged o
    → Ensures IsStaged (on_cleanup_unconfirmed o m x y reason)
unfolding on_cleanup_unconfirmed presentation_cleanup_eligible
on_cleanup_unconfirmed-IsStaged m x y reason v next h = ground arith

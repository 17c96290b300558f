-- ===== src/Reducer/Extends.antt =====
-- src/internal/event-store/reducer.ts: the parts of an Operation that an accepted event leaves as they
-- were. The evidence of the start delivery, the handoffs and the cleanup are not among them: a later
-- event may replace them.
use pions.Prelude.{◌≤◌, ◌≡◌, true, ◌&&◌, not, false, arith, is_some}
use pions.Except.{ok}
use pions.Platform.{Platform}
use pions.Operation.{Operation, EventMetadata, EventInput, operation_requested}
use pions.Reducer.Guards.{is_terminal}
use pions.Reducer.{is_cleanup_event, dispatch}

-- `next` has what `o` had of the parts that are recorded once.
pub record Extends (o next : Operation) : Type 0 where
  pub operation_id : next.operation_id ≡ o.operation_id
  pub task : next.task ≡ o.task
  pub requested_config : next.requested_config ≡ o.requested_config
  pub effective_config : next.effective_config ≡ o.effective_config
  pub max_result_byte_count : next.max_result_byte_count ≡ o.max_result_byte_count
  pub presentation : is_some o.presentation ≡ true → next.presentation ≡ o.presentation
  pub worker_identity : is_some o.worker_identity ≡ true → next.worker_identity ≡ o.worker_identity
  pub observed_config : is_some o.worker_identity ≡ true → next.observed_config ≡ o.observed_config
  pub agent_run_evidence :
      is_some o.agent_run_evidence ≡ true → next.agent_run_evidence ≡ o.agent_run_evidence
  pub result : is_some o.result ≡ true → next.result ≡ o.result
  pub worker_stop_confirmed_at :
      is_some o.worker_stop_confirmed_at ≡ true
      → next.worker_stop_confirmed_at ≡ o.worker_stop_confirmed_at
  pub worker_launched : o.worker_launched ≡ true → next.worker_launched ≡ true
  pub cancellation_epoch : o.cancellation_epoch ≤ next.cancellation_epoch

pub Extends-refl : (o : Operation) → Extends o o
Extends-refl o = ground arith

pub Extends-trans : {a b c : Operation} → Extends a b → Extends b c → Extends a c
Extends-trans x y = ground arith

module _ (p : Platform) where
  pub dispatch-Extends :
      (o : Operation) (m : EventMetadata) (e : EventInput) {next : Operation}
      → dispatch p o m e ≡ ok next
      → Extends o next
  unfolding dispatch
  dispatch-Extends o m (operation_requested _) h = ground arith
  dispatch-Extends o m _ h = ground arith

  pub dispatch_seq :
      (o : Operation) (m : EventMetadata) (e : EventInput) {next : Operation}
      → dispatch p o m e ≡ ok next
      → next.state_seq ≡ m.seq
  unfolding dispatch
  dispatch_seq o m (operation_requested _) h = ground arith
  dispatch_seq o m _ h = ground arith

  -- A terminal Operation changes in its cleanup record and its sequence number, and nowhere else.
  pub dispatch_terminal :
      (o : Operation) (m : EventMetadata) (e : EventInput) {next : Operation}
      → is_terminal o.state && not (is_cleanup_event e) ≡ false
      → is_terminal o.state ≡ true
      → dispatch p o m e ≡ ok next
      → next
        ≡ record o { presentation_cleanup = next.presentation_cleanup; state_seq = next.state_seq }
  unfolding dispatch
  dispatch_terminal o m (operation_requested _) a t h = ground arith
  dispatch_terminal o m _ a t h = ground arith

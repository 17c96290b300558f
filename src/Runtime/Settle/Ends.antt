-- ===== src/Runtime/Settle/Ends.antt =====
-- src/internal/runtime.ts: the steps of `settleObserved`, for a running Operation.
use mathlib.Core.Path.{subst}
use pions.Prelude.{
  ℕ, ◌+◌, ◌≤◌, ◌≡◌, refl, ap, String, Bool, true, false, ◌||◌, some, is_some, Bool-cases, inl, inr,
  arith,
}
use pions.Platform.{Platform}
use pions.Text.{is_safe_integer}
use pions.Types.Evidence.{AgentRunEvidence}
use pions.Operation.{Operation, EventInput, worker_stop_confirmed, agent_settled}
use pions.Reducer.Guards.{is_running, is_terminal, is_cancelling}
use pions.Store.Backend.{Storage, StorageLaws}
use pions.Store.Progress.{IsAppendable}
use pions.Runtime.{World, Run, return, when, get_operation, advance}
use pions.Runtime.Steps.{Ends, Ends-bind, IsStored, IsReliable, get_operation-Ends, advance-Ends}
use pions.Runtime.Settle.{confirm_stop, confirm_exit, settle_agent, finish}
use pions.Runtime.Settle.Events.{stopped, evidenced, stop-IsAppendable, evidence-IsAppendable}

-- The Operation has come on by at most k events, and is still running; `stop` says whether the stop
-- of its Worker is confirmed.
pub record GoesOn (o o' : Operation) (stop : Bool) (k : ℕ) : Type 0 where
  pub runs : is_running o'.state ≡ true
  pub result : is_some o'.result ≡ is_some o.result
  pub stops : is_some o'.worker_stop_confirmed_at ≡ stop
  pub seq : o'.state_seq ≤ o.state_seq + k

module _ (p : Platform) {S : Type 0} (b : Storage S) (laws : StorageLaws b) (clock : ℕ → String)
    (operation_id : String) (r : IsReliable p b clock operation_id) where
  abbrev Stored : Operation → World S → Type 0
  Stored = IsStored p b clock operation_id

  pub finish-Ends :
      (o next : Operation) (intent : EventInput) (w : World S)
      → Stored o w
      → IsAppendable p operation_id o intent (clock w.ticks) next
      → Ends (finish p b clock operation_id intent) w (λ a w'. (a ≡ some next) × Stored next w')
  finish-Ends o next intent w stored a =
      Ends-bind (advance p b clock operation_id intent) (λ settled. return (some settled)) w
        (λ x w'. (x ≡ next) × Stored next w') (λ x w'. (x ≡ some next) × Stored next w')
        (advance-Ends p b clock operation_id laws o next intent w r stored a)
        (λ x w' (e, kept). (some x, refl, (ap some e, kept)))

  -- A step that is taken for its event alone.
  append-Ends :
      (o next : Operation) (intent : EventInput) (w : World S)
      → Stored o w
      → IsAppendable p operation_id o intent (clock w.ticks) next
      → Ends (when true (advance p b clock operation_id intent)) w (λ _ w'. Stored next w')
  append-Ends o next intent w stored a =
      Ends-bind (advance p b clock operation_id intent) (λ _. return tt) w
        (λ x w'. (x ≡ next) × Stored next w') (λ _ w'. Stored next w')
        (advance-Ends p b clock operation_id laws o next intent w r stored a)
        (λ x w' (e, kept). (tt, refl, kept))

  abbrev pub GoneOn : Operation → Bool → Unit {0} → World S → Type 0
  GoneOn o stop _ w = (o' : Operation) × Stored o' w × GoesOn o o' stop 1

  -- A step that gives a stored Operation which goes on.
  abbrev pub EndsOn : Operation → Bool → Run S (Unit {0}) → World S → Type 0
  EndsOn o stop m w = Ends m w (GoneOn o stop)

  pub stay :
      (o : Operation) (w : World S) (stop : Bool)
      → Stored o w
      → is_running o.state ≡ true
      → is_some o.worker_stop_confirmed_at ≡ stop
      → EndsOn o stop (return tt) w
  stay o w stop stored runs stops = (
    tt,
    refl,
    (o, stored, record { runs = runs; result = refl; stops = stops; seq = omega arith }),
  )

  confirm_stop-Ends :
      (o : Operation) (w : World S)
      → Stored o w
      → is_running o.state ≡ true
      → o.worker_launched ≡ true
      → is_safe_integer (o.state_seq + 1) ≡ true
      → EndsOn o true (confirm_stop p b clock operation_id o) w
  unfolding confirm_stop
  confirm_stop-Ends o w stored runs launched safe =
      let alive : is_terminal o.state ≡ false = ground arith in
      let not_cancelling : is_cancelling o.state ≡ false = ground arith in
      elim (Bool-cases (is_some o.worker_stop_confirmed_at)) [
        | inl stops ↦ rw (alive, not_cancelling, stops) (stay o w true stored runs stops)
        | inr unstopped ↦
            let (x, returned, kept) =
              append-Ends o (stopped o (clock w.ticks)) (worker_stop_confirmed "worker-stop") w
                stored
                (stop-IsAppendable p b clock operation_id r o w.ticks runs safe launched
                  unstopped) in
            rw (alive, not_cancelling, unstopped)
              (
                x,
                returned,
                (
                  stopped o (clock w.ticks),
                  kept,
                  record { runs = runs; result = refl; stops = refl; seq = omega arith },
                ),
              )
      ]

  pub confirm_exit-Ends :
      (o : Operation) (w : World S) (confirmed : Bool)
      → Stored o w
      → is_running o.state ≡ true
      → o.worker_launched ≡ true
      → is_safe_integer (o.state_seq + 1) ≡ true
      → EndsOn o
          (is_some o.worker_stop_confirmed_at || confirmed)
          (confirm_exit p b clock operation_id confirmed)
          w
  unfolding confirm_exit
  confirm_exit-Ends o w false stored runs launched safe = stay o w _ stored runs (ground arith)
  confirm_exit-Ends o w true stored runs launched safe =
      let stops : true ≡ is_some o.worker_stop_confirmed_at || true = ground arith in
      subst (λ stop. EndsOn o stop (confirm_exit p b clock operation_id true) w) stops
        (Ends-bind (get_operation p b clock operation_id) (confirm_stop p b clock operation_id) w
          (λ a w'. (a ≡ o) × Stored o w') (GoneOn o true)
          (get_operation-Ends p b clock operation_id o w stored)
          (λ a w' (e, kept). rw e (confirm_stop-Ends o w' kept runs launched safe)))

  pub settle_agent-Ends :
      (o : Operation) (w : World S) (evidence : AgentRunEvidence)
      → Stored o w
      → is_running o.state ≡ true
      → is_safe_integer (o.state_seq + 1) ≡ true
      → EndsOn o
          (is_some o.worker_stop_confirmed_at)
          (settle_agent p b clock operation_id evidence o)
          w
  unfolding settle_agent
  settle_agent-Ends o w evidence stored runs safe =
      elim (Bool-cases (is_some o.agent_run_evidence)) [
        | inl settled ↦ rw settled (stay o w _ stored runs refl)
        | inr unsettled ↦
            let (x, returned, kept) =
              append-Ends o (evidenced o evidence) (agent_settled evidence) w stored (
                evidence-IsAppendable p b clock operation_id r o w.ticks runs safe evidence
                  unsettled) in
            rw unsettled (
              x,
              returned,
              (
                evidenced o evidence,
                kept,
                record { runs = runs; result = refl; stops = refl; seq = omega arith },
              ),
            )
      ]

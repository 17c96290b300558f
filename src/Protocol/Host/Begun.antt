-- ===== src/Protocol/Host/Begun.antt =====
-- src/internal/worker-protocol.ts: the state of a session of the host after its `hello`.
use pions.Prelude.{
  ◌≡◌, refl, sym, ap, ◌∙◌, true, false, Option, none, some, List, ℕ, String, Bool-cases, inl, inr,
}
use pions.Except.{ok}
use pions.Types.Configuration.{ObservedWorkerConfig}
use pions.Types.Evidence.{AgentRunEvidence, AcceptanceState, PiUsage, PiToolUse}
use pions.Platform.{Platform}
use pions.ResultAcceptance.{WorkerProducedResult}
use pions.Protocol.{ProtocolAuthority, ProtocolLimits, invalid_transition, ◌>>◌}
use pions.Protocol.Sessions.{>>-eq-ok, require_not-eq-ok}
use pions.Protocol.Keeps.{Keeps, keeps_rules, Keeps-modify}
use pions.Protocol.Frames
use pions.Protocol.Frames.{
  Wire, StartInstruction, BeginRejectionReason, Common, WorkerBody, WorkerFrame, Parsed, not_json,
  other_version, null_value, shapeless, well_formed,
}
use pions.Protocol.Host.{
  HostProtocolPeer, HostProtocolEvent, CurrentResult, is_awaiting_hello, validate_common,
  validate_hello, is_done, move_to, awaiting_started,
}
use pions.Protocol.Host.Reception.{
  on_started, on_cancelled, on_generation_updated, confirm_generation, on_begin_rejected,
  on_begin_accepted, on_begin_ack, on_result_begin, add_chunk, on_result_chunk, commit_result,
  on_result_commit, on_failed, finish_result, on_done, on_body, on_frame, on_line, on_first_body,
  no_event, accept_frame,
}

abbrev pub HasBegun : HostProtocolPeer → Type 0
HasBegun p = is_awaiting_hello p.state ≡ false

ruleset begun_rules = (keeps_rules, Keeps-modify)

on_started-HasBegun :
    (session : String) (config : ObservedWorkerConfig) → Keeps HasBegun (on_started session config)
unfolding on_started
on_started-HasBegun session config = search begun_rules

on_cancelled-HasBegun : Keeps HasBegun on_cancelled
unfolding on_cancelled
on_cancelled-HasBegun = search begun_rules

confirm_generation-HasBegun :
    (generation : ℕ) (state : AcceptanceState) (p : HostProtocolPeer)
    → HasBegun p
    → HasBegun (confirm_generation generation state p)
confirm_generation-HasBegun generation AcceptanceState.accepted p h = refl
confirm_generation-HasBegun generation AcceptanceState.not_accepted p h = h
confirm_generation-HasBegun generation AcceptanceState.unknown p h = h

on_generation_updated-HasBegun :
    (generation : ℕ) (state : AcceptanceState) (instruction : Option StartInstruction)
    → Keeps HasBegun (on_generation_updated generation state instruction)
unfolding on_generation_updated
on_generation_updated-HasBegun generation state instruction =
    search (begun_rules, confirm_generation-HasBegun)

on_begin_rejected-HasBegun :
    (instruction : StartInstruction) (reason : BeginRejectionReason)
    → Keeps HasBegun (on_begin_rejected instruction reason)
unfolding on_begin_rejected
on_begin_rejected-HasBegun instruction reason = search begun_rules

on_begin_accepted-HasBegun :
    (instruction : StartInstruction) → Keeps HasBegun (on_begin_accepted instruction)
unfolding on_begin_accepted
on_begin_accepted-HasBegun instruction = search begun_rules

on_begin_ack-HasBegun : (instruction : StartInstruction) → Keeps HasBegun (on_begin_ack instruction)
unfolding on_begin_ack
on_begin_ack-HasBegun instruction = search begun_rules

on_result_begin-HasBegun :
    (limits : ProtocolLimits) (request : String) (count : ℕ) (digest : String)
    → Keeps HasBegun (on_result_begin limits request count digest)
unfolding on_result_begin
on_result_begin-HasBegun limits request count digest = search begun_rules depth 9

add_chunk-HasBegun :
    (wire : Wire) (payload : String) (o : Option CurrentResult)
    → Keeps HasBegun (add_chunk wire payload o)
add_chunk-HasBegun wire payload none = search begun_rules
add_chunk-HasBegun wire payload (some result) = search begun_rules

on_result_chunk-HasBegun :
    (wire : Wire) (payload : String) → Keeps HasBegun (on_result_chunk wire payload)
unfolding on_result_chunk
on_result_chunk-HasBegun wire payload = search (begun_rules, add_chunk-HasBegun)

commit_result-HasBegun :
    (platform : Platform) (digest : String) (o : Option CurrentResult)
    → Keeps HasBegun (commit_result platform digest o)
commit_result-HasBegun platform digest none = search begun_rules
commit_result-HasBegun platform digest (some result) = search begun_rules

on_result_commit-HasBegun :
    (platform : Platform) (digest : String) → Keeps HasBegun (on_result_commit platform digest)
unfolding on_result_commit
on_result_commit-HasBegun platform digest = search (begun_rules, commit_result-HasBegun)

on_failed-HasBegun :
    (message : String) (usage : PiUsage) (tool_uses : List PiToolUse)
    → Keeps HasBegun (on_failed message usage tool_uses)
unfolding on_failed
on_failed-HasBegun message usage tool_uses = search begun_rules

finish_result-HasBegun :
    (o : Option WorkerProducedResult) (evidence : AgentRunEvidence)
    → Keeps HasBegun (finish_result o evidence)
finish_result-HasBegun none evidence = search begun_rules
finish_result-HasBegun (some result) evidence = search begun_rules

on_done-HasBegun :
    (usage : PiUsage) (tool_uses : List PiToolUse) → Keeps HasBegun (on_done usage tool_uses)
unfolding on_done
on_done-HasBegun usage tool_uses = search (begun_rules, finish_result-HasBegun)

validate_common-HasBegun :
    (authority : ProtocolAuthority) (frame : Common)
    → Keeps HasBegun (validate_common authority frame)
unfolding validate_common
validate_common-HasBegun authority frame = search begun_rules

module _ (platform : Platform) (wire : Wire) (authority : ProtocolAuthority)
    (limits : ProtocolLimits) where
  on_body-HasBegun :
      (body : WorkerBody) → Keeps HasBegun (on_body platform wire authority limits body)
  unfolding on_body
  on_body-HasBegun (Frames.hello _ _ _) = search begun_rules
  on_body-HasBegun (Frames.started session config) = on_started-HasBegun session config
  on_body-HasBegun (Frames.result_begin request count digest) =
      on_result_begin-HasBegun limits request count digest
  on_body-HasBegun (Frames.result_chunk payload) = on_result_chunk-HasBegun wire payload
  on_body-HasBegun (Frames.result_commit digest) = on_result_commit-HasBegun platform digest
  on_body-HasBegun (Frames.done usage tool_uses) = on_done-HasBegun usage tool_uses
  on_body-HasBegun (Frames.failed message usage tool_uses) =
      on_failed-HasBegun message usage tool_uses
  on_body-HasBegun Frames.cancelled = on_cancelled-HasBegun
  on_body-HasBegun (Frames.begin_accepted instruction) = on_begin_accepted-HasBegun instruction
  on_body-HasBegun (Frames.begin_ack instruction) = on_begin_ack-HasBegun instruction
  on_body-HasBegun (Frames.begin_rejected instruction reason) =
      on_begin_rejected-HasBegun instruction reason
  on_body-HasBegun (Frames.generation_updated generation state instruction) =
      on_generation_updated-HasBegun generation state instruction

  on_frame-HasBegun :
      (common : Common) (body : WorkerBody)
      → Keeps HasBegun
          (on_frame platform wire authority limits (record { common = common; body = body }))
  on_frame-HasBegun common (Frames.hello _ _ _) = search begun_rules
  on_frame-HasBegun common body = search (begun_rules, validate_common-HasBegun, on_body-HasBegun)

  on_line-HasBegun :
      (line : Parsed WorkerFrame)
      → Keeps HasBegun (on_line platform wire authority limits false line)
  on_line-HasBegun (well_formed frame) = on_frame-HasBegun frame.common frame.body
  on_line-HasBegun null_value = record { at = λ p h. h }
  on_line-HasBegun _ = search begun_rules

  on_first_body-HasBegun :
      (common : Common) (body : WorkerBody) (p q : HostProtocolPeer)
      (event : Option HostProtocolEvent)
      → on_first_body platform wire authority limits common body p ≡ (ok event, q)
      → HasBegun q
  on_first_body-HasBegun common (Frames.hello id instance_id token) p q event h =
      let validated = validate_hello authority common id instance_id token in
      let (_, p', both, rest) = >>-eq-ok (validated >> move_to awaiting_started) no_event p h in
      let (_, p'', _, moving) = >>-eq-ok validated (move_to awaiting_started) p both in
      let moved : q ≡ record p'' { state = awaiting_started } = cc in
      ap (λ r. is_awaiting_hello r.state) moved
  on_first_body-HasBegun common body p q event h = absurd cc

  -- A first line that is taken is a `hello`.
  first-HasBegun :
      (line : Parsed WorkerFrame) (p q : HostProtocolPeer) (event : Option HostProtocolEvent)
      → on_line platform wire authority limits true line p ≡ (ok event, q)
      → HasBegun q
  first-HasBegun (well_formed frame) p q event h =
      on_first_body-HasBegun frame.common frame.body p q event h
  first-HasBegun _ p q event h = absurd cc

  -- A line that has been taken leaves a session that does not await a `hello`.
  pub accept_frame-HasBegun :
      (line : List ℕ) (p q : HostProtocolPeer) (event : Option HostProtocolEvent)
      → accept_frame platform wire authority limits line p ≡ (ok event, q)
      → HasBegun q
  unfolding accept_frame
  accept_frame-HasBegun line p q event h =
      let taken =
        on_line platform wire authority limits (is_awaiting_hello p.state)
          (wire.parse_worker line) in
      let (_, run) = require_not-eq-ok (is_done p.state) invalid_transition taken p h in
      elim (Bool-cases (is_awaiting_hello p.state)) [
        | inl first ↦ first-HasBegun (wire.parse_worker line) p q event (
            ap (λ b. on_line platform wire authority limits b (wire.parse_worker line) p)
              (sym first)
            ∙ run)
        | inr later ↦
            ap (λ x. is_awaiting_hello x.1.state)
              (sym (
                ap (λ b. on_line platform wire authority limits b (wire.parse_worker line) p)
                  (sym later)
                ∙ run))
            ∙ (on_line-HasBegun (wire.parse_worker line)).at p later
      ]

-- ===== src/Protocol/Host/Integrity.antt =====
-- src/internal/worker-protocol.ts: every frame, and the checks of a Result.
use mathlib.Core.Path.{subst}
use pions.Prelude.{
  ℕ, ◌≡◌, sym, ◌∙◌, String, Bool, true, false, Option, none, some, List, [], ◌∷◌, ◌++◌, ◌==◌, All,
  Bool-cases, inl, inr,
}
use pions.Except.{ok}
use pions.Platform.{Platform}
use pions.Types.Configuration.{ObservedWorkerConfig}
use pions.Types.Evidence.{AcceptanceState, PiUsage, PiToolUse}
use pions.Protocol.{ProtocolAuthority, ProtocolLimits, Session}
use pions.Protocol.Keeps.{Keeps}
use pions.Protocol.Frames
use pions.Protocol.Frames.{
  Wire, StartInstruction, BeginRejectionReason, Common, WorkerBody, WorkerFrame, Parsed, not_json,
  other_version, null_value, shapeless, well_formed,
}
use pions.Protocol.Host.{
  HostProtocolPeer, HostProtocolEvent, is_awaiting_hello, validate_hello, validate_common,
}
use pions.Protocol.Host.Reception.{
  confirm_generation, on_started, on_cancelled, on_generation_updated, on_begin_rejected,
  on_begin_accepted, on_begin_ack, on_failed, on_body, on_frame, on_first_body, on_line,
  accept_frame, receive,
}
use pions.Protocol.Host.Checked.{
  on_result_begin-Sound, on_result_chunk-Sound, on_result_commit-Sound, on_done-Sound,
}
use pions.Protocol.Host.Pieces.{receive-eq-ok}
use pions.Protocol.Framing.{FramedPeer, add_event, accept_from}
use pions.Protocol.Framing.Lines.{at_line_start, accept_from-newline, accept_from-other}
use pions.Protocol.Framing.Split.{end_line-eq-ok, keep_fragment-eq-ok}
use pions.Protocol.Host.Sound.{IsSoundAnswer, IsIntegral, IsSound, Sound, sound_rules}

module _ (platform : Platform) (wire : Wire) (authority : ProtocolAuthority)
    (limits : ProtocolLimits) where
  on_started-Sound :
      (session : String) (config : ObservedWorkerConfig)
      → Sound platform limits (on_started session config)
  unfolding on_started
  on_started-Sound session config = search sound_rules

  on_cancelled-Sound : Sound platform limits on_cancelled
  unfolding on_cancelled
  on_cancelled-Sound = search sound_rules

  confirm_generation-IsIntegral :
      (generation : ℕ) (state : AcceptanceState) (p : HostProtocolPeer)
      → IsIntegral platform limits p
      → IsIntegral platform limits (confirm_generation generation state p)
  confirm_generation-IsIntegral generation state p h = h

  on_generation_updated-Sound :
      (generation : ℕ) (state : AcceptanceState) (instruction : Option StartInstruction)
      → Sound platform limits (on_generation_updated generation state instruction)
  unfolding on_generation_updated
  on_generation_updated-Sound generation state instruction = search sound_rules

  on_begin_rejected-Sound :
      (instruction : StartInstruction) (reason : BeginRejectionReason)
      → Sound platform limits (on_begin_rejected instruction reason)
  unfolding on_begin_rejected
  on_begin_rejected-Sound instruction reason = search sound_rules

  on_begin_accepted-Sound :
      (instruction : StartInstruction) → Sound platform limits (on_begin_accepted instruction)
  unfolding on_begin_accepted
  on_begin_accepted-Sound instruction = search sound_rules

  on_begin_ack-Sound :
      (instruction : StartInstruction) → Sound platform limits (on_begin_ack instruction)
  unfolding on_begin_ack
  on_begin_ack-Sound instruction = search sound_rules

  on_failed-Sound :
      (message : String) (usage : PiUsage) (tool_uses : List PiToolUse)
      → Sound platform limits (on_failed message usage tool_uses)
  unfolding on_failed
  on_failed-Sound message usage tool_uses = search sound_rules

  validate_common-IsIntegral :
      (frame : Common) → Keeps (IsIntegral platform limits) (validate_common authority frame)
  unfolding validate_common
  validate_common-IsIntegral frame = search sound_rules

  All-add_event :
      (o : Option HostProtocolEvent) (later : List HostProtocolEvent)
      → IsSoundAnswer platform limits (ok o)
      → All (IsSound platform limits) later
      → All (IsSound platform limits) (add_event o later)
  All-add_event none later s rest = rest
  All-add_event (some event) later s rest = (s, rest)

  on_body-Sound :
      (body : WorkerBody) → Sound platform limits (on_body platform wire authority limits body)
  unfolding on_body
  on_body-Sound (Frames.hello _ _ _) = search sound_rules
  on_body-Sound (Frames.started session config) = on_started-Sound session config
  on_body-Sound (Frames.result_begin request count digest) =
      on_result_begin-Sound platform wire authority limits request count digest
  on_body-Sound (Frames.result_chunk payload) =
      on_result_chunk-Sound platform wire authority limits payload
  on_body-Sound (Frames.result_commit digest) =
      on_result_commit-Sound platform wire authority limits digest
  on_body-Sound (Frames.done usage tool_uses) =
      on_done-Sound platform wire authority limits usage tool_uses
  on_body-Sound (Frames.failed message usage tool_uses) = on_failed-Sound message usage tool_uses
  on_body-Sound Frames.cancelled = on_cancelled-Sound
  on_body-Sound (Frames.begin_accepted instruction) = on_begin_accepted-Sound instruction
  on_body-Sound (Frames.begin_ack instruction) = on_begin_ack-Sound instruction
  on_body-Sound (Frames.begin_rejected instruction reason) =
      on_begin_rejected-Sound instruction reason
  on_body-Sound (Frames.generation_updated generation state instruction) =
      on_generation_updated-Sound generation state instruction

  on_frame-Sound :
      (common : Common) (body : WorkerBody)
      → Sound platform limits
          (on_frame platform wire authority limits (record { common = common; body = body }))
  on_frame-Sound common (Frames.hello _ _ _) = search sound_rules
  on_frame-Sound common body = search (sound_rules, validate_common-IsIntegral, on_body-Sound)

  validate_hello-IsIntegral :
      (common : Common) (id : ℕ) (instance_id token : String)
      → Keeps (IsIntegral platform limits) (validate_hello authority common id instance_id token)
  unfolding validate_hello
  validate_hello-IsIntegral common id instance_id token =
      search (sound_rules, validate_common-IsIntegral)

  on_first_body-Sound :
      (common : Common) (body : WorkerBody)
      → Sound platform limits (on_first_body platform wire authority limits common body)
  on_first_body-Sound common (Frames.hello id instance_id token) =
      search (sound_rules, validate_hello-IsIntegral)
  on_first_body-Sound common body = search sound_rules

  on_line-Sound :
      (first : Bool) (line : Parsed WorkerFrame)
      → Sound platform limits (on_line platform wire authority limits first line)
  on_line-Sound true (well_formed frame) = on_first_body-Sound frame.common frame.body
  on_line-Sound false (well_formed frame) = on_frame-Sound frame.common frame.body
  on_line-Sound false null_value = record { at = λ p h. (tt, h) }
  on_line-Sound true null_value = search sound_rules
  on_line-Sound first not_json = search sound_rules
  on_line-Sound first other_version = search sound_rules
  on_line-Sound first (shapeless _) = search sound_rules

  accept_frame-Sound :
      (line : List ℕ) → Sound platform limits (accept_frame platform wire authority limits line)
  unfolding accept_frame
  accept_frame-Sound line = search (sound_rules, on_line-Sound)

  abbrev frames : List ℕ → Session HostProtocolPeer (Option HostProtocolEvent)
  frames = accept_frame platform wire authority limits

  -- Every event of the lines, and the peer after them.
  accept_from-IsSound :
      (first : Bool) (fragment xs : List ℕ) (p q : FramedPeer HostProtocolPeer)
      (events : List HostProtocolEvent)
      → IsIntegral platform limits p.inner
      → accept_from limits frames first fragment xs p ≡ (ok events, q)
      → All (IsSound platform limits) events × IsIntegral platform limits q.inner
  unfolding accept_from
  accept_from-IsSound first [] [] p q events whole h =
      let none_yet : events ≡ [] = cc in
      let moved : q ≡ p = cc in
      (
        subst (All (IsSound platform limits)) (sym none_yet) tt,
        subst (λ (x : FramedPeer HostProtocolPeer). IsIntegral platform limits x.inner) (sym moved)
            whole,
      )
  accept_from-IsSound first (c ∷ r) [] p q events whole h =
      let (_, none_yet, moved) = keep_fragment-eq-ok limits frames first c r p events q h in
      (
        subst (All (IsSound platform limits)) (sym none_yet) tt,
        subst (λ (x : FramedPeer HostProtocolPeer). IsIntegral platform limits x.inner) (sym moved)
            whole,
      )
  accept_from-IsSound first fragment (c ∷ xs) p q events whole h = elim (Bool-cases (c == b'\n')) [
    | inl newline ↦
        let (event, inner, later, _, taken, went, added) =
          end_line-eq-ok limits frames first fragment (accept_from limits frames false [] xs) p
            events q (sym (accept_from-newline limits frames first fragment c xs p newline) ∙ h) in
        let (sound, kept) =
          subst (λ x. IsSoundAnswer platform limits x.0 × IsIntegral platform limits x.1) taken
            ((accept_frame-Sound (p.buffered ++ fragment)).at p.inner whole) in
        let (rest, last) =
          accept_from-IsSound false [] xs (at_line_start inner) q later kept went in
        (
          subst (All (IsSound platform limits)) (sym added) (All-add_event event later sound rest),
          last,
        )
    | inr other ↦
        accept_from-IsSound first (fragment ++ c ∷ []) xs p q events whole
          (sym (accept_from-other limits frames first fragment c xs p other) ∙ h)
  ]

  -- A session keeps what it has checked: if the Result that is on its way is in the size limit, and
  -- one that has come is the text of UTF-8 of its length and its digest, in the limit, then whatever
  -- bytes come, this stays so, and every Result that `receive` gives is such a text.
  pub receive-IsIntegral :
      (bytes : List ℕ) (p q : FramedPeer HostProtocolPeer) (events : List HostProtocolEvent)
      → IsIntegral platform limits p.inner
      → receive platform wire authority limits bytes p ≡ (ok events, q)
      → All (IsSound platform limits) events × IsIntegral platform limits q.inner
  receive-IsIntegral bytes p q events whole h =
      let (_, taken, _) = receive-eq-ok platform wire authority limits bytes p q events h in
      accept_from-IsSound (is_awaiting_hello p.inner.state) [] bytes p q events whole taken

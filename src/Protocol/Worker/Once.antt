-- ===== src/Protocol/Worker/Once.antt =====
-- src/internal/worker-protocol.ts: the answers of the Worker to each frame, and the mark of an
-- accepted start instruction.
use pions.Prelude.{
  ℕ, ◌+◌, ◌≤◌, ◌≡◌, refl, ap, ◌∙◌, String, Bool, true, false, not, ◌||◌, Option, none, some, List,
  ◌==◌, if◌then◌else◌, arith,
}
use pions.Types.Evidence.{AcceptanceState}
use pions.Protocol.{ProtocolAuthority, ProtocolLimits, ◌>>=◌, ◌>>◌, Session, get, return, modify}
use pions.Protocol.Keeps.{Keeps, Keeps-modify}
use pions.Protocol.Frames
use pions.Protocol.Frames.{
  Wire, StartInstruction, same_start, conflict, worker_mismatch, stale_generation,
  BeginRejectionReason, Common, Acknowledgement, HostBody, HostFrame, control, ack, Parsed,
  not_json, other_version, null_value, shapeless, well_formed,
}
use pions.Protocol.Control.{validate_start_instruction}
use pions.Protocol.Worker.{
  StoredStart, no_start, unknown_start, stored_start, StartInstructionAcceptanceStore,
  WorkerProtocolPeer, DurableDeliveryAuthority, running,
}
use pions.Protocol.Worker.Received.{is_process, is_other, duplicate, refused, Received}
use pions.Protocol.Worker.Reception.{
  give, or_thrown, save_start, claim_and_save, begin_fresh, repeated, when_saved, restored,
  begin_stored, begin_known, restore_durable_start_acceptance, begin_under, on_begin, observed_as,
  on_acceptance_observed, update_to, update_under, on_generation_update, on_cancel,
  require_finished, on_ack, on_control, on_line, accept_frame,
}
use pions.Protocol.Worker.Marks.{Marking, HasMark, held, held-le}
use pions.Protocol.Worker.Counts.{
  weight, weight_of, Reply, Leaves, Counts, Counts-bind, Counts-then, Counts-assoc, leaves_rules,
  counts_rules,
}
use pions.Protocol.Worker.Restored.{
  mark_rules, validate_start_instruction-HasMark, validate_host_control-HasMark,
  read_authority-HasMark, known_or_restored-HasMark, save_generation-HasMark,
  validate_given-HasMark,
}

module _ (wire : Wire) (authority : ProtocolAuthority) (limits : ProtocolLimits) (now : String)
    {S : Type 0} (starts : StartInstructionAcceptanceStore S) (k : Marking starts) where
  save_start-Leaves :
      (i : StartInstruction) → Leaves k (save_start wire authority limits now starts i)
  save_start-Leaves i = record { at = λ p. go p (starts.save p.store i).0 refl }
    where
      saved_as : Option Bool → Reply S
      saved_as saved =
          (λ p. (or_thrown wire authority limits now starts saved, p))
          >>= when_saved wire authority limits now starts i

      go :
          (p : WorkerProtocolPeer S) (saved : Option Bool)
          → (starts.save p.store i).0 ≡ saved
          → weight_of (saved_as saved (record p { store = (starts.save p.store i).1 })).0
            ≤ held k (saved_as saved (record p { store = (starts.save p.store i).1 })).1
      go p none e = omega arith
      go p (some false) e = omega arith
      go p (some true) e = let marked = k.accepting p.store i e in ground arith

  claim_and_save-Leaves :
      (i : StartInstruction) (o : Option String)
      → Leaves k (claim_and_save wire authority limits now starts i o)
  claim_and_save-Leaves i none = search (leaves_rules, save_start-Leaves)
  claim_and_save-Leaves i (some own) = save_start-Leaves i

  begin_fresh-Leaves :
      (i : StartInstruction) → Leaves k (begin_fresh wire authority limits now starts i)
  unfolding begin_fresh
  begin_fresh-Leaves i = search (leaves_rules, claim_and_save-Leaves)

  repeated-weight :
      (i known : StartInstruction) (same : Bool)
      → weight (Received.start_instruction (if same then duplicate else refused conflict) i) ≡ 0
  repeated-weight i known true = refl
  repeated-weight i known false = refl

  repeated-Counts :
      (i known : StartInstruction) → Counts k (repeated wire authority limits now starts i known)
  repeated-Counts i known = search (counts_rules, repeated-weight)

  -- An instruction is stored: it is not accepted again.
  begin_restored-Counts :
      (i known : StartInstruction)
      → Counts k (
          restored wire authority limits now starts (stored_start known)
          >>= begin_stored wire authority limits now starts i)
  begin_restored-Counts i known =
      Counts-assoc k (validate_start_instruction wire known >> get)
        (λ p. adopt_own (is_process p.process_instance_id known.worker_process_instance_id))
        (begin_stored wire authority limits now starts i)
        (Counts-bind k (validate_start_instruction wire known >> get)
          (λ p.
            adopt_own (is_process p.process_instance_id known.worker_process_instance_id)
            >>= begin_stored wire authority limits now starts i)
          (search (mark_rules, validate_start_instruction-HasMark))
          (λ p. after_adoption (is_process p.process_instance_id known.worker_process_instance_id)))
    where
      keep : WorkerProtocolPeer S → WorkerProtocolPeer S
      keep p = record p { accepted_start_instruction = some known; state = running }

      adopt_own : Bool → Session (WorkerProtocolPeer S) StoredStart
      adopt_own own =
          if not own then return unknown_start else (modify keep >> return (stored_start known))

      after_adoption :
          (own : Bool)
          → Counts k (adopt_own own >>= begin_stored wire authority limits now starts i)
      after_adoption false = search counts_rules
      after_adoption true =
          Counts-then k (modify keep) (repeated wire authority limits now starts i known)
            (Keeps-modify keep (λ p. k.adopting p.accepted_start_instruction p.store known))
            (repeated-Counts i known)

  begin_known-weight :
      (i : StartInstruction) (o : Option StartInstruction) (p : WorkerProtocolPeer S)
      → p.accepted_start_instruction ≡ o
      → weight_of (begin_known wire authority limits now starts i o p).0 + held k p
        ≤ held k (begin_known wire authority limits now starts i o p).1
  unfolding restore_durable_start_acceptance
  begin_known-weight i (some known) p has = (repeated-Counts i known).at p
  begin_known-weight i none p none_yet = go (starts.load p.store).0 refl
    where
      q : WorkerProtocolPeer S
      q = record p { store = (starts.load p.store).1 }

      grows : held k p ≤ held k q
      grows = held-le k p q (k.loading p.accepted_start_instruction p.store)

      go :
          (o : StoredStart)
          → (starts.load p.store).0 ≡ o
          → weight_of
                ((restored wire authority limits now starts o
                    >>= begin_stored wire authority limits now starts i)
                  q).0
              + held k p
            ≤ held k
                ((restored wire authority limits now starts o
                    >>= begin_stored wire authority limits now starts i)
                  q).1
      go no_start e =
          let free : k.mark q.accepted_start_instruction q.store ≡ false =
            ap (λ o. k.mark o q.store) none_yet ∙ k.fresh p.store e in
          let none_held : held k q ≡ 0 = ground arith in
          omega (arith, (begin_fresh-Leaves i).at q, grows, none_held)
      go unknown_start e = omega (arith, grows)
      go (stored_start known) e = omega (arith, grows, (begin_restored-Counts i known).at q)

  begin_under-Counts :
      (i : StartInstruction) (o : Option DurableDeliveryAuthority)
      → Counts k (begin_under wire authority limits now starts i o)
  begin_under-Counts i none = search counts_rules
  begin_under-Counts i (some durable) = record {
    at = λ p.
        let q : WorkerProtocolPeer S = record p {
          delivery_generation = durable.delivery_generation;
          delivery_dispatcher_id = durable.dispatcher_id;
        } in
        go q (not (is_process q.process_instance_id i.worker_process_instance_id)) (
          not (i.delivery_generation == durable.delivery_generation)
          || is_other durable.dispatcher_id i.dispatcher_id);
  }
    where
      answer_in : WorkerProtocolPeer S → Bool → Bool → Reply S
      answer_in q foreign stale =
          if foreign
          then give wire authority limits now starts (refused worker_mismatch) i
          else if stale
          then give wire authority limits now starts (refused stale_generation) i
          else begin_known wire authority limits now starts i q.accepted_start_instruction

      go :
          (q : WorkerProtocolPeer S) (foreign stale : Bool)
          → weight_of (answer_in q foreign stale q).0 + held k q
            ≤ held k (answer_in q foreign stale q).1
      go q true stale = omega arith
      go q false true = omega arith
      go q false false = begin_known-weight i q.accepted_start_instruction q refl

  on_begin-Counts : (i : StartInstruction) → Counts k (on_begin wire authority limits now starts i)
  unfolding on_begin
  on_begin-Counts i =
      search (
        counts_rules, validate_start_instruction-HasMark, read_authority-HasMark,
        begin_under-Counts,
      )

  observed_as-Counts :
      (i : StartInstruction) (o : StoredStart)
      → Counts k (observed_as wire authority limits now starts i o)
  observed_as-Counts i no_start = search counts_rules
  observed_as-Counts i unknown_start = search counts_rules
  observed_as-Counts i (stored_start known) = search counts_rules

  on_acceptance_observed-Counts :
      (i : StartInstruction) → Counts k (on_acceptance_observed wire authority limits now starts i)
  unfolding on_acceptance_observed
  on_acceptance_observed-Counts i = search (
    counts_rules, validate_start_instruction-HasMark, known_or_restored-HasMark, observed_as-Counts,
  )

  update_to-Counts :
      (dispatcher_id : String) (generation : ℕ) (state : AcceptanceState)
      → Counts k (update_to wire authority limits now starts dispatcher_id generation state)
  update_to-Counts dispatcher_id generation state = search (counts_rules, save_generation-HasMark)

  update_under-Counts :
      (dispatcher_id : String) (generation : ℕ) (o : Option DurableDeliveryAuthority)
      → Counts k (update_under wire authority limits now starts dispatcher_id generation o)
  update_under-Counts dispatcher_id generation none = search counts_rules
  update_under-Counts dispatcher_id generation (some durable) =
      search (counts_rules, known_or_restored-HasMark, update_to-Counts)

  on_generation_update-Counts :
      (dispatcher_id : String) (generation : ℕ)
      → Counts k (on_generation_update wire authority limits now starts dispatcher_id generation)
  unfolding on_generation_update
  on_generation_update-Counts dispatcher_id generation =
      search (counts_rules, read_authority-HasMark, update_under-Counts)

  on_cancel-Counts :
      (dispatcher_id : Option String) (generation : Option ℕ)
      → Counts k (on_cancel wire authority limits now starts dispatcher_id generation)
  unfolding on_cancel
  on_cancel-Counts dispatcher_id generation = search (counts_rules, validate_given-HasMark)

  require_finished-HasMark : Keeps (HasMark k) (require_finished wire authority limits now starts)
  require_finished-HasMark = search mark_rules

  on_ack-Counts :
      (given : Acknowledgement) → Counts k (on_ack wire authority limits now starts given)
  unfolding on_ack
  on_ack-Counts given = search (counts_rules, require_finished-HasMark)

  on_control-Counts :
      (body : HostBody) → Counts k (on_control wire authority limits now starts body)
  unfolding on_control
  on_control-Counts (Frames.begin i) = on_begin-Counts i
  on_control-Counts (Frames.begin_acceptance_observed i) = on_acceptance_observed-Counts i
  on_control-Counts (Frames.delivery_generation_update dispatcher_id generation) =
      on_generation_update-Counts dispatcher_id generation
  on_control-Counts (Frames.cancel dispatcher_id generation) =
      on_cancel-Counts dispatcher_id generation

  on_line-Counts :
      (line : Parsed HostFrame) → Counts k (on_line wire authority limits now starts line)
  on_line-Counts not_json = search counts_rules
  on_line-Counts other_version = search counts_rules
  on_line-Counts null_value = record { at = λ p. omega arith }
  on_line-Counts (shapeless true) = search counts_rules
  on_line-Counts (shapeless false) = search (counts_rules, require_finished-HasMark)
  on_line-Counts (well_formed (control common body)) =
      search (counts_rules, validate_host_control-HasMark, on_control-Counts)
  on_line-Counts (well_formed (ack given)) = on_ack-Counts given

  -- A line that is answered with an acceptance makes a Worker that had accepted no start instruction
  -- one that has.
  pub accept_frame-Counts :
      (line : List ℕ) → Counts k (accept_frame wire authority limits now starts line)
  unfolding accept_frame
  accept_frame-Counts line = on_line-Counts (wire.parse_host line)

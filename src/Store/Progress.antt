-- ===== src/Store/Progress.antt =====
-- src/internal/event-store/store.ts: what stands between an event that the reducer takes and its
-- record: the decoder, the envelope and the write.
use text.Mathlib.TextLemmas.{cons-append}
use pions.Prelude.{
  ℕ, ◌+◌, ◌≡◌, ◌≢◌, refl, sym, ◌∙◌, String, Bool, true, false, ◌&&◌, ◌||◌, not, some, List, [], ◌∷◌,
  ◌++◌, any, all, ◌==◌, eq_iff, non_empty, &&-eq-true, arith,
}
use pions.Except.{ok}
use pions.Platform.{Platform}
use pions.Text.{is_safe_integer}
use pions.Operation.{Operation, OperationEvent, EventInput}
use pions.Reducer.Guards.{is_terminal, validate_envelope}
use pions.Reducer.{
  is_request, is_cleanup_event, dispatch, advance, reduce_operation, replay_operation, replay_from,
}
use pions.Reducer.History.Numbers.{Numbered, replay_numbers}
use pions.Codec.{
  StoredOperationRecord, event_identifier, valid_event_envelope, metadata_schema, decode_record,
}
use pions.Codec.Schema.{event_schema}
use pions.Store.Backend.{Storage, StorageLaws}
use pions.Store.Reopen.{extended, open_record-eq-ok, load-Opened}
use pions.Store.Append.{append_event_reloads}
use pions.Store.{
  LoadedRecord, event_after, make_event, open_record, prepare, prepare_loaded, load, append_loaded,
  append_event,
}

module _ {ℓ} {A : Type ℓ} where
  all-append : (q : A → Bool) (xs : List A) (y : A) → all q (xs ++ y ∷ []) ≡ all q xs && q y
  all-append q [] y = ground arith
  all-append q (x ∷ xs) y = ground (arith, all-append q xs y)

  any-append : (q : A → Bool) (xs : List A) (y : A) → any q (xs ++ y ∷ []) ≡ any q xs || q y
  any-append q [] y = ground arith
  any-append q (x ∷ xs) y = ground (arith, any-append q xs y)

-- A decoded record can be extended by a well-formed event.
extended_decodes :
    (i : String) (before : StoredOperationRecord) (n : ℕ) (input : EventInput) (timestamp : String)
    → decode_record before i ≡ ok before
    → event_schema input ≡ true
    → is_safe_integer (n + 1) ≡ true
    → non_empty timestamp ≡ true
    → decode_record (extended i before n input timestamp) i
      ≡ ok (extended i before n input timestamp)
unfolding decode_record event_after
extended_decodes i before n input timestamp decoded schema safe dated = ground (
  arith,
  any-append (λ (e : OperationEvent). not (e.schema_version == 29)) before.events
      (event_after i n input timestamp),
  all-append (λ (e : OperationEvent). metadata_schema e && event_schema e.input) before.events
      (event_after i n input timestamp),
  all-append (valid_event_envelope i) before.events (event_after i n input timestamp),
  eq_iff i i,
  eq_iff (event_identifier i (n + 1)) (event_identifier i (n + 1)),
)

event_identifier-non_empty :
    (i : String) (n : ℕ) → non_empty i ≡ true → non_empty (event_identifier i n) ≡ true
unfolding event_identifier
event_identifier-non_empty String.[] n h = cc
event_identifier-non_empty (String.◌∷◌ c s) n h = rw cons-append

-- A record that replays names its own Operation.
first_own :
    (i j : String) (events : List OperationEvent)
    → all (valid_event_envelope i) events ≡ true
    → Numbered j 1 events
    → events ≢ []
    → i ≡ j
first_own i j [] v m some_event = absurd (some_event refl)
first_own i j (e ∷ events) v (first, own, later) some_event =
    let (valid, _) = &&-eq-true (valid_event_envelope i e) _ v in
    sym (ground (arith, eq_iff e.operation_id i)) ∙ own

module _ (p : Platform) where
  has_events :
      (events : List OperationEvent) (o : Operation)
      → replay_operation p events ≡ ok (some o)
      → events ≢ []
  unfolding replay_operation replay_from
  has_events [] o h = λ e. cc
  has_events (x ∷ events) o h = λ e. cc

  -- The envelope and the case of the event are all that the reducer asks.
  reduce_fresh :
      (o next : Operation) (i : String) (input : EventInput) (timestamp : String)
      → non_empty i ≡ true
      → i ≡ o.operation_id
      → is_safe_integer (o.state_seq + 1) ≡ true
      → is_request input ≡ false
      → is_terminal o.state && not (is_cleanup_event input) ≡ false
      → dispatch p o (event_after i o.state_seq input timestamp).metadata input ≡ ok next
      → reduce_operation p (some o) (event_after i o.state_seq input timestamp) ≡ ok next
  unfolding reduce_operation validate_envelope advance event_after
  reduce_fresh o next i input timestamp named own safe no_request alive dispatched =
      ground (arith, eq_iff i o.operation_id, event_identifier-non_empty i (o.state_seq + 1))

  -- What an event needs to be appended: a name and a time that are well formed, a value in the
  -- schema, a number that is left, and a case of the reducer that takes it.
  pub record IsAppendable (i : String) (o : Operation) (input : EventInput) (timestamp : String)
      (next : Operation) : Type 0 where
    pub named : non_empty i ≡ true
    pub dated : non_empty timestamp ≡ true
    pub real : p.is_timestamp timestamp ≡ true
    pub in_schema : event_schema input ≡ true
    pub safe : is_safe_integer (o.state_seq + 1) ≡ true
    pub no_request : is_request input ≡ false
    pub alive : is_terminal o.state && not (is_cleanup_event input) ≡ false
    pub legal : dispatch p o (event_after i o.state_seq input timestamp).metadata input ≡ ok next

  prepare_fresh :
      (i : String) (before : StoredOperationRecord) (o next : Operation) (input : EventInput)
      (timestamp : String)
      → decode_record before i ≡ ok before
      → i ≡ o.operation_id
      → IsAppendable i o input timestamp next
      → prepare p i before (some o) o.state_seq input timestamp
        ≡ ok (record { stored = extended i before o.state_seq input timestamp; operation = next })
  unfolding prepare make_event
  prepare_fresh i before o next input timestamp decoded own a =
      let decodes =
        extended_decodes i before o.state_seq input timestamp decoded a.in_schema a.safe a.dated in
      let reduces =
        reduce_fresh o next i input timestamp a.named own a.safe a.no_request a.alive a.legal in
      rw (a.real, decodes, reduces)

  opened_decodes :
      (i : String) (l : LoadedRecord)
      → open_record p l.stored i ≡ ok l
      → decode_record (record { schema_version = 29; operation_id = i; events = l.stored.events }) i
        ≡ ok (record { schema_version = 29; operation_id = i; events = l.stored.events })
  unfolding open_record decode_record
  opened_decodes i l o = ground (arith, eq_iff l.stored.operation_id i, eq_iff i i)

  module _ {S : Type 0} (b : Storage S) (laws : StorageLaws b) where
    -- An event that is well formed and that the reducer takes, with a sequence number that is a safe
    -- integer, is appended to a record that loads, if the write of the storage succeeds, and the
    -- record then loads with the Operation that the reducer made.
    pub append_event_succeeds :
        (s : S) (i : String) (l : LoadedRecord) (next : Operation) (input : EventInput)
        (timestamp : String)
        → load p b s i true ≡ ok (some l)
        → IsAppendable i l.operation input timestamp next
        → ((s : S) (x : StoredOperationRecord) → (b.write_record s i x false).1 ≡ true)
        → (x : LoadedRecord) × (x.operation ≡ next)
          × ((append_event p b s i input timestamp).0 ≡ ok x)
          × (load p b (append_event p b s i input timestamp).1 i true ≡ ok (some x))
    unfolding append_event append_loaded prepare_loaded
    append_event_succeeds s i l next input timestamp loaded a writes =
        let opened = load-Opened p b s i true (some l) loaded in
        let (_, enveloped, replayed) = open_record-eq-ok p l.stored i l opened in
        let (numbered, counted) = replay_numbers p l.stored.events replayed in
        let own =
          first_own i l.operation.operation_id l.stored.events enveloped numbered
            (has_events l.stored.events l.operation replayed) in
        let before : StoredOperationRecord = record {
          schema_version = 29;
          operation_id = i;
          events = l.stored.events;
        } in
        let x : LoadedRecord = record {
          stored = extended i before l.operation.state_seq input timestamp;
          operation = next;
        } in
        let prepared =
          prepare_fresh i before l.operation next input timestamp (opened_decodes i l opened) own
            a in
        let appends : (append_event p b s i input timestamp).0 ≡ ok x =
          ground (arith, prepared, writes s x.stored) in
        (x, refl, appends, append_event_reloads p b laws s i input timestamp x appends)

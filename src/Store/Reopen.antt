-- ===== src/Store/Reopen.antt =====
-- src/internal/event-store/store.ts: records that have been prepared, opened again.
use text.Mathlib.TextLemmas.{append_cancel_left}
use mathlib.Core.Path.{subst}
use pions.Prelude.{
  ℕ, ◌+◌, ◌<◌, ◌≡◌, refl, sym, ap, ◌∙◌, String, Bool, true, false, Option, none, some, List, [],
  ◌∷◌, ◌++◌, length, any, all, All, str_eq, eq_iff, &&-eq-true, arith,
}
use pions.Except.{ok, >>=-eq-ok}
use pions.Platform.{Platform}
use pions.Text.{decimal}
use pions.Text.Decimal.{decimal-injective}
use pions.Operation.{Operation, OperationEvent, EventInput, event_schema_version}
use pions.Reducer.{reduce_operation, replay_operation, replay_from}
use pions.Reducer.History.Numbers.{Numbered, replay_numbers}
use pions.Store.Backend.{Storage}
use pions.Reducer.History.Split.{seen, replay_from-append}
use pions.Codec.{StoredOperationRecord, event_identifier, valid_event_envelope, decode_record}
use pions.Store.{
  LoadedRecord, event_after, make_event, open_record, open_found, prepare, prepare_loaded, load,
}

event_identifier-injective :
    (i : String) (a b : ℕ) → event_identifier i a ≡ event_identifier i b → a ≡ b
unfolding event_identifier
event_identifier-injective i a b h =
    decimal-injective a b
      (append_cancel_left ":" (decimal a) (decimal b) (append_cancel_left i _ _ h))

-- Each identifier is that of an event below `n`.
abbrev Below : String → ℕ → List String → Type 0
Below i n ids = All (λ x. (k : ℕ) × (k < n) × (x ≡ event_identifier i k)) ids

Below-suc : (i : String) (n : ℕ) (ids : List String) → Below i n ids → Below i (n + 1) ids
Below-suc i n [] h = tt
Below-suc i n (x ∷ ids) ((k, lt, e), rest) = ((k, omega arith, e), Below-suc i n ids rest)

Below-fresh :
    (i : String) (n : ℕ) (ids : List String)
    → Below i n ids
    → any (str_eq (event_identifier i n)) ids ≡ false
Below-fresh i n [] h = refl
Below-fresh i n (x ∷ ids) ((k, lt, e), rest) = ground (
  arith,
  Below-fresh i n ids rest,
  eq_iff (event_identifier i n) x,
  event_identifier-injective i n k,
)

envelope_named :
    (i : String) (e : OperationEvent)
    → valid_event_envelope i e ≡ true
    → e.event_id ≡ event_identifier i e.seq
envelope_named i e h = ground (arith, eq_iff e.event_id (event_identifier i e.seq))

Below-seen :
    (i j : String) (n : ℕ) (ids : List String) (events : List OperationEvent)
    → Below i n ids
    → Numbered j n events
    → all (valid_event_envelope i) events ≡ true
    → Below i (n + length events) (seen ids events)
Below-seen i j n ids [] b m v = subst (λ k. Below i k ids) (omega arith) b
Below-seen i j n ids (e ∷ events) b (first, own, later) v =
    let both : (valid_event_envelope i e ≡ true) × (all (valid_event_envelope i) events ≡ true) =
      &&-eq-true (valid_event_envelope i e) (all (valid_event_envelope i) events) v in
    let named : e.event_id ≡ event_identifier i n =
      envelope_named i e both.0 ∙ ap (event_identifier i) first in
    subst (λ k. Below i k (seen (e.event_id ∷ ids) events)) (omega arith)
      (Below-seen i j (n + 1) (e.event_id ∷ ids) events
        ((n, omega arith, named), Below-suc i n ids b) later both.1)

-- A decoded record is the value itself, and each of its events has the record's own envelope.
pub decode_record-eq-ok :
    (value : StoredOperationRecord) (i : String) (x : StoredOperationRecord)
    → decode_record value i ≡ ok x
    → (x ≡ value) × (all (valid_event_envelope i) value.events ≡ true)
unfolding decode_record
decode_record-eq-ok value i x h = ground arith

-- The record that `prepare` decodes.
abbrev pub extended :
    String → StoredOperationRecord → ℕ → EventInput → String → StoredOperationRecord
extended i before n input timestamp = record before {
  events = before.events ++ event_after i n input timestamp ∷ [];
}

module _ (p : Platform) where
  -- What a prepared record has passed.
  pub prepare-eq-ok :
      (i : String) (before : StoredOperationRecord) (current : Option Operation) (n : ℕ)
      (input : EventInput) (timestamp : String) (next : LoadedRecord)
      → prepare p i before current n input timestamp ≡ ok next
      → (p.is_timestamp timestamp ≡ true)
        × (next.stored ≡ extended i before n input timestamp)
        × (decode_record next.stored i ≡ ok next.stored)
        × (reduce_operation p current (event_after i n input timestamp) ≡ ok next.operation)
  unfolding prepare make_event
  prepare-eq-ok i before current n input timestamp next h =
      ground (arith, decode_record-eq-ok (extended i before n input timestamp) i next.stored)

  -- What an opened record has passed.
  pub open_record-eq-ok :
      (value : StoredOperationRecord) (i : String) (x : LoadedRecord)
      → open_record p value i ≡ ok x
      → (x.stored ≡ value)
        × (all (valid_event_envelope i) value.events ≡ true)
        × (replay_operation p value.events ≡ ok (some x.operation))
  unfolding open_record
  open_record-eq-ok value i x h = ground (arith, decode_record-eq-ok value i x.stored)

  -- One fresh event after a replayed history.
  replay-snoc :
      (events : List OperationEvent) (e : OperationEvent) (current : Option Operation)
      (next : Operation)
      → replay_operation p events ≡ ok current
      → p.is_timestamp e.timestamp ≡ true
      → any (str_eq e.event_id) (seen [] events) ≡ false
      → reduce_operation p current e ≡ ok next
      → replay_operation p (events ++ e ∷ []) ≡ ok (some next)
  unfolding replay_operation replay_from
  replay-snoc events e current next h dated fresh reduced =
      rw (replay_from-append p [] none events (e ∷ []), h, dated, fresh, reduced)

  -- What has been prepared after a replayed history opens again, as it was returned.
  pub prepare-open :
      (i j : String) (before : StoredOperationRecord) (current : Option Operation) (n : ℕ)
      (input : EventInput) (timestamp : String) (next : LoadedRecord)
      → replay_operation p before.events ≡ ok current
      → Numbered j 1 before.events
      → all (valid_event_envelope i) before.events ≡ true
      → n ≡ length before.events
      → prepare p i before current n input timestamp ≡ ok next
      → open_record p next.stored i ≡ ok next
  unfolding open_record event_after
  prepare-open i j before current n input timestamp next replayed numbered enveloped counted h =
      let (dated, appended, decoded, reduced) =
        prepare-eq-ok i before current n input timestamp next h in
      let e = event_after i n input timestamp in
      let below : Below i (n + 1) (seen [] before.events) =
        subst (λ k. Below i k (seen [] before.events)) (omega arith)
          (Below-seen i j 1 [] before.events tt numbered enveloped) in
      let again : replay_operation p next.stored.events ≡ ok (some next.operation) =
        subst (λ x. replay_operation p x.events ≡ ok (some next.operation)) (sym appended)
          (replay-snoc before.events e current next.operation replayed dated
            (Below-fresh i (n + 1) (seen [] before.events) below) reduced) in
      rw (decoded, again)

  -- A loaded record is one that opens as itself.
  abbrev pub Opened : String → Option LoadedRecord → Type 0
  Opened i none = Unit
  Opened i (some l) = open_record p l.stored i ≡ ok l

  found-Opened :
      (i : String) (required : Bool) (found : Option StoredOperationRecord)
      (loaded : Option LoadedRecord)
      → open_found p required i found ≡ ok loaded
      → Opened i loaded
  found-Opened i true none loaded h = cc
  found-Opened i false none none h = tt
  found-Opened i false none (some l) h = cc
  found-Opened i required (some value) none h =
      let (l, _, e) = >>=-eq-ok (open_record p value i) (λ x. ok (some x)) h in cc
  found-Opened i required (some value) (some x) h =
      let (l, opened, e) = >>=-eq-ok (open_record p value i) (λ x. ok (some x)) h in
      let same : l ≡ x = cc in
      let here : open_record p value i ≡ ok x =
        subst (λ y. open_record p value i ≡ ok y) same opened in
      subst (λ v. open_record p v i ≡ ok x) (sym (open_record-eq-ok value i x here).0) here

  -- The same of a record as `load` returns it.
  pub prepare_loaded-open :
      (i : String) (loaded : Option LoadedRecord) (input : EventInput) (timestamp : String)
      (next : LoadedRecord)
      → Opened i loaded
      → prepare_loaded p i loaded input timestamp ≡ ok next
      → open_record p next.stored i ≡ ok next
  unfolding prepare_loaded replay_operation replay_from
  prepare_loaded-open i none input timestamp next o h =
      prepare-open i i
        (record { schema_version = event_schema_version; operation_id = i; events = [] }) none 0
        input timestamp next refl tt refl refl h
  prepare_loaded-open i (some l) input timestamp next o h =
      let (_, enveloped, replayed) = open_record-eq-ok l.stored i l o in
      let (numbered, counted) = replay_numbers p l.stored.events replayed in
      prepare-open i l.operation.operation_id
        (record {
          schema_version = event_schema_version;
          operation_id = i;
          events = l.stored.events;
        })
        (some l.operation) l.operation.state_seq input timestamp next replayed numbered enveloped
        counted h

  -- And of the record that the acceptance of a Result extends.
  pub prepare_stored-open :
      (i : String) (l : LoadedRecord) (input : EventInput) (timestamp : String)
      (next : LoadedRecord)
      → Opened i (some l)
      → prepare p i l.stored (some l.operation) l.operation.state_seq input timestamp ≡ ok next
      → open_record p next.stored i ≡ ok next
  prepare_stored-open i l input timestamp next o h =
      let (_, enveloped, replayed) = open_record-eq-ok l.stored i l o in
      let (numbered, counted) = replay_numbers p l.stored.events replayed in
      prepare-open i l.operation.operation_id l.stored (some l.operation) l.operation.state_seq
        input timestamp next replayed numbered enveloped counted h

  module _ {S : Type 0} (b : Storage S) where
    -- What `load` returns has been opened.
    pub load-Opened :
        (s : S) (i : String) (required : Bool) (loaded : Option LoadedRecord)
        → load p b s i required ≡ ok loaded
        → Opened i loaded
    unfolding load
    load-Opened s i required loaded h =
        let (found, _, opened) = >>=-eq-ok (b.read_record s i) (open_found p required i) h in
        found-Opened i required found loaded opened

    -- A stored record that opens is loaded, whether or not one is required.
    pub load-read :
        (s : S) (i : String) (required : Bool) (l : LoadedRecord)
        → b.read_record s i ≡ ok (some l.stored)
        → open_record p l.stored i ≡ ok l
        → load p b s i required ≡ ok (some l)
    unfolding load
    load-read s i required l r o = rw (r, o)

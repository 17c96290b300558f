-- ===== src/Runtime/Steps.antt =====
-- src/internal/runtime.ts: single steps of the runtime, with a storage that writes and a clock
-- that tells the time.
use mathlib.Core.Path.{subst}
use pions.Prelude.{
  ℕ, ◌+◌, ◌&&◌, not, ◌≡◌, refl, sym, ap, String, true, false, some, non_empty, arith,
}
use pions.Except.{Except, ok, err}
use pions.Platform.{Platform}
use pions.Text.{is_safe_integer}
use pions.Operation.{Operation, EventInput}
use pions.Codec.Schema.{event_schema}
use pions.Reducer.Guards.{is_terminal}
use pions.Reducer.{dispatch, is_request, is_cleanup_event}
use pions.Codec.{StoredOperationRecord}
use pions.OperationReader.{ReadError}
use pions.Store.Backend.{Storage, StorageLaws}
use pions.Store.Progress.{IsAppendable, append_event_succeeds}
use pions.Store.Versions.{snapshot_of_loaded}
use pions.Store.{event_after, LoadedRecord, load, read}
use pions.Store
use pions.Runtime.{World, Run, ◌>>=◌, tried, attempt, get_operation, advance}

-- The step succeeds, with a value and a world of which P holds.
abbrev pub Ends : {S A : Type 0} → Run S A → World S → (A → World S → Type 0) → Type 0
Ends {A = A} m w P = (a : A) × ((m w).0 ≡ ok a) × P a (m w).1

bind_ok :
    {S A B : Type 0} (f : A → Run S B) (w' : World S) (r : Except ReadError A) (a : A)
    → r ≡ ok a
    → elim r as (λ _. Except ReadError B × World S) [ ok x ↦ f x w' | err e ↦ (err e, w') ] ≡ f a w'
bind_ok f w' (ok x) a h = let e : x ≡ a = cc in ap (λ y. f y w') e
bind_ok f w' (err x) a h = cc

pub Ends-bind :
    {S A B : Type 0} (m : Run S A) (f : A → Run S B) (w : World S) (P : A → World S → Type 0)
    (Q : B → World S → Type 0)
    → Ends m w P
    → ((a : A) (w' : World S) → P a w' → Ends (f a) w' Q)
    → Ends (m >>= f) w Q
Ends-bind {B = B} m f w P Q (a, returned, holds) next =
    subst (λ r. (x : B) × (r.0 ≡ ok x) × Q x r.1) (sym (bind_ok f (m w).1 (m w).0 a returned))
      (next a (m w).1 holds)

pub Ends-attempt :
    {S A B : Type 0} (m : Run S A) (f : A → Run S B) (handle : ReadError → Run S B) (w : World S)
    (P : A → World S → Type 0) (Q : B → World S → Type 0)
    → Ends m w P
    → ((a : A) (w' : World S) → P a w' → Ends (f a) w' Q)
    → Ends (attempt m f handle) w Q
Ends-attempt m f handle w P Q (a, returned, holds) next =
    subst (λ r. Ends (tried r f handle) (m w).1 Q) (sym returned) (next a (m w).1 holds)

module _ (p : Platform) {S : Type 0} (b : Storage S) (clock : ℕ → String)
    (operation_id : String) where
  -- The record loads, with this Operation.
  abbrev pub IsStored : Operation → World S → Type 0
  IsStored o w =
      (l : LoadedRecord) × (load p b w.storage operation_id true ≡ ok (some l)) × (l.operation ≡ o)

  -- Writes succeed, and the clock gives times.
  pub record IsReliable : Type 0 where
    pub writes :
        (s : S) (x : StoredOperationRecord) → (b.write_record s operation_id x false).1 ≡ true
    pub real : (n : ℕ) → p.is_timestamp (clock n) ≡ true
    pub dated : (n : ℕ) → non_empty (clock n) ≡ true
    pub named : non_empty operation_id ≡ true

  -- What is left to show of an event, with a clock that tells the time.
  pub clocked-IsAppendable :
      IsReliable
      → (o : Operation) (n : ℕ) (input : EventInput) (next : Operation)
      → is_safe_integer (o.state_seq + 1) ≡ true
      → event_schema input ≡ true
      → is_request input ≡ false
      → is_terminal o.state && not (is_cleanup_event input) ≡ false
      → dispatch p o (event_after operation_id o.state_seq input (clock n)).metadata input ≡ ok next
      → IsAppendable p operation_id o input (clock n) next
  clocked-IsAppendable r o n input next safe schema no_request alive legal = record {
    named = r.named;
    dated = r.dated n;
    real = r.real n;
    in_schema = schema;
    safe = safe;
    no_request = no_request;
    alive = alive;
    legal = legal;
  }

  pub get_operation-Ends :
      (o : Operation) (w : World S)
      → IsStored o w
      → Ends (get_operation p b clock operation_id) w (λ a w'. (a ≡ o) × IsStored o w')
  unfolding get_operation read
  get_operation-Ends o w (l, loaded, same) =
      let (x, snapped, of_l) = snapshot_of_loaded p b w.storage operation_id l loaded in
      (o, ground arith, (refl, (l, loaded, same)))

  pub advance-Ends :
      (laws : StorageLaws b) (o next : Operation) (intent : EventInput) (w : World S)
      → IsReliable
      → IsStored o w
      → IsAppendable p operation_id o intent (clock w.ticks) next
      → Ends (advance p b clock operation_id intent) w (λ a w'. (a ≡ next) × IsStored next w')
  unfolding advance Store.advance
  advance-Ends laws o next intent w r (l, loaded, same) a =
      let (x, made, appended, reloaded) =
        append_event_succeeds p b laws w.storage operation_id l next intent (clock w.ticks) loaded
          (subst (λ y. IsAppendable p operation_id y intent (clock w.ticks) next) (sym same) a)
          r.writes in
      let s' = (Store.append_event p b w.storage operation_id intent (clock w.ticks)).1 in
      let (y, snapped, of_x) = snapshot_of_loaded p b s' operation_id x reloaded in
      (next, ground arith, (refl, (x, reloaded, made)))

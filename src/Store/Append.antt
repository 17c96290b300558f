-- ===== src/Store/Append.antt =====
-- src/internal/event-store/store.ts: the storage after `appendEvent`.
use mathlib.Core.Path.{subst}
use pions.Prelude.{
  ◌≡◌, refl, sym, ◌⊎◌, inl, inr, ap, String, Bool, true, false, not, Option, some, arith, is_some,
  if◌then◌else◌,
}
use pions.Except.{Except, ok, err, Except-cases}
use pions.Platform.{Platform}
use pions.Operation.{EventInput}
use pions.Reducer.{is_request}
use pions.Codec.{StoreErrorCode, write_failed}
use pions.Store.Backend.{Storage, StorageLaws}
use pions.Store.{LoadedRecord, prepare_loaded, load, append_loaded, append_event}
use pions.Store.Reopen.{Opened, prepare_loaded-open, load-Opened, load-read}

-- An outcome tells whether the write behind it succeeded.
written_ok :
    (m : Except StoreErrorCode LoadedRecord) (t : Bool) (x next : LoadedRecord)
    → m ≡ (if t then ok x else err write_failed)
    → m ≡ ok next
    → (t ≡ true) × (x ≡ next)
written_ok m t x next a h = ground arith

written_err :
    (m : Except StoreErrorCode LoadedRecord) (t : Bool) (x : LoadedRecord) (e : StoreErrorCode)
    → m ≡ (if t then ok x else err write_failed)
    → m ≡ err e
    → (t ≡ false) × (e ≡ write_failed)
written_err m t x e a h = ground arith

clash {ℓ κ μ} :
    {E : Type ℓ} {A : Type κ} {B : Type μ} {m : Except E A} {a : A} {e : E}
    → m ≡ ok a
    → m ≡ err e
    → B
clash h k = cc

module _ (p : Platform) {S : Type 0} (b : Storage S) (laws : StorageLaws b) where
  -- How an append ends: it is refused with nothing written, or a prepared record is written.
  abbrev Ending : S → String → EventInput → String → Except StoreErrorCode LoadedRecord × S → Type 0
  Ending s i input timestamp r =
      ((e : StoreErrorCode) × (r ≡ (err e, s)))
      ⊎ ((loaded : Option LoadedRecord) × (next : LoadedRecord) × (create : Bool) × (load p b s i
              (not (is_request input))
            ≡ ok loaded)
          × (prepare_loaded p i loaded input timestamp ≡ ok next)
          × (r.0
              ≡ (if (b.write_record s i next.stored create).1 then ok next else err write_failed))
          × (r.1 ≡ (b.write_record s i next.stored create).0))

  was_open :
      (s : S) (i : String) (input : EventInput) (loaded : Option LoadedRecord)
      → load p b s i (not (is_request input)) ≡ ok loaded
      → Opened p i loaded
  was_open s i input loaded = load-Opened p b s i (not (is_request input)) loaded

  append_loaded-Ending :
      (s : S) (i : String) (loaded : Option LoadedRecord) (input : EventInput) (timestamp : String)
      → load p b s i (not (is_request input)) ≡ ok loaded
      → Ending s i input timestamp (append_loaded p b s i loaded input timestamp)
  unfolding append_loaded
  append_loaded-Ending s i loaded input timestamp opens =
      elim (Except-cases (prepare_loaded p i loaded input timestamp)) [
        | inr (e, bad) ↦ inl (e, rw (bad, append_loaded))
        | inl (next, good) ↦ inr (
          loaded,
          next,
          not (is_some loaded),
          opens,
          good,
          rw (good, append_loaded),
          rw (good, append_loaded),
        )
      ]

  append_event-opened :
      (s : S) (i : String) (input : EventInput) (timestamp : String) (loaded : Option LoadedRecord)
      → load p b s i (not (is_request input)) ≡ ok loaded
      → append_event p b s i input timestamp ≡ append_loaded p b s i loaded input timestamp
  unfolding append_event
  append_event-opened s i input timestamp loaded good = rw (good, append_event) refl

  append_event-Ending :
      (s : S) (i : String) (input : EventInput) (timestamp : String)
      → Ending s i input timestamp (append_event p b s i input timestamp)
  unfolding append_event
  append_event-Ending s i input timestamp =
      elim (Except-cases (load p b s i (not (is_request input)))) [
        | inr (e, bad) ↦ inl (e, rw (bad, append_event))
        | inl (loaded, good) ↦
            subst (Ending s i input timestamp)
              (sym (append_event-opened s i input timestamp loaded good))
              (append_loaded-Ending s i loaded input timestamp good)
      ]

  -- An event that has been appended is in the record: loading it gives what was returned.
  pub append_event_reloads :
      (s : S) (i : String) (input : EventInput) (timestamp : String) (next : LoadedRecord)
      → (append_event p b s i input timestamp).0 ≡ ok next
      → load p b (append_event p b s i input timestamp).1 i true ≡ ok (some next)
  append_event_reloads s i input timestamp next h = elim (append_event-Ending s i input timestamp) [
    | inl (e, bad) ↦ clash h (ap (λ r. r.0) bad)
    | inr (loaded, x, create, opens, good, outcome, state) ↦
        let (written, same) =
          written_ok _ (b.write_record s i x.stored create).1 x next outcome h in
        rw state (
          subst (λ y. load p b (b.write_record s i x.stored create).0 i true ≡ ok (some y)) same
            (load-read p b (b.write_record s i x.stored create).0 i true x
              (laws.read-write s i x.stored create written)
              (prepare_loaded-open p i loaded input timestamp x (was_open s i input loaded opens)
                good)))
  ]

  -- A failed append, other than a failed write, leaves the storage as it was. After a failed write
  -- the record is as it was, or it loads as the record that was there before, extended by the event:
  -- what `appendLoaded` makes of the loaded record, the event and the time.
  pub append_event_failed :
      (s : S) (i : String) (input : EventInput) (timestamp : String) (e : StoreErrorCode)
      → (append_event p b s i input timestamp).0 ≡ err e
      → ((append_event p b s i input timestamp).1 ≡ s)
        ⊎ ((e ≡ write_failed)
            × ((b.read_record (append_event p b s i input timestamp).1 i ≡ b.read_record s i)
                ⊎ ((loaded : Option LoadedRecord) × (next : LoadedRecord) × (load p b s i
                        (not (is_request input))
                      ≡ ok loaded)
                    × (prepare_loaded p i loaded input timestamp ≡ ok next)
                    × (load p b (append_event p b s i input timestamp).1 i true ≡ ok (some next)))))
  append_event_failed s i input timestamp e h = elim (append_event-Ending s i input timestamp) [
    | inl (_, bad) ↦ inl (ap (λ r. r.1) bad)
    | inr (loaded, x, create, opens, good, outcome, state) ↦
        let w = b.write_record s i x.stored create in
        let (unwritten, cause) = written_err _ w.1 x e outcome h in
        inr (
          cause,
          rw state (elim (laws.read-write_failed s i x.stored create unwritten) [
            | inl old ↦ inl old
            | inr new ↦ inr (
              loaded,
              x,
              opens,
              good,
              load-read p b w.0 i true x new (
                  prepare_loaded-open p i loaded input timestamp x (was_open s i input loaded opens)
                    good),
            )
          ]),
        )
  ]

-- ===== src/WorkerExtension/StartStore.antt =====
-- src/worker-extension.ts: `FileStartInstructionAcceptanceStore`. A call of the file system may fail;
-- which ones do in the writings and readings to come is a part of the state. The temporary file of a
-- replacement has a name of its own and is read by nobody, so it is left out.
use pions.Prelude.{
  String, Bool, true, false, not, ◌&&◌, ◌||◌, Option, none, some, List, [], ◌∷◌, ltb, ◌==◌, str_eq,
  non_empty, is_some, if◌then◌else◌,
}
use pions.Except.{Except, ok, err}
use pions.Text.{is_safe_integer}
use pions.Protocol.{ProtocolError}
use pions.Protocol.Frames.{Wire, StartInstruction, same_start}
use pions.Protocol.Control.{validate_start_instruction}
use pions.Protocol.Worker.{
  DurableDeliveryAuthority, StoredStart, no_start, unknown_start, stored_start,
  StartInstructionAcceptanceStore,
}

-- What a file holds: a value, or what is no JSON of a value.
pub data Content (A : Type 0) : Type 0 where
  whole : A → Content A
  torn : Content A

-- A file that is not there is `none`.
abbrev pub File : Type 0 → Type 0
File A = Option (Content A)

-- Which calls of one `writeDurableJson` would throw if they are made. For `writeFileSync` it is also
-- told whether all of the JSON is written nonetheless. `close_again_fails` is the `closeSync` of the
-- `catch`, `directory_fails` the opening, syncing or closing of the directory.
pub record Faults : Type 0 where
  pub open_fails : Bool
  pub write_fails : Option Bool
  pub sync_fails : Bool
  pub close_fails : Bool
  pub close_again_fails : Bool
  pub rename_fails : Bool
  pub directory_fails : Bool

abbrev pub no_faults : Faults
no_faults = record {
  open_fails = false;
  write_fails = none;
  sync_fails = false;
  close_fails = false;
  close_again_fails = false;
  rename_fails = false;
  directory_fails = false;
}

-- The `catch`, where the descriptor is still set: `none` is an error that leaves the function.
abbrev pub closed_again : Faults → Option Bool
closed_again faults = if faults.close_again_fails then none else some false

-- Whether a call on the open file throws, so that its descriptor is still set in the `catch`.
abbrev pub descriptor_left : Faults → Bool
descriptor_left faults = is_some faults.write_fails || faults.sync_fails || faults.close_fails

module _ {A : Type 0} where
  -- What is in a file that has been created, when `writeFileSync` has ended.
  abbrev pub written_content : A → Option Bool → Content A
  written_content value none = whole value
  written_content value (some true) = whole value
  written_content value (some false) = torn

  -- `writeDurableJson` of a new file, which must not be there.
  abbrev pub write_new : Faults → A → File A → Option Bool × File A
  write_new faults value (some content) = (some false, some content)
  write_new faults value none =
      if faults.open_fails
      then (some false, none)
      else if descriptor_left faults
      then (closed_again faults, some (written_content value faults.write_fails))
      else (some (not faults.directory_fails), some (whole value))

  -- `writeDurableJson` beside a file, which is then replaced.
  abbrev pub write_over : Faults → A → File A → Option Bool × File A
  write_over faults value file =
      if faults.open_fails
      then (some false, file)
      else if descriptor_left faults
      then (closed_again faults, file)
      else if faults.rename_fails
      then (some false, file)
      else (some (not faults.directory_fails), some (whole value))

-- The files, and which calls of the writings and readings to come fail; those beyond the lists do
-- not. A reading of a file that is not there may fail otherwise than with ENOENT.
pub record StartFiles : Type 0 where
  pub start : File StartInstruction
  pub authority : File DurableDeliveryAuthority
  pub writings : List Faults
  pub readings : List Bool

abbrev pub next_writing : List Faults → Faults
next_writing [] = no_faults
next_writing (faults ∷ more) = faults

abbrev pub next_reading : List Bool → Bool
next_reading [] = false
next_reading (fails ∷ more) = fails

abbrev pub later : {A : Type 0} → List A → List A
later [] = []
later (x ∷ more) = more

abbrev same_dispatcher : Option String → Option String → Bool
same_dispatcher none none = true
same_dispatcher (some a) (some b) = str_eq a b
same_dispatcher _ _ = false

abbrev same_authority : Option DurableDeliveryAuthority → DurableDeliveryAuthority → Bool
same_authority none authority = false
same_authority (some stored) authority =
    stored.delivery_generation == authority.delivery_generation
    && same_dispatcher stored.dispatcher_id authority.dispatcher_id

abbrev is_named : Option String → Bool
is_named none = true
is_named (some dispatcher_id) = non_empty dispatcher_id

abbrev pub is_stored : StoredStart → StartInstruction → Bool
is_stored (stored_start stored) instruction = same_start stored instruction
is_stored _ instruction = false

module _ (wire : Wire) where
  -- `decodeStartInstruction`, and what `load` makes of its error.
  abbrev pub decoded : StartInstruction → Except ProtocolError (Unit {0}) → StoredStart
  decoded instruction (ok _) = stored_start instruction
  decoded instruction (err _) = unknown_start

  abbrev pub load_start : Bool → File StartInstruction → StoredStart
  load_start true file = unknown_start
  load_start false none = no_start
  load_start false (some torn) = unknown_start
  load_start false (some (whole instruction)) =
      decoded instruction (validate_start_instruction wire instruction (tt {0})).0

  abbrev pub load_authority : Bool → File DurableDeliveryAuthority → Option DurableDeliveryAuthority
  load_authority true file = none
  load_authority false none = some (record { delivery_generation = 1; dispatcher_id = none })
  load_authority false (some torn) = none
  load_authority false (some (whole stored)) =
      if not (is_safe_integer stored.delivery_generation)
        || ltb stored.delivery_generation 1
        || not (is_named stored.dispatcher_id)
      then none
      else some stored

  abbrev pub load_start_file : StartFiles → StoredStart × StartFiles
  load_start_file s =
      (load_start (next_reading s.readings) s.start, record s { readings = later s.readings })

  abbrev pub load_authority_file : StartFiles → Option DurableDeliveryAuthority × StartFiles
  load_authority_file s = (
    load_authority (next_reading s.readings) s.authority,
    record s { readings = later s.readings },
  )

  -- What a save answers when the writing has ended: the file is read where it has not succeeded.
  abbrev pub saved_start : StartInstruction → Option Bool → StartFiles → Option Bool × StartFiles
  saved_start instruction none s = (none, s)
  saved_start instruction (some true) s = (some true, s)
  saved_start instruction (some false) s =
      let (stored, read) = load_start_file s in (some (is_stored stored instruction), read)

  abbrev pub saved_authority :
      DurableDeliveryAuthority → Option Bool → StartFiles → Option Bool × StartFiles
  saved_authority authority none s = (none, s)
  saved_authority authority (some true) s = (some true, s)
  saved_authority authority (some false) s =
      let (stored, read) = load_authority_file s in (some (same_authority stored authority), read)

  abbrev pub save_start_file : StartFiles → StartInstruction → Option Bool × StartFiles
  save_start_file s instruction =
      let (outcome, start) = write_new (next_writing s.writings) instruction s.start in
      saved_start instruction outcome (record s { start = start; writings = later s.writings })

  abbrev pub save_authority_file : StartFiles → DurableDeliveryAuthority → Option Bool × StartFiles
  save_authority_file s authority =
      let (outcome, file) = write_over (next_writing s.writings) authority s.authority in
      saved_authority authority outcome (record s { authority = file; writings = later s.writings })

  -- `FileStartInstructionAcceptanceStore`
  abbrev pub file_starts : StartInstructionAcceptanceStore StartFiles
  file_starts = record {
    load = load_start_file;
    save = save_start_file;
    load_delivery_authority = load_authority_file;
    save_delivery_authority = save_authority_file;
  }

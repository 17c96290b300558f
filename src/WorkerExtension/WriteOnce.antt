-- ===== src/WorkerExtension/WriteOnce.antt =====
-- src/worker-extension.ts: the file of the start instruction, through writings, readings and failures.
use pions.Prelude.{
  ℕ, ◌+◌, ◌≤◌, String, ◌≡◌, refl, ◌∙◌, Bool, true, false, Option, none, some, is_some, arith, ap,
}
use pions.Except.{Except, ok, err}
use pions.Protocol.{ProtocolError, ProtocolAuthority, ProtocolLimits}
use pions.Protocol.Frames.{Wire, StartInstruction}
use pions.Protocol.Control.{validate_start_instruction}
use pions.Protocol.Worker.{DurableDeliveryAuthority, no_start}
use pions.Protocol.Worker.Durable.{count_of, StartStoreLaws, Served, Served-once}
use pions.WorkerExtension.StartStore.{
  whole, torn, File, Faults, write_new, write_over, StartFiles, next_writing, next_reading, later,
  is_stored, decoded, load_start, saved_start, saved_authority, file_starts,
}

-- A writing keeps a file that is there.
write_new-kept :
    (faults : Faults) (i : StartInstruction) (file : File StartInstruction)
    → is_some file ≡ true
    → is_some (write_new faults i file).1 ≡ true
write_new-kept faults i none h = absurd cc
write_new-kept faults i (some content) h = refl

-- A writing that succeeds leaves a file.
write_new-done :
    (faults : Faults) (i : StartInstruction) (file : File StartInstruction)
    → (write_new faults i file).0 ≡ some true
    → is_some (write_new faults i file).1 ≡ true
write_new-done faults i (some content) h = refl
write_new-done faults i none h = ground arith

module _ (wire : Wire) where
  decoded-stored :
      (i : StartInstruction) (x : Except ProtocolError (Unit {0})) → decoded wire i x ≡ no_start → ⊥
  decoded-stored i (ok _) h = cc
  decoded-stored i (err _) h = cc

  -- Only a file that is not there is loaded as `none`.
  load_start-free :
      (fails : Bool) (file : File StartInstruction)
      → load_start wire fails file ≡ no_start
      → is_some file ≡ false
  load_start-free true file h = cc
  load_start-free false none h = refl
  load_start-free false (some torn) h = cc
  load_start-free false (some (whole i)) h =
      absurd (decoded-stored i (validate_start_instruction wire i (tt {0})).0 h)

  load_start-stored :
      (fails : Bool) (file : File StartInstruction) (i : StartInstruction)
      → is_stored (load_start wire fails file) i ≡ true
      → is_some file ≡ true
  load_start-stored true file i h = absurd cc
  load_start-stored false none i h = absurd cc
  load_start-stored false (some content) i h = refl

  -- What a save does after its writing leaves the file of the start instruction.
  saved_start-start :
      (i : StartInstruction) (outcome : Option Bool) (s : StartFiles)
      → (saved_start wire i outcome s).1.start ≡ s.start
  saved_start-start i none s = refl
  saved_start-start i (some true) s = refl
  saved_start-start i (some false) s = refl

  saved_authority-start :
      (a : DurableDeliveryAuthority) (outcome : Option Bool) (s : StartFiles)
      → (saved_authority wire a outcome s).1.start ≡ s.start
  saved_authority-start a none s = refl
  saved_authority-start a (some true) s = refl
  saved_authority-start a (some false) s = refl

  -- A save that succeeds has written the file, or has read it.
  saved_start-there :
      (i : StartInstruction) (outcome : Option Bool) (s : StartFiles)
      → (outcome ≡ some true → is_some s.start ≡ true)
      → (saved_start wire i outcome s).0 ≡ some true
      → is_some s.start ≡ true
  saved_start-there i none s done h = cc
  saved_start-there i (some true) s done h = done refl
  saved_start-there i (some false) s done h =
      load_start-stored (next_reading s.readings) s.start i (ground (arith, h))

  abbrev there : {A : Type 0} {x y : Option A} → x ≡ y → is_some y ≡ true → is_some x ≡ true
  there same h = ap is_some same ∙ h

  -- Whichever calls of the file system fail: what is stored stays, what is said to be saved is stored,
  -- and only a file that is not there is loaded as `none`.
  pub file_starts-StartStoreLaws : StartStoreLaws (file_starts wire)
  file_starts-StartStoreLaws = record {
    holds = λ s. is_some s.start;
    loaded = λ s h. h;
    read = λ s h. h;
    kept = λ s i h.
        let (outcome, start) = write_new (next_writing s.writings) i s.start in
        there
          (saved_start-start i outcome (record s { start = start; writings = later s.writings }))
          (write_new-kept (next_writing s.writings) i s.start h);
    apart = λ s a h.
        let (outcome, file) = write_over (next_writing s.writings) a s.authority in
        there
          (saved_authority-start a outcome
            (record s { authority = file; writings = later s.writings }))
          h;
    saved = λ s i h.
        let (outcome, start) = write_new (next_writing s.writings) i s.start in
        let written : StartFiles = record s { start = start; writings = later s.writings } in
        there (saved_start-start i outcome written) (
          saved_start-there i outcome written (write_new-done (next_writing s.writings) i s.start)
            h);
    free = λ s h. load_start-free (next_reading s.readings) s.start h;
  }

  -- However often a Worker connects, whatever it receives, also where that throws, and whichever calls
  -- of the file system fail in the writings and readings of its files: one start instruction is
  -- reported as accepted at most, and none if the file of the start instruction was there at first; it
  -- is there once one has been reported.
  pub Served-file_starts :
      (authority : ProtocolAuthority) (limits : ProtocolLimits) (now : String)
      (first s : StartFiles) (n : ℕ)
      → Served wire authority limits now (file_starts wire) first n s
      → n + count_of (is_some first.start) ≤ count_of (is_some s.start)
  unfolding file_starts-StartStoreLaws
  Served-file_starts authority limits now first s n served =
      Served-once wire authority limits now (file_starts wire) file_starts-StartStoreLaws first s n
        served

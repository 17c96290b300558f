-- ===== src/Protocol/Frames.antt =====
-- src/internal/worker-protocol.ts: the frames that the schemas describe, and what a line may hold.
-- `protocolVersion` and `type` are not fields here: a frame has the version of the program, and its
-- constructor is its type.
use pions.Prelude.{ℕ, String, Bool, true, false, ◌&&◌, Option, none, some, List, str_eq}
use pions.Types.Configuration.{ObservedWorkerConfig}
use pions.Types.Evidence.{StartInstructionReference, AcceptanceState, PiUsage, PiToolUse}
use pions.StartInstruction.{same_instruction}

pub record StartInstruction : Type 0 where
  pub reference : StartInstructionReference
  pub open reference use *
  pub deadline : Option String

abbrev same_deadline : Option String → Option String → Bool
same_deadline none none = true
same_deadline (some s) (some t) = str_eq s t
same_deadline _ _ = false

-- `isDeepStrictEqual` of two start instructions
unfoldable pub same_start : StartInstruction → StartInstruction → Bool
same_start i j = same_instruction i.reference j.reference && same_deadline i.deadline j.deadline

pub data BeginRejectionReason : Type 0 where
  conflict worker_mismatch expired stale_generation acceptance_unknown : BeginRejectionReason

-- `CommonWorkerFrameFields`
pub record Common : Type 0 where
  pub operation_id : String
  pub capability : String
  pub sequence_number : ℕ

pub data WorkerBody : Type 0 where
  hello : ℕ → String → String → WorkerBody
  started : String → ObservedWorkerConfig → WorkerBody
  result_begin : String → ℕ → String → WorkerBody
  result_chunk result_commit : String → WorkerBody
  done : PiUsage → List PiToolUse → WorkerBody
  failed : String → PiUsage → List PiToolUse → WorkerBody
  cancelled : WorkerBody
  begin_accepted begin_ack : StartInstruction → WorkerBody
  begin_rejected : StartInstruction → BeginRejectionReason → WorkerBody
  generation_updated : ℕ → AcceptanceState → Option StartInstruction → WorkerBody

pub record WorkerFrame : Type 0 where
  pub common : Common
  pub body : WorkerBody

pub data HostBody : Type 0 where
  begin begin_acceptance_observed : StartInstruction → HostBody
  delivery_generation_update : String → ℕ → HostBody
  cancel : Option String → Option ℕ → HostBody

pub record Acknowledgement : Type 0 where
  pub operation_id : String
  pub acceptance_id : String
  pub digest : String
  pub event_sequence_number : ℕ

pub data HostFrame : Type 0 where
  control : Common → HostBody → HostFrame
  ack : Acknowledgement → HostFrame

-- What a line holds: no JSON, a frame of another version, `null`, a value that the schema of its
-- `type` refuses (and whether that is the type of a host's control frame), or a frame.
pub data Parsed (F : Type 0) : Type 0 where
  not_json other_version null_value : Parsed F
  shapeless : Bool → Parsed F
  well_formed : F → Parsed F

-- What is taken from Node: the lines of frames and what is read from a line, base64, the tests of a
-- deadline: that it is a date, and that a time has reached it.
pub record Wire : Type 0 where
  pub print_worker : WorkerFrame → List ℕ
  pub print_host : HostFrame → List ℕ
  pub parse_worker : List ℕ → Parsed WorkerFrame
  pub parse_host : List ℕ → Parsed HostFrame
  pub to_base64 : List ℕ → String
  pub from_base64 : String → List ℕ
  pub is_date : String → Bool
  pub is_reached : String → String → Bool

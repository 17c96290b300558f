-- ===== src/Store/Backend.antt =====
-- src/internal/event-store/store.ts: the abstract methods of `ValidatedEventStore`, over the state S
-- of what they store. A method that throws returns the error, or `false` for a write. The lock of
-- one Operation makes each method of the store run by itself, so a call is one step.
use pions.Prelude.{ℕ, String, ◌≡◌, ◌≢◌, ◌⊎◌, Bool, true, false, Option, some, List}
use pions.Except.{Except, ok}
use pions.Codec.{StoreErrorCode, StoredOperationRecord}

pub record Storage (S : Type 0) : Type 0 where
  pub read_record : S → String → Except StoreErrorCode (Option StoredOperationRecord)
  pub write_record : S → String → StoredOperationRecord → Bool → S × Bool
  pub list_operation_ids : S → Except StoreErrorCode (List String)
  pub write_result_body : S → String → List ℕ → S × Bool
  pub read_result_bytes : S → String → Except StoreErrorCode (Option (List ℕ))

-- What a store needs of its storage. A write that throws has either done nothing or done all of its
-- work, as when a file has been renamed and its directory cannot be synced.
pub record StorageLaws {S : Type 0} (b : Storage S) : Type 0 where
  pub read-write :
      (s : S) (i : String) (x : StoredOperationRecord) (create : Bool)
      → (b.write_record s i x create).1 ≡ true
      → b.read_record (b.write_record s i x create).0 i ≡ ok (some x)
  pub read-write_failed :
      (s : S) (i : String) (x : StoredOperationRecord) (create : Bool)
      → (b.write_record s i x create).1 ≡ false
      → (b.read_record (b.write_record s i x create).0 i ≡ b.read_record s i)
        ⊎ (b.read_record (b.write_record s i x create).0 i ≡ ok (some x))
  pub read-write_ne :
      (s : S) (i j : String) (x : StoredOperationRecord) (create : Bool)
      → i ≢ j
      → b.read_record (b.write_record s i x create).0 j ≡ b.read_record s j
  pub read-write_body :
      (s : S) (i j : String) (bytes : List ℕ)
      → b.read_record (b.write_result_body s i bytes).0 j ≡ b.read_record s j
  pub body-write_body :
      (s : S) (i : String) (bytes : List ℕ)
      → (b.write_result_body s i bytes).1 ≡ true
      → b.read_result_bytes (b.write_result_body s i bytes).0 i ≡ ok (some bytes)
  pub body-write_body_ne :
      (s : S) (i j : String) (bytes : List ℕ)
      → i ≢ j
      → b.read_result_bytes (b.write_result_body s i bytes).0 j ≡ b.read_result_bytes s j
  pub body-write :
      (s : S) (i j : String) (x : StoredOperationRecord) (create : Bool)
      → b.read_result_bytes (b.write_record s i x create).0 j ≡ b.read_result_bytes s j

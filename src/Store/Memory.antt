-- ===== src/Store/Memory.antt =====
-- src/internal/event-store/memory-storage.ts: `InMemoryEventStore`. A `Map` is an association list in
-- which the first entry of a key counts.
use text.Mathlib.TextPositions.{eq_refl}
use pions.Prelude.{
  ℕ, ◌+◌, ◌-◌, ◌/◌, ◌%◌, ltb, ◌==◌, ◌++◌, ◌≡◌, ◌≢◌, inl, refl, ap, String, Bool, true, false, ◌&&◌,
  Option, none, some, List, [], ◌∷◌, str_eq, eq_iff, is_some, arith, if◌then◌else◌, Bool-cases, inr,
}
use pions.Except.{ok}
use pions.Text.{codes}
use pions.Codec.{StoredOperationRecord}
use pions.Store.Backend.{Storage, StorageLaws}

module _ {ℓ} {V : Type ℓ} where
  -- `map.get(key)`
  unfoldable pub get : String → List (String × V) → Option V
  get key [] = none
  get key ((k, v) ∷ entries) = if str_eq k key then some v else get key entries

  -- `map.set(key, value)`
  unfoldable pub put : String → V → List (String × V) → List (String × V)
  put key value [] = (key, value) ∷ []
  put key value ((k, v) ∷ entries) =
      if str_eq k key then (key, value) ∷ entries else (k, v) ∷ put key value entries

  pub get-put :
      (key j : String) (value : V) (entries : List (String × V))
      → get j (put key value entries) ≡ (if str_eq key j then some value else get j entries)
  unfolding get put
  get-put key j value [] = refl
  get-put key j value ((k, v) ∷ entries) =
      ground (arith, eq_iff key j, eq_iff k key, eq_iff k j, get-put key j value entries)

  keys : List (String × V) → List String
  keys [] = []
  keys ((k, _) ∷ entries) = k ∷ keys entries

-- The UTF-16 code units of a row of code points.
utf16 : List ℕ → List ℕ
utf16 [] = []
utf16 (c ∷ cs) =
    (if ltb c 65536
      then c ∷ []
      else (55296 + (c - 65536) / 1024) ∷ (56320 + (c - 65536) % 1024) ∷ [])
    ++ utf16 cs

is_not_after : List ℕ → List ℕ → Bool
is_not_after [] units = true
is_not_after (a ∷ more) [] = false
is_not_after (a ∷ more) (b ∷ units) = if a == b then is_not_after more units else ltb a b

-- `ids.sort()`, by UTF-16 code units
place : String → List String → List String
unfolding utf16 is_not_after
place x [] = x ∷ []
place x (y ∷ ys) =
    if is_not_after (utf16 (codes x)) (utf16 (codes y)) then x ∷ y ∷ ys else y ∷ place x ys

sort : List String → List String
sort [] = []
sort (x ∷ xs) = place x (sort xs)

pub record InMemoryEventStore : Type 0 where
  pub records : List (String × StoredOperationRecord)
  pub result_bodies : List (String × List ℕ)

unfoldable pub write_record :
    InMemoryEventStore → String → StoredOperationRecord → Bool → InMemoryEventStore × Bool
write_record s operation_id value create =
    if create && is_some (get operation_id s.records)
    then (s, false)
    else (record s { records = put operation_id value s.records }, true)

unfoldable pub write_result_body : InMemoryEventStore → String → List ℕ → InMemoryEventStore × Bool
write_result_body s operation_id bytes =
    (record s { result_bodies = put operation_id bytes s.result_bodies }, true)

unfoldable pub memory_storage : Storage InMemoryEventStore
unfolding get put keys utf16 is_not_after place sort write_record write_result_body
memory_storage = record {
  read_record = λ s i. ok (get i s.records);
  write_record = write_record;
  list_operation_ids = λ s. ok (sort (keys s.records));
  write_result_body = write_result_body;
  read_result_bytes = λ s i. ok (get i s.result_bodies);
}

ne_test : (i j : String) → i ≢ j → str_eq i j ≡ false
ne_test i j h = elim (Bool-cases (str_eq i j)) [
  | inl same ↦ absurd (h ((eq_iff i j).0 same))
  | inr other ↦ other
]

module _ (s : InMemoryEventStore) (i : String) (x : StoredOperationRecord) (create : Bool) where
  write_done :
      (write_record s i x create).1 ≡ true → get i (write_record s i x create).0.records ≡ some x
  unfolding write_record
  write_done h = ground (arith, get-put i i x s.records, eq_refl i)

  write_refused : (write_record s i x create).1 ≡ false → (write_record s i x create).0 ≡ s
  unfolding write_record
  write_refused h = ground arith

  write_other :
      (j : String)
      → str_eq i j ≡ false
      → get j (write_record s i x create).0.records ≡ get j s.records
  unfolding write_record
  write_other j h = ground (arith, get-put i j x s.records)

  write_bodies : (write_record s i x create).0.result_bodies ≡ s.result_bodies
  unfolding write_record
  write_bodies = ground arith

-- The maps keep the laws that the store relies on.
pub memory_laws : StorageLaws memory_storage
unfolding memory_storage write_result_body
memory_laws = record {
  read-write = λ s i x create h. ap ok (write_done s i x create h);
  read-write_failed = λ s i x create h.
      inl (ap (λ (t : InMemoryEventStore). ok (get i t.records)) (write_refused s i x create h));
  read-write_ne = λ s i j x create h. ap ok (write_other s i x create j (ne_test i j h));
  read-write_body = λ s i j bytes. refl;
  body-write_body = λ s i bytes h. rw (get-put, eq_refl);
  body-write_body_ne = λ s i j bytes h. rw (get-put, ne_test i j h);
  body-write = λ s i j x create. ap (λ t. ok (get j t)) (write_bodies s i x create);
}

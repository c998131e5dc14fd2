-- ===== src/Live/Relay.antt =====
-- `uploadRelayChunk`, `listRelayChunks`, `createRelayChunkReadStream` and `acknowledgeRelayChunk`,
-- with `writeLiveTransferRelayChunk` of apps/api/src/storage/. A storage key is a number that the
-- driver makes afresh; an object is its size and checksum.
use liminalis.Common.{
  ℕ, Bool, true, false, not, ◌&&◌, Option, none, some, [], ◌∷◌, ltb, leb, ◌==◌, is_some,
  if◌then◌else◌,
}
use liminalis.Common.Exec.{
  bad_request, not_found, payload_too_large, database, guard, lift, gets, modify, pure, throw,
  or_throw, ◌>>=◌, ◌>>◌,
}
use liminalis.Common.Table.{Table, find, find_where, find_many, create, update, delete}
use liminalis.Schema.{
  RelayChunk, Handler, Database, sequence_not_positive, chunk_body_empty, chunk_too_large,
  chunk_not_found, record_not_found,
}
use liminalis.Live.Checks.{
  require_device, require_session, assert_participant, as_participant, assert_relay_active,
  resolve_counterpart,
}

-- The body of a request and the key that the driver gives to it.
pub record Body : Type 0 where
  pub storage_key : ℕ
  pub size : ℕ
  pub checksum : ℕ

abbrev pub remove_object : ℕ → Database → Database
remove_object key db = record db { objects = delete key db.objects }

-- A body above the limit leaves no object, and an empty one is removed again. `limit` is
-- `LIVE_RELAY_CHUNK_MAX_BYTES` or its default.
unfoldable pub write_relay_chunk : ℕ → Body → Handler (Unit {0})
unfolding lift modify ◌>>=◌ throw pure
write_relay_chunk limit body = do
  lift (guard (not (ltb limit body.size)) (payload_too_large chunk_too_large))
  modify (λ (db : Database). record db {
    objects =
        create body.storage_key (record { size = body.size; checksum = body.checksum }) db.objects;
  })
  if body.size == 0
      then (modify (remove_object body.storage_key) >> throw (bad_request chunk_body_empty))
      else pure tt

-- The unique key of a chunk.
abbrev pub is_chunk_at : ℕ → ℕ → ℕ → RelayChunk → Bool
is_chunk_at session_id sender_device_id sequence c =
    c.session_id == session_id && (c.sender_device_id == sender_device_id && c.sequence == sequence)

abbrev pub chunk_patch : ℕ → Body → RelayChunk → RelayChunk
chunk_patch recipient body row = record row {
  recipient_device_id = recipient;
  storage_key = body.storage_key;
  byte_size = body.size;
  checksum = body.checksum;
  received_at = none;
}

unfoldable pub upsert_chunk :
    ℕ → ℕ → ℕ → ℕ → ℕ → Body → Option (ℕ × RelayChunk) → Database → Database
upsert_chunk id session_id device_id recipient sequence body (some (old_id, old)) db = record db {
  live_chunks = update old_id (chunk_patch recipient body) db.live_chunks;
}
upsert_chunk id session_id device_id recipient sequence body none db = record db {
  live_chunks =
      create id
        (record {
          session_id = session_id;
          sender_device_id = device_id;
          recipient_device_id = recipient;
          sequence = sequence;
          storage_key = body.storage_key;
          byte_size = body.size;
          checksum = body.checksum;
          received_at = none;
        })
        db.live_chunks;
}

-- The object of the replaced chunk, if its key is another one.
unfoldable pub remove_previous : ℕ → Option (ℕ × RelayChunk) → Database → Database
remove_previous key none db = db
remove_previous key (some (id, old)) db =
    if old.storage_key == key then db else remove_object old.storage_key db

unfoldable pub upload_relay_chunk : ℕ → ℕ → ℕ → Option ℕ → ℕ → ℕ → Body → Handler RelayChunk
unfolding upsert_chunk remove_previous
upload_relay_chunk limit id user_id trusted_device_id session_id sequence body = do
  device_id ← require_device trusted_device_id
  lift (guard (leb 1 sequence) (bad_request sequence_not_positive))
  session ← require_session session_id
  lift (assert_participant session user_id device_id)
  lift (assert_relay_active session false)
  other ← lift (resolve_counterpart session user_id device_id)
  previous ← gets (λ db. find_where (is_chunk_at session_id device_id sequence) db.live_chunks)
  write_relay_chunk limit body
  modify (upsert_chunk id session_id device_id other.1 sequence body previous)
  written ← gets (λ db. find_where (is_chunk_at session_id device_id sequence) db.live_chunks)
  modify (remove_previous body.storage_key previous)
  row ← or_throw written (database record_not_found)
  pure row.1

-- The chunks that wait for a device, `orderBy: { sequence: 'asc' }`.
insert_by_sequence : ℕ × RelayChunk → Table RelayChunk → Table RelayChunk
insert_by_sequence x [] = x ∷ []
insert_by_sequence x (y ∷ ys) =
    if leb x.1.sequence y.1.sequence then x ∷ y ∷ ys else y ∷ insert_by_sequence x ys

unfoldable pub sort_by_sequence : Table RelayChunk → Table RelayChunk
unfolding insert_by_sequence
sort_by_sequence [] = []
sort_by_sequence (x ∷ xs) = insert_by_sequence x (sort_by_sequence xs)

abbrev pub waits_for : ℕ → ℕ → RelayChunk → Bool
waits_for session_id device_id c =
    c.session_id == session_id
    && (c.recipient_device_id == device_id && not (is_some c.received_at))

unfoldable pub list_relay_chunks : ℕ → Option ℕ → ℕ → Handler (Table RelayChunk)
list_relay_chunks user_id trusted_device_id session_id =
    as_participant user_id trusted_device_id session_id λ device_id session. do
      lift (assert_relay_active session true)
      gets (λ db. sort_by_sequence (find_many (waits_for session_id device_id) db.live_chunks))

-- `findFirst` by key, session and recipient.
own_chunk : ℕ → ℕ → Option RelayChunk → Option RelayChunk
own_chunk session_id device_id none = none
own_chunk session_id device_id (some c) =
    if c.session_id == session_id && c.recipient_device_id == device_id then some c else none

unfoldable pub require_own_chunk : ℕ → ℕ → ℕ → Handler RelayChunk
unfolding own_chunk gets or_throw ◌>>=◌
require_own_chunk chunk_id session_id device_id = do
  chunk ← gets (λ db. own_chunk session_id device_id (find chunk_id db.live_chunks))
  or_throw chunk (not_found chunk_not_found)

-- The stream is the object under the key; the answer is the key, the length and the sequence.
unfoldable pub create_relay_chunk_read_stream : ℕ → Option ℕ → ℕ → ℕ → Handler (ℕ × ℕ × ℕ)
create_relay_chunk_read_stream user_id trusted_device_id session_id chunk_id =
    as_participant user_id trusted_device_id session_id λ device_id session. do
      lift (assert_relay_active session true)
      chunk ← require_own_chunk chunk_id session_id device_id
      pure (chunk.storage_key, chunk.byte_size, chunk.sequence)

unfoldable pub acknowledge_relay_chunk : ℕ → ℕ → Option ℕ → ℕ → ℕ → Handler RelayChunk
acknowledge_relay_chunk now user_id trusted_device_id session_id chunk_id =
    as_participant user_id trusted_device_id session_id λ device_id session. do
      lift (assert_relay_active session true)
      require_own_chunk chunk_id session_id device_id
      modify (λ (db : Database). record db {
        live_chunks = update chunk_id (λ c. record c { received_at = some now }) db.live_chunks;
      })
      require_own_chunk chunk_id session_id device_id

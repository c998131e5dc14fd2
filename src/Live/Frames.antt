-- ===== src/Live/Frames.antt =====
-- What the parts of the handlers leave alone in the table of live sessions.
use liminalis.Common.{ℕ, ◌≡◌, refl, Option, none, some, arith, List, String}
use liminalis.Common.Exec.Leaves.{Leaves, leaves_rules}
use liminalis.Common.Table.{Table}
use liminalis.Schema.{ConfidentialityLevel, LiveSession, RelayChunk, Database, Handler}
use liminalis.Policy.{
  evaluate_live_transfer_creation, LiveInput, evaluate_source_creation, SourceInput,
}
use liminalis.Policy.Current.{get_default_confidentiality_level, get_current_bundle}
use liminalis.Uploads.{
  level_or_default, PrepareUpload, prepare_upload, require_eligible_trusted_uploader,
}
use liminalis.Live.Checks.{require_device, require_session, as_participant}
use liminalis.Live.Creation.{get_session_by_code}
use liminalis.Live.Fallback.{continue_fallback}
use liminalis.Live.Signals.{mark_read, send_signal, list_signals}
use liminalis.Live.Relay.{
  write_relay_chunk, Body, require_own_chunk, acknowledge_relay_chunk, upload_relay_chunk,
  upsert_chunk, remove_previous,
}

abbrev live : Database → Table LiveSession
live db = db.live_sessions

pub level_or_default-Leaves :
    (level : Option ConfidentialityLevel) → Leaves live (level_or_default level)
level_or_default-Leaves none =
    unfold get_default_confidentiality_level in record { at = λ db. refl }
level_or_default-Leaves (some level) = search leaves_rules

get_current_bundle-Leaves : (level : ConfidentialityLevel) → Leaves live (get_current_bundle level)
unfolding get_current_bundle
get_current_bundle-Leaves level = search leaves_rules

pub evaluate_live-Leaves : (input : LiveInput) → Leaves live (evaluate_live_transfer_creation input)
unfolding evaluate_live_transfer_creation
evaluate_live-Leaves input = search (leaves_rules, get_current_bundle-Leaves)

require_eligible_trusted_uploader-Leaves :
    (user_id : ℕ) → Leaves live (require_eligible_trusted_uploader user_id)
unfolding require_eligible_trusted_uploader
require_eligible_trusted_uploader-Leaves user_id = search leaves_rules

evaluate_source-Leaves : (input : SourceInput) → Leaves live (evaluate_source_creation input)
unfolding evaluate_source_creation
evaluate_source-Leaves input = search (leaves_rules, get_current_bundle-Leaves)

pub prepare_upload-Leaves :
    (now id user_id : ℕ) (device : Option ℕ) (input : PrepareUpload)
    → Leaves live (prepare_upload now id user_id device input)
unfolding prepare_upload
prepare_upload-Leaves now id user_id device input =
    search
      (
        leaves_rules, require_eligible_trusted_uploader-Leaves, level_or_default-Leaves,
        evaluate_source-Leaves,
      )
      depth 12

pub write_relay_chunk-Leaves :
    (limit : ℕ) (body : Body) → Leaves live (write_relay_chunk limit body)
unfolding write_relay_chunk
write_relay_chunk-Leaves limit body = record { at = λ db. ground arith }

pub mark_read-live :
    (now : ℕ) (ids : List ℕ) (db : Database) → live (mark_read now ids db) ≡ live db
unfolding mark_read
mark_read-live now ids db = ground arith

upsert_chunk-live :
    (id session_id device_id recipient sequence : ℕ) (body : Body) (old : Option (ℕ × RelayChunk))
    (db : Database)
    → live (upsert_chunk id session_id device_id recipient sequence body old db) ≡ live db
unfolding upsert_chunk
upsert_chunk-live id session_id device_id recipient sequence body none db = refl
upsert_chunk-live id session_id device_id recipient sequence body (some old) db = refl

remove_previous-live :
    (key : ℕ) (old : Option (ℕ × RelayChunk)) (db : Database)
    → live (remove_previous key old db) ≡ live db
unfolding remove_previous
remove_previous-live key old db = ground arith

require_device-Leaves : (device : Option ℕ) → Leaves live (require_device device)
unfolding require_device
require_device-Leaves device = search leaves_rules

require_session-Leaves : (session_id : ℕ) → Leaves live (require_session session_id)
unfolding require_session
require_session-Leaves session_id = record { at = λ db. ground arith }

pub upload_relay_chunk-Leaves :
    (limit id user_id session_id sequence : ℕ) (device : Option ℕ) (body : Body)
    → Leaves live (upload_relay_chunk limit id user_id device session_id sequence body)
unfolding upload_relay_chunk
upload_relay_chunk-Leaves limit id user_id session_id sequence device body =
    search
      (
        leaves_rules, require_device-Leaves, require_session-Leaves, write_relay_chunk-Leaves,
        upsert_chunk-live, remove_previous-live,
      )
      depth 16

module _ {A : Type 0} where
  pub as_participant-Leaves :
      (user_id session_id : ℕ) (device : Option ℕ) (body : ℕ → LiveSession → Handler A)
      → ((device_id : ℕ) (s : LiveSession) → Leaves live (body device_id s))
      → Leaves live (as_participant user_id device session_id body)
  unfolding as_participant
  as_participant-Leaves user_id session_id device body h =
      search (leaves_rules, require_session-Leaves) depth 10

pub send_signal-Leaves :
    (id user_id session_id : ℕ) (device : Option ℕ) (kind payload : String)
    → Leaves live (send_signal id user_id device session_id kind payload)
unfolding send_signal
send_signal-Leaves id user_id session_id device kind payload =
    as_participant-Leaves user_id session_id device _ λ device_id s. search leaves_rules depth 8

pub list_signals-Leaves :
    (now user_id session_id : ℕ) (device : Option ℕ)
    → Leaves live (list_signals now user_id device session_id)
unfolding list_signals
list_signals-Leaves now user_id session_id device =
    as_participant-Leaves user_id session_id device _
      λ device_id s. search (leaves_rules, mark_read-live) depth 8

require_own_chunk-Leaves :
    (chunk_id session_id device_id : ℕ)
    → Leaves live (require_own_chunk chunk_id session_id device_id)
unfolding require_own_chunk
require_own_chunk-Leaves chunk_id session_id device_id = record { at = λ db. ground arith }

pub acknowledge_relay_chunk-Leaves :
    (now user_id session_id chunk_id : ℕ) (device : Option ℕ)
    → Leaves live (acknowledge_relay_chunk now user_id device session_id chunk_id)
unfolding acknowledge_relay_chunk
acknowledge_relay_chunk-Leaves now user_id session_id chunk_id device =
    as_participant-Leaves user_id session_id device _
      λ device_id s. search (leaves_rules, require_own_chunk-Leaves) depth 10

pub continue_fallback-Leaves :
    (now upload_id user_id device_id session_id : ℕ) (s : LiveSession) (existing : ℕ)
    → Leaves live (continue_fallback now upload_id user_id device_id session_id s (some existing))
unfolding continue_fallback
continue_fallback-Leaves now upload_id user_id device_id session_id s existing = search leaves_rules

pub get_session_by_code-Leaves : (code : List ℕ) → Leaves live (get_session_by_code code)
unfolding get_session_by_code
get_session_by_code-Leaves code = record { at = λ db. ground arith }

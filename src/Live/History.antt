-- ===== src/Live/History.antt =====
-- Any history of requests keeps the live sessions sound.
use liminalis.Common.{refl, Bool, ℕ, subst, List, [], ◌∷◌}
use liminalis.Common.Table.{Table, Distinct, Rows, find-Rows, update-Rows, update-Distinct, create}
use liminalis.Schema.{LiveSession, ConfidentialityLevel, UploadContentKind, Database}
use liminalis.Policy.{LiveDecision}
use liminalis.Live.Creation.{new_session}
use liminalis.Live.Soundness.{IsSound}
use liminalis.Live.Frames.{
  send_signal-Leaves, list_signals-Leaves, acknowledge_relay_chunk-Leaves,
  upload_relay_chunk-Leaves,
}
use liminalis.Live.Signals.{send_signal, list_signals}
use liminalis.Live.Relay.{upload_relay_chunk, acknowledge_relay_chunk}
use liminalis.Live.Requests.{
  Caller, LiveRequest, creates, joins, confirms, updates_transport, completes, fails,
  begins_fallback, sends_signal, lists_signals, uploads_chunk, acknowledges, serve, serve_all,
}
use liminalis.Live.Steps.{Steps, stays, starts, changes, change-IsSound}
use liminalis.Live.Refinement.{
  Leaves-Stepped, confirm_session-Stepped, update_transport-Stepped, complete_session-Stepped,
  fail_session-Stepped, begin_stored_fallback-Stepped,
}
use liminalis.Live.Entry.{join_session-Stepped, create_session-Stepped}

-- Where no key stands twice in the table of sessions, every request, accepted or refused, is a step
-- of the abstract machine: it leaves the sessions as they are, starts one under a new key, or makes
-- one of the changes that the checks permit.
pub serve-Steps :
    (c : Caller) (r : LiveRequest) (db : Database)
    → Distinct db.live_sessions
    → Steps db.live_sessions (serve c r db).live_sessions
unfolding serve
serve-Steps c (creates id uuid input) db distinct =
    create_session-Stepped c.now c.user_id c.trusted_device_id db id uuid input
serve-Steps c (joins code) db distinct =
    join_session-Stepped c.now c.user_id c.trusted_device_id db code distinct
serve-Steps c (confirms session_id confirmed) db distinct =
    confirm_session-Stepped c.now c.user_id session_id c.trusted_device_id db confirmed
serve-Steps c (updates_transport session_id wanted) db distinct =
    update_transport-Stepped c.now c.user_id session_id c.trusted_device_id db wanted
serve-Steps c (completes session_id) db distinct =
    complete_session-Stepped c.now c.user_id session_id c.trusted_device_id db
serve-Steps c (fails session_id reason) db distinct =
    fail_session-Stepped c.now c.user_id session_id c.trusted_device_id db reason
serve-Steps c (begins_fallback session_id upload_id) db distinct =
    begin_stored_fallback-Stepped c.now c.user_id session_id c.trusted_device_id db upload_id
serve-Steps c (sends_signal session_id id kind payload) db distinct =
    Leaves-Stepped db (send_signal id c.user_id c.trusted_device_id session_id kind payload)
      (send_signal-Leaves id c.user_id session_id c.trusted_device_id kind payload)
serve-Steps c (lists_signals session_id) db distinct =
    Leaves-Stepped db (list_signals c.now c.user_id c.trusted_device_id session_id)
      (list_signals-Leaves c.now c.user_id session_id c.trusted_device_id)
serve-Steps c (uploads_chunk session_id id limit sequence body) db distinct =
    Leaves-Stepped db
      (upload_relay_chunk limit id c.user_id c.trusted_device_id session_id sequence body)
      (upload_relay_chunk-Leaves limit id c.user_id session_id sequence c.trusted_device_id body)
serve-Steps c (acknowledges session_id chunk_id) db distinct =
    Leaves-Stepped db
      (acknowledge_relay_chunk c.now c.user_id c.trusted_device_id session_id chunk_id)
      (acknowledge_relay_chunk-Leaves c.now c.user_id session_id chunk_id c.trusted_device_id)

-- The keys are distinct and each session is sound.
abbrev pub SoundTable : Table LiveSession → Type 0
SoundTable t = Distinct t × Rows (λ id s. IsSound s) t

abbrev pub AllSound : Database → Type 0
AllSound db = SoundTable db.live_sessions

new_session-IsSound :
    (now : ℕ) (uuid : List ℕ) (user_id device_id : ℕ) (level : ConfidentialityLevel)
    (content_kind : UploadContentKind) (grouped : Bool) (decision : LiveDecision)
    → IsSound (new_session now uuid user_id device_id level content_kind grouped decision)
unfolding new_session
new_session-IsSound now uuid user_id device_id level content_kind grouped decision = record {
  paired = refl;
  unjoined = refl;
  initiator_after_join = refl;
  joiner_after_join = refl;
  pending = refl;
  established = refl;
  transport_confirmed = refl;
  p2p_permitted = refl;
  relay_permitted = refl;
  active_transport = refl;
}

pub Steps-SoundTable : (t t' : Table LiveSession) → Steps t t' → SoundTable t → SoundTable t'
unfolding create
Steps-SoundTable t t' stays all = all
Steps-SoundTable t t'
      (starts id now uuid user_id device_id level content_kind grouped decision free) all =
    (
      (free, all.0),
      (new_session-IsSound now uuid user_id device_id level content_kind grouped decision, all.1),
    )
Steps-SoundTable t t' (changes id s patch found change) all = (
  update-Distinct id patch t all.0,
  update-Rows (λ i x. IsSound x) id patch t
      (λ a e v.
        subst (λ x. IsSound (patch x)) (cc)
          (change-IsSound s patch (find-Rows (λ i x. IsSound x) id t s found all.1) change))
      all.1,
)

-- Where the keys of the live sessions are distinct and every session is sound, that stays so through
-- any history of requests, accepted or refused.
pub serve_all-AllSound :
    (requests : List (Caller × LiveRequest)) (db : Database)
    → AllSound db
    → AllSound (serve_all requests db)
unfolding serve_all
serve_all-AllSound [] db all = all
serve_all-AllSound ((c, r) ∷ requests) db all =
    serve_all-AllSound requests (serve c r db) (
      Steps-SoundTable db.live_sessions (serve c r db).live_sessions (serve-Steps c r db all.0) all)

-- ===== src/Live/Records.antt =====
-- `safeContentLabel` and `projectRetainedRecord`: the retained record of a session, one row for
-- each participant. The time `projectedAt` is left out.
use liminalis.Common.{
  ℕ, String, Bool, ◌&&◌, ◌||◌, Option, none, some, List, [], ◌∷◌, ◌==◌, if◌then◌else◌,
}
use liminalis.Common.Table.{Table, find}
use liminalis.Schema.{
  UploadContentKind, is_grouped_content, LiveSession, LiveRecord, User, Database,
}

unfoldable pub safe_content_label : UploadContentKind → Bool → String
safe_content_label content_kind grouped_transfer =
    if grouped_transfer || is_grouped_content content_kind
    then "Encrypted grouped live transfer"
    else "Encrypted live transfer"

-- `user?.username ?? absent`
username_or : String → Option User → String
username_or absent none = absent
username_or absent (some user) = user.username

find_user : Option ℕ → Table User → Option User
find_user none users = none
find_user (some id) users = find id users

abbrev pub same_record_key : LiveRecord → LiveRecord → Bool
same_record_key a b =
    a.owner_user_id == b.owner_user_id && a.live_transfer_session_id == b.live_transfer_session_id

-- `upsert` by the unique key: the update writes every column that the creation writes.
unfoldable pub upsert_record : LiveRecord → List LiveRecord → List LiveRecord
upsert_record r [] = r ∷ []
upsert_record r (x ∷ xs) = if same_record_key x r then r ∷ xs else x ∷ upsert_record r xs

record_for : ℕ → LiveSession → ℕ → String → LiveRecord
unfolding safe_content_label
record_for session_id session owner label = record {
  owner_user_id = owner;
  live_transfer_session_id = session_id;
  participant_label = label;
  session_outcome = session.state;
  transport_summary = session.transport_state;
  content_label = safe_content_label session.content_kind session.grouped_transfer;
  content_kind = session.content_kind;
  grouped_transfer = session.grouped_transfer;
  started_at = session.created_at;
  ended_at = session.completed_at;
}

joiner_records : ℕ → LiveSession → String → Option ℕ → List LiveRecord
unfolding record_for
joiner_records session_id session label none = []
joiner_records session_id session label (some joiner) =
    record_for session_id session joiner label ∷ []

-- The rows that are written for a session, in order.
unfoldable pub records_of : ℕ → LiveSession → Table User → List LiveRecord
unfolding record_for joiner_records find_user username_or
records_of session_id session users =
    record_for session_id session session.initiator_user_id
      (username_or "pending participant" (find_user session.joiner_user_id users))
    ∷ joiner_records session_id session (username_or "" (find session.initiator_user_id users))
        session.joiner_user_id

unfoldable pub upsert_records : List LiveRecord → List LiveRecord → List LiveRecord
upsert_records [] rows = rows
upsert_records (r ∷ rs) rows = upsert_records rs (upsert_record r rows)

retained : ℕ → Option LiveSession → Database → Database
unfolding records_of upsert_records
retained session_id none db = db
retained session_id (some session) db =
    if session.retain_record
    then record db {
      live_records = upsert_records (records_of session_id session db.users) db.live_records;
    }
    else db

unfoldable pub project_retained_record : ℕ → Database → Database
unfolding retained
project_retained_record session_id db = retained session_id (find session_id db.live_sessions) db

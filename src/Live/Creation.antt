-- ===== src/Live/Creation.antt =====
-- `createSession`, `joinSession` and `getSessionByCode`. `now` is the time of the request; keys of new
-- rows and random values are arguments.
use liminalis.Common.{
  ℕ, ◌+◌, ◌-◌, ◌*◌, Bool, true, false, not, ◌&&◌, Option, none, some, List, [], ◌∷◌, leb, ◌==◌,
  is_some, coalesce, if◌then◌else◌, map,
}
use liminalis.Common.Exec.{
  not_found, database, guard, lift, gets, modify, pure, or_throw, ◌>>=◌, ◌>>◌,
}
use liminalis.Common.Table.{find, find_where, create}
use liminalis.Schema.{
  ConfidentialityLevel, UploadContentKind, awaiting_join, awaiting_confirmation, LiveSession,
  Handler, Database, session_not_found, unique_violation,
}
use liminalis.Policy.{LiveDecision, evaluate_live_transfer_creation, trim}
use liminalis.Uploads.{level_or_default}
use liminalis.Live.Checks.{assert_joinable, require_device}
use liminalis.Live.Records.{safe_content_label, project_retained_record}
use liminalis.Live.Lifecycle.{update_session}

pub record CreateLiveTransfer : Type 0 where
  pub content_kind : UploadContentKind
  pub confidentiality_level : Option ConfidentialityLevel
  pub grouped_transfer : Option Bool

abbrev pub awaiting_join_ttl_ms : ℕ
awaiting_join_ttl_ms = 5 * 60 * 1000

-- `toUpperCase` and `toLowerCase` on ASCII.
abbrev upper_char : ℕ → ℕ
upper_char c = if leb 97 c && leb c 122 then c - 32 else c

abbrev lower_char : ℕ → ℕ
lower_char c = if leb 65 c && leb c 90 then c + 32 else c

abbrev pub to_upper_case : List ℕ → List ℕ
to_upper_case = map upper_char

abbrev pub to_lower_case : List ℕ → List ℕ
to_lower_case = map lower_char

abbrev take_8 : List ℕ → List ℕ
take_8 (a ∷ b ∷ c ∷ d ∷ e ∷ f ∷ g ∷ h ∷ rest) = a ∷ b ∷ c ∷ d ∷ e ∷ f ∷ g ∷ h ∷ []
take_8 s = s

unfoldable pub same_code : List ℕ → List ℕ → Bool
same_code [] [] = true
same_code (a ∷ s) (b ∷ t) = a == b && same_code s t
same_code _ _ = false

abbrev pub with_code : List ℕ → LiveSession → Bool
with_code code session = same_code session.session_code code

-- The key and the unique column each refuse a second session.
unfoldable pub insert_session : ℕ → LiveSession → Handler (Unit {0})
unfolding gets lift modify ◌>>=◌
insert_session id session = do
  present ← gets (λ db. find id db.live_sessions)
  taken ← gets (λ db. find_where (with_code session.session_code) db.live_sessions)
  lift (guard (not (is_some present) && not (is_some taken)) (database unique_violation))
  modify (λ (db : Database). record db { live_sessions = create id session db.live_sessions })

-- The row that `createSession` writes.
unfoldable pub new_session :
    ℕ
    → List ℕ
    → ℕ
    → ℕ
    → ConfidentialityLevel
    → UploadContentKind
    → Bool
    → LiveDecision
    → LiveSession
new_session now uuid user_id device_id level content_kind grouped decision = record {
  initiator_user_id = user_id;
  initiator_device_id = device_id;
  joiner_user_id = none;
  joiner_device_id = none;
  confidentiality_level = level;
  policy_bundle_id = decision.policy_bundle_id;
  state = awaiting_join;
  transport_state = none;
  session_code = to_upper_case (take_8 uuid);
  initiator_confirmed_at = none;
  joiner_confirmed_at = none;
  content_label = safe_content_label content_kind grouped;
  content_kind = content_kind;
  grouped_transfer = grouped;
  relay_allowed = decision.allow_relay;
  peer_to_peer_allowed = decision.allow_peer_to_peer;
  peer_to_peer_to_relay_fallback = decision.allow_peer_to_peer_to_relay_fallback;
  live_to_stored_fallback_allowed = decision.allow_live_to_stored_fallback;
  retain_record = decision.retain_live_transfer_records;
  stored_fallback_upload_session_id = none;
  failure_reason = none;
  completed_at = none;
  expires_at = now + awaiting_join_ttl_ms;
  created_at = now;
}

-- The writes of `createSession`, and its answer.
unfoldable pub write_session : ℕ → LiveSession → Handler (ℕ × LiveSession)
unfolding insert_session
write_session id session = do
  insert_session id session
  modify (project_retained_record id)
  pure (id, session)

-- `uuid` is the random text that the code is cut from.
unfoldable pub create_session :
    ℕ → ℕ → List ℕ → ℕ → Option ℕ → CreateLiveTransfer → Handler (ℕ × LiveSession)
unfolding require_device write_session
create_session now id uuid user_id trusted_device_id input = do
  device_id ← require_device trusted_device_id
  level ← level_or_default input.confidentiality_level
  let grouped = coalesce input.grouped_transfer false
  decision ← evaluate_live_transfer_creation (record {
    confidentiality_level = level;
    grouped_transfer = grouped;
    content_kind = input.content_kind;
  })
  write_session id
      (new_session now uuid user_id device_id level input.content_kind grouped decision)

unfoldable pub or_else : {A : Type 0} → Option A → Option A → Option A
or_else (some a) other = some a
or_else none other = other

unfoldable pub get_session_by_code : List ℕ → Handler (ℕ × LiveSession)
unfolding or_else gets or_throw ◌>>=◌
get_session_by_code session_code = do
  let normalized = to_upper_case (trim session_code)
  session ← gets (λ db.
      or_else (find_where (with_code normalized) db.live_sessions)
        (find_where (with_code (to_lower_case normalized)) db.live_sessions))
  or_throw session (not_found session_not_found)

unfoldable pub join_session : ℕ → ℕ → Option ℕ → List ℕ → Handler LiveSession
unfolding require_device
join_session now user_id trusted_device_id session_code = do
  device_id ← require_device trusted_device_id
  found ← get_session_by_code session_code
  lift (assert_joinable now found.1)
  update_session found.0 (λ row. record row {
    joiner_user_id = some user_id;
    joiner_device_id = some device_id;
    state = awaiting_confirmation;
  })

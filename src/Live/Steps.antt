-- ===== src/Live/Steps.antt =====
-- The live sessions as an abstract machine: the changes that a session may undergo, and the steps
-- of the whole table.
use liminalis.Common.{ℕ, String, ◌≡◌, Bool, none, some, List}
use liminalis.Common.Exec.{ok}
use liminalis.Common.Table.{Table, find, update, create}
use liminalis.Schema.{
  LiveSession, LiveState, LiveTransport, awaiting_confirmation, cancelled, ConfidentialityLevel,
  UploadContentKind,
}
use liminalis.Policy.{LiveDecision}
use liminalis.Live.Checks.{assert_joinable, assert_transport_mutable}
use liminalis.Live.Lifecycle.{
  confirmation_patch, confirmation_checks, transport_checks, state_of_transport,
}
use liminalis.Live.Creation.{new_session}
use liminalis.Live.Fallback.{fallback_checks}
use liminalis.Live.Soundness.{
  IsSound, join-IsSound, confirm-IsSound, cancel-IsSound, transport-IsSound, complete-IsSound,
  fail-IsSound, fallback-IsSound,
}

-- What may happen to a session in a given row.
pub data Change (s : LiveSession) : (LiveSession → LiveSession) → Type 0 where
  gains_joiner :
      (now user_id device_id : ℕ)
      → assert_joinable now s ≡ ok tt
      → Change s (λ row. record row {
        joiner_user_id = some user_id;
        joiner_device_id = some device_id;
        state = awaiting_confirmation;
      })
  is_confirmed :
      (now : ℕ) (by_initiator : Bool)
      → confirmation_checks s ≡ ok tt
      → Change s (confirmation_patch now by_initiator s)
  is_cancelled : Change s (λ row. record row { state = cancelled })
  takes_transport :
      (wanted : LiveTransport)
      → assert_transport_mutable s ≡ ok tt
      → transport_checks s wanted ≡ ok tt
      → Change s
          (λ row. record row { state = state_of_transport wanted; transport_state = some wanted })
  is_completed :
      (now : ℕ)
      → Change s (λ row. record row { state = LiveState.completed; completed_at = some now })
  fails :
      (reason : String)
      → Change s (λ row. record row { state = LiveState.failed; failure_reason = some reason })
  falls_back :
      (upload_id : ℕ)
      → fallback_checks s ≡ ok tt
      → s.stored_fallback_upload_session_id ≡ none
      → Change s (λ row. record row { stored_fallback_upload_session_id = some upload_id })

-- A request leaves the sessions as they are, starts a session under a new key, or changes one.
pub data Steps (t : Table LiveSession) : Table LiveSession → Type 0 where
  stays : Steps t t
  starts :
      (id now : ℕ) (uuid : List ℕ) (user_id device_id : ℕ) (level : ConfidentialityLevel)
      (content_kind : UploadContentKind) (grouped : Bool) (decision : LiveDecision)
      → find id t ≡ none
      → Steps t
          (create id (new_session now uuid user_id device_id level content_kind grouped decision) t)
  changes :
      (id : ℕ) (s : LiveSession) (patch : LiveSession → LiveSession)
      → find id t ≡ some s
      → Change s patch
      → Steps t (update id patch t)

pub change-IsSound :
    (s : LiveSession) (patch : LiveSession → LiveSession)
    → IsSound s
    → Change s patch
    → IsSound (patch s)
change-IsSound s patch v (gains_joiner now user_id device_id h) =
    join-IsSound s v now user_id device_id h
change-IsSound s patch v (is_confirmed now by_initiator h) = confirm-IsSound s v now by_initiator h
change-IsSound s patch v is_cancelled = cancel-IsSound s v
change-IsSound s patch v (takes_transport wanted h k) = transport-IsSound s v wanted h k
change-IsSound s patch v (is_completed now) = complete-IsSound s v now
change-IsSound s patch v (fails reason) = fail-IsSound s v reason
change-IsSound s patch v (falls_back upload_id h k) = fallback-IsSound s v upload_id

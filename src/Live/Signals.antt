-- ===== src/Live/Signals.antt =====
-- `sendSignal` and `listSignals`: the signalling mailbox of a session.
use liminalis.Common.{
  ℕ, String, Bool, false, not, ◌&&◌, Option, none, some, List, [], ◌∷◌, ◌==◌, is_some,
}
use liminalis.Common.Exec.{lift, gets, modify, pure, ◌>>=◌, ◌>>◌}
use liminalis.Common.Table.{Table, create, find_many, update_keys, keys}
use liminalis.Schema.{SignalMessage, Handler, Database}
use liminalis.Live.Checks.{as_participant, assert_can_exchange_transport_data, resolve_counterpart}

-- `id` is the key of the new row. The payload is JSON, kept as its text.
unfoldable pub send_signal : ℕ → ℕ → Option ℕ → ℕ → String → String → Handler SignalMessage
send_signal id user_id trusted_device_id session_id kind payload =
    as_participant user_id trusted_device_id session_id λ device_id session. do
      lift (assert_can_exchange_transport_data session false)
      other ← lift (resolve_counterpart session user_id device_id)
      let message : SignalMessage = record {
        session_id = session_id;
        sender_user_id = user_id;
        sender_device_id = device_id;
        recipient_user_id = other.0;
        recipient_device_id = other.1;
        kind = kind;
        payload = payload;
        read_at = none;
      }
      modify (λ (db : Database). record db { live_signals = create id message db.live_signals })
      pure message

-- The unread messages of a session to a device.
abbrev pub is_unread_for : ℕ → ℕ → ℕ → SignalMessage → Bool
is_unread_for session_id user_id device_id m =
    m.session_id == session_id
    && (m.recipient_user_id == user_id
        && (m.recipient_device_id == device_id && not (is_some m.read_at)))

-- The write is skipped for an empty list.
unfoldable pub mark_read : ℕ → List ℕ → Database → Database
mark_read now [] db = db
mark_read now (id ∷ ids) db = record db {
  live_signals = update_keys (id ∷ ids) (λ m. record m { read_at = some now }) db.live_signals;
}

unfoldable pub list_signals : ℕ → ℕ → Option ℕ → ℕ → Handler (Table SignalMessage)
unfolding mark_read
list_signals now user_id trusted_device_id session_id =
    as_participant user_id trusted_device_id session_id λ device_id session. do
      messages ← gets (λ db. find_many (is_unread_for session_id user_id device_id) db.live_signals)
      modify (mark_read now (keys messages))
      pure messages

-- ===== src/Live/Requests.antt =====
-- The requests that live-transfer.controller.ts passes to the service and that may change what is
-- stored, as one step function. A request that ends in an error may still have written something.
use liminalis.Common.{ℕ, String, Bool, Option, List, [], ◌∷◌}
use liminalis.Schema.{LiveTransport, Database}
use liminalis.Live.Lifecycle.{confirm_session, update_transport, complete_session, fail_session}
use liminalis.Live.Creation.{CreateLiveTransfer, create_session, join_session}
use liminalis.Live.Fallback.{begin_stored_fallback}
use liminalis.Live.Signals.{send_signal, list_signals}
use liminalis.Live.Relay.{Body, upload_relay_chunk, acknowledge_relay_chunk}

-- A request carries its time, user, device, and what the database or a random source makes for it.
pub record Caller : Type 0 where
  pub now : ℕ
  pub user_id : ℕ
  pub trusted_device_id : Option ℕ

pub data LiveRequest : Type 0 where
  creates : (id : ℕ) → (uuid : List ℕ) → CreateLiveTransfer → LiveRequest
  joins : (session_code : List ℕ) → LiveRequest
  confirms : (session_id : ℕ) → Bool → LiveRequest
  updates_transport : (session_id : ℕ) → LiveTransport → LiveRequest
  completes : (session_id : ℕ) → LiveRequest
  fails : (session_id : ℕ) → String → LiveRequest
  begins_fallback : (session_id upload_id : ℕ) → LiveRequest
  sends_signal : (session_id id : ℕ) → String → String → LiveRequest
  lists_signals : (session_id : ℕ) → LiveRequest
  uploads_chunk : (session_id id limit sequence : ℕ) → Body → LiveRequest
  acknowledges : (session_id chunk_id : ℕ) → LiveRequest

unfoldable pub serve : Caller → LiveRequest → Database → Database
serve c (creates id uuid input) db =
    (create_session c.now id uuid c.user_id c.trusted_device_id input db).1
serve c (joins code) db = (join_session c.now c.user_id c.trusted_device_id code db).1
serve c (confirms session_id confirmed) db =
    (confirm_session c.now c.user_id c.trusted_device_id session_id confirmed db).1
serve c (updates_transport session_id wanted) db =
    (update_transport c.user_id c.trusted_device_id session_id wanted db).1
serve c (completes session_id) db =
    (complete_session c.now c.user_id c.trusted_device_id session_id db).1
serve c (fails session_id reason) db =
    (fail_session c.user_id c.trusted_device_id session_id reason db).1
serve c (begins_fallback session_id upload_id) db =
    (begin_stored_fallback c.now upload_id c.user_id c.trusted_device_id session_id db).1
serve c (sends_signal session_id id kind payload) db =
    (send_signal id c.user_id c.trusted_device_id session_id kind payload db).1
serve c (lists_signals session_id) db =
    (list_signals c.now c.user_id c.trusted_device_id session_id db).1
serve c (uploads_chunk session_id id limit sequence body) db =
    (upload_relay_chunk limit id c.user_id c.trusted_device_id session_id sequence body db).1
serve c (acknowledges session_id chunk_id) db =
    (acknowledge_relay_chunk c.now c.user_id c.trusted_device_id session_id chunk_id db).1

unfoldable pub serve_all : List (Caller × LiveRequest) → Database → Database
serve_all [] db = db
serve_all ((c, r) ∷ rs) db = serve_all rs (serve c r db)

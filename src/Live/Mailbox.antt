-- ===== src/Live/Mailbox.antt =====
-- The signalling mailbox end to end: what one side sends, the other side lists, once.
use liminalis.Common.{
  subst, ap, ◌∙◌, ℕ, String, ◌≡◌, refl, true, false, inl, inr, ◌⊎◌, ◌↔◌, Option, ◌==◌, ◌&&◌,
  Bool-cases, if◌then◌else◌, none, some, List, [], ◌∷◌, ◌++◌, arith,
}
use liminalis.Common.Exec.{Error, Result, err, ok, lift, gets, modify, pure, ◌>>=◌}
use liminalis.Common.Table.{Table, find, find_many, update_keys, keys, create}
use liminalis.Common.Table.Selection.{find_many-create, find_many-drained}
use liminalis.Schema.{LiveSession, SignalMessage, Database, Reason}
use liminalis.Live.Checks.{
  is_initiator, assert_can_exchange_transport_data, counterpart, resolve_counterpart,
}
use liminalis.Live.Signals.{send_signal, list_signals, mark_read, is_unread_for}
use liminalis.Live.Rules.{is_participant, as_participant_lem}

module _ (session_id : ℕ) (session : LiveSession) where
  -- The answer of a list, and what it leaves.
  list_signals_lem :
      (now user_id device_id : ℕ) (db : Database)
      → find session_id db.live_sessions ≡ some session
      → is_participant session user_id device_id ≡ true
      → let unread = find_many (is_unread_for session_id user_id device_id) db.live_signals in
        list_signals now user_id (some device_id) session_id db
        ≡ (ok unread, mark_read now (keys unread) db)
  unfolding list_signals gets modify pure ◌>>=◌
  list_signals_lem now user_id device_id db found inside =
      rw (as_participant_lem user_id device_id session_id _ db session found inside)

-- One side started the session and the other side joined it.
abbrev pub AreSides : LiveSession → ℕ × ℕ → ℕ × ℕ → Type 0
AreSides session initiator joiner =
    (session.initiator_user_id ≡ initiator.0)
    × (session.initiator_device_id ≡ initiator.1)
    × (session.joiner_user_id ≡ some joiner.0)
    × (session.joiner_device_id ≡ some joiner.1)

-- The counterpart of a user and device in a session is another exactly where one of the two started
-- the session and the other one joined it: the joiner for the initiator, and the initiator for the
-- joiner.
pub resolve_counterpart_iff :
    (session : LiveSession) (user_id device_id : ℕ) (other : ℕ × ℕ)
    → (resolve_counterpart session user_id device_id ≡ ok other)
      ↔ (AreSides session (user_id, device_id) other ⊎ AreSides session other (user_id, device_id))
unfolding resolve_counterpart counterpart
resolve_counterpart_iff session user_id device_id other = (
  (λ h. across session.joiner_user_id session.joiner_device_id h),
  (λ sides. elim sides [ inl s ↦ ground (arith, s) | inr s ↦ ground (arith, s) ]),
)
  where
    is_same : {a b : ℕ × ℕ} → ◌≡◌ {A = Result Reason (ℕ × ℕ)} (ok a) (ok b) → a ≡ b
    is_same p = cc

    differs : {e : Error Reason} → ◌≡◌ {A = Result Reason (ℕ × ℕ)} (err e) (ok other) → ⊥
    differs p = cc

    across :
        (joiner_user joiner_device : Option ℕ)
        → counterpart session user_id device_id joiner_user joiner_device ≡ ok other
        → ((session.initiator_user_id ≡ user_id)
            × (session.initiator_device_id ≡ device_id)
            × (joiner_user ≡ some other.0)
            × (joiner_device ≡ some other.1))
          ⊎ ((session.initiator_user_id ≡ other.0)
              × (session.initiator_device_id ≡ other.1)
              × (joiner_user ≡ some user_id)
              × (joiner_device ≡ some device_id))
    across none device h = ground arith
    across (some user) none h = ground arith
    across (some user) (some device) h =
        elim (Bool-cases (is_initiator session user_id device_id)) [
          | inl e ↦
              let same = is_same (rw (e, if◌then◌else◌) at h) in
              inl (
                ground (arith, e),
                ground (arith, e),
                ap (λ (p : ℕ × ℕ). some p.0) same,
                ap (λ (p : ℕ × ℕ). some p.1) same,
              )
          | inr e ↦ elim (Bool-cases (user == user_id && device == device_id)) [
            | inl f ↦
                let same = is_same (rw (e, if◌then◌else◌, f, if◌then◌else◌) at h) in
                inr (
                  ap (λ (p : ℕ × ℕ). p.0) same,
                  ap (λ (p : ℕ × ℕ). p.1) same,
                  ground (arith, f),
                  ground (arith, f),
                )
            | inr f ↦ absurd (differs (rw (e, if◌then◌else◌, f, if◌then◌else◌) at h))
          ]
        ]

unread-marked :
    (session_id user_id device_id now : ℕ) (m : SignalMessage)
    → is_unread_for session_id user_id device_id (record m { read_at = some now }) ≡ false
unread-marked session_id user_id device_id now m = ground arith

live_sessions-mark_read :
    (now : ℕ) (ids : List ℕ) (db : Database)
    → (mark_read now ids db).live_sessions ≡ db.live_sessions
unfolding mark_read
live_sessions-mark_read now [] db = refl
live_sessions-mark_read now (id ∷ ids) db = refl

no_keys : (t : Table SignalMessage) → keys t ≡ [] → t ≡ []
no_keys [] k = refl
no_keys ((id, m) ∷ t) k = absurd (no k)
  where
    no : id ∷ keys t ≡ [] → ⊥
    no p = cc

-- Once the unread messages have been marked, none is unread.
unread-mark_read :
    (session_id user_id device_id now : ℕ) (db : Database)
    → let p = is_unread_for session_id user_id device_id in
      find_many p (mark_read now (keys (find_many p db.live_signals)) db).live_signals ≡ []
unread-mark_read session_id user_id device_id now db =
    go (keys (find_many (is_unread_for session_id user_id device_id) db.live_signals)) refl
  where
    go :
        (ids : List ℕ)
        → keys (find_many (is_unread_for session_id user_id device_id) db.live_signals) ≡ ids
        → find_many (is_unread_for session_id user_id device_id) (mark_read now ids db).live_signals
          ≡ []
    go [] e = unfold mark_read in no_keys _ e
    go (id ∷ ids) e =
        unfold mark_read in
        subst
          (λ ks.
            find_many (is_unread_for session_id user_id device_id)
              (update_keys ks (λ m. record m { read_at = some now }) db.live_signals)
            ≡ [])
          e
          (find_many-drained (is_unread_for session_id user_id device_id)
            (λ m. record m { read_at = some now }) db.live_signals
            (unread-marked session_id user_id device_id now))

-- A participant's list holds exactly the messages that are unread for that user and device, the
-- oldest first, and a list that follows is empty.
pub list_signals-drains :
    (now later user_id device_id session_id : ℕ) (db : Database) (session : LiveSession)
    → find session_id db.live_sessions ≡ some session
    → is_participant session user_id device_id ≡ true
    → ((list_signals now user_id (some device_id) session_id db).0
        ≡ ok (find_many (is_unread_for session_id user_id device_id) db.live_signals))
      × ((list_signals later user_id
            (some device_id)
            session_id
            (list_signals now user_id (some device_id) session_id db).1).0
          ≡ ok [])
list_signals-drains now later user_id device_id session_id db session found inside =
    let first = list_signals_lem session_id session now user_id device_id db found inside in
    (
      ap (λ o. o.0) first,
      rw first (
          let unread = find_many (is_unread_for session_id user_id device_id) db.live_signals in
          ap (λ o. o.0)
            (list_signals_lem session_id session later user_id device_id
              (mark_read now (keys unread) db)
              (ap (find session_id) (live_sessions-mark_read now (keys unread) db) ∙ found) inside)
          ∙ ap ok (unread-mark_read session_id user_id device_id now db)),
    )

-- The message that a sender's request writes.
abbrev pub message_to : ℕ → ℕ → ℕ → ℕ × ℕ → String → String → SignalMessage
message_to session_id user_id device_id other kind payload = record {
  session_id = session_id;
  sender_user_id = user_id;
  sender_device_id = device_id;
  recipient_user_id = other.0;
  recipient_device_id = other.1;
  kind = kind;
  payload = payload;
  read_at = none;
}

module _ (id user_id device_id session_id : ℕ) (kind payload : String) (db : Database)
    (session : LiveSession) (other : ℕ × ℕ) where
  sent : SignalMessage
  sent = message_to session_id user_id device_id other kind payload

  send_signal_lem :
      find session_id db.live_sessions ≡ some session
      → is_participant session user_id device_id ≡ true
      → assert_can_exchange_transport_data session false ≡ ok tt
      → resolve_counterpart session user_id device_id ≡ ok other
      → send_signal id user_id (some device_id) session_id kind payload db
        ≡ (ok sent, record db { live_signals = create id sent db.live_signals })
  unfolding send_signal lift modify pure ◌>>=◌ sent
  send_signal_lem found inside ready known =
      rw (as_participant_lem user_id device_id session_id _ db session found inside)
        (rw (ready, known))

  is_unread-sent : is_unread_for session_id other.0 other.1 sent ≡ true
  unfolding sent
  is_unread-sent = ground arith

-- A counterpart is a participant.
counterpart-is_participant :
    (session : LiveSession) (user_id device_id : ℕ) (other : ℕ × ℕ)
    → resolve_counterpart session user_id device_id ≡ ok other
    → is_participant session other.0 other.1 ≡ true
unfolding resolve_counterpart counterpart
counterpart-is_participant session user_id device_id other h = ground arith

-- A signal that one side sends while the transport is set up or active is what the other side
-- lists next, after the messages that were unread there before.
pub send_signal-delivers :
    (id now user_id device_id session_id : ℕ) (kind payload : String) (db : Database)
    (session : LiveSession) (other : ℕ × ℕ)
    → find session_id db.live_sessions ≡ some session
    → is_participant session user_id device_id ≡ true
    → assert_can_exchange_transport_data session false ≡ ok tt
    → resolve_counterpart session user_id device_id ≡ ok other
    → (list_signals now other.0
        (some other.1)
        session_id
        (send_signal id user_id (some device_id) session_id kind payload db).1).0
      ≡ ok (
          find_many (is_unread_for session_id other.0 other.1) db.live_signals
          ++ (id, message_to session_id user_id device_id other kind payload) ∷ [])
unfolding sent
send_signal-delivers id now user_id device_id session_id kind payload db session other found inside
      ready known =
    rw
      (send_signal_lem id user_id device_id session_id kind payload db session other found inside
        ready known)
      (ap (λ o. o.0)
          (list_signals_lem session_id session now other.0 other.1 _ found
            (counterpart-is_participant session user_id device_id other known))
        ∙ ap ok (
            find_many-create (is_unread_for session_id other.0 other.1) id
              (message_to session_id user_id device_id other kind payload) db.live_signals
            ∙ rw (is_unread-sent id user_id device_id session_id kind payload db session other)))

-- ===== src/Live/Transport.antt =====
-- Which transports `updateTransport` accepts, against a description without its checks.
use liminalis.Common.{sym, ◌∙◌, ap, inl, inr, ℕ, ◌≡◌, refl, ◌↔◌, true, Option, none, some, arith}
use liminalis.Common.Exec.{is_ok, Result-cases, Result, ok, err, lift, ◌>>=◌}
use liminalis.Common.Table.{find}
use liminalis.Schema.{
  LiveSession, LiveTransport, p2p_attempt, relay_attempt, p2p_active, relay_active,
  is_connecting_or_active, Database, Reason,
}
use liminalis.Live.Checks.{assert_transport_mutable, both_confirmed}
use liminalis.Live.Lifecycle.{state_of_transport, update_transport, transport_checks}
use liminalis.Live.Rules.{as_participant_lem, is_participant, update_session_lem}

-- The steps between transports that a session permits: an attempt may be started or repeated from
-- any transport, except that relaying does not follow an attempt at peer-to-peer without the
-- fallback, and a transport becomes active only out of its own attempt.
pub data Moves (s : LiveSession) : Option LiveTransport → LiveTransport → Type 0 where
  tries_p2p : {t : Option LiveTransport} → s.peer_to_peer_allowed ≡ true → Moves s t p2p_attempt
  reaches_p2p : s.peer_to_peer_allowed ≡ true → Moves s (some p2p_attempt) p2p_active
  starts_relay : s.relay_allowed ≡ true → Moves s none relay_attempt
  retries_relay : s.relay_allowed ≡ true → Moves s (some relay_attempt) relay_attempt
  leaves_p2p : s.relay_allowed ≡ true → Moves s (some p2p_active) relay_attempt
  leaves_relay : s.relay_allowed ≡ true → Moves s (some relay_active) relay_attempt
  falls_back :
      s.relay_allowed ≡ true
      → s.peer_to_peer_to_relay_fallback ≡ true
      → Moves s (some p2p_attempt) relay_attempt
  reaches_relay : s.relay_allowed ≡ true → Moves s (some relay_attempt) relay_active

allows :
    (s : LiveSession) (t : Option LiveTransport) (w : LiveTransport)
    → s.transport_state ≡ t
    → is_ok (transport_checks s w) ≡ true
    → Moves s t w
unfolding transport_checks
allows s t p2p_attempt e h = tries_p2p (ground arith)
allows s (some p2p_attempt) p2p_active e h = reaches_p2p (ground arith)
allows s none p2p_active e h = absurd (ground arith)
allows s (some p2p_active) p2p_active e h = absurd (ground arith)
allows s (some relay_attempt) p2p_active e h = absurd (ground arith)
allows s (some relay_active) p2p_active e h = absurd (ground arith)
allows s none relay_attempt e h = starts_relay (ground arith)
allows s (some p2p_attempt) relay_attempt e h = falls_back (ground arith) (ground arith)
allows s (some p2p_active) relay_attempt e h = leaves_p2p (ground arith)
allows s (some relay_attempt) relay_attempt e h = retries_relay (ground arith)
allows s (some relay_active) relay_attempt e h = leaves_relay (ground arith)
allows s (some relay_attempt) relay_active e h = reaches_relay (ground arith)
allows s none relay_active e h = absurd (ground arith)
allows s (some p2p_active) relay_active e h = absurd (ground arith)
allows s (some p2p_attempt) relay_active e h = absurd (ground arith)
allows s (some relay_active) relay_active e h = absurd (ground arith)

permits :
    (s : LiveSession) (t : Option LiveTransport) (w : LiveTransport)
    → s.transport_state ≡ t
    → Moves s t w
    → is_ok (transport_checks s w) ≡ true
unfolding transport_checks
permits s t w e (tries_p2p p) = ground arith
permits s t w e (reaches_p2p p) = ground arith
permits s t w e (starts_relay r) = ground arith
permits s t w e (retries_relay r) = ground arith
permits s t w e (leaves_p2p r) = ground arith
permits s t w e (leaves_relay r) = ground arith
permits s t w e (falls_back r f) = ground arith
permits s t w e (reaches_relay r) = ground arith

-- The row that a new transport leaves.
abbrev pub moved : LiveTransport → LiveSession → LiveSession
moved wanted row = record row { state = state_of_transport wanted; transport_state = some wanted }

module _ (user_id device_id session_id : ℕ) (wanted : LiveTransport) (db : Database)
    (session : LiveSession) where
  answer : Result Reason (Unit {0}) → Result Reason (Unit {0}) → Result Reason LiveSession
  answer (ok u) (ok v) = ok (moved wanted session)
  answer (ok u) (err e) = err e
  answer (err e) r = err e

  update_transport_lem :
      find session_id db.live_sessions ≡ some session
      → is_participant session user_id device_id ≡ true
      → (update_transport user_id (some device_id) session_id wanted db).0
        ≡ answer (assert_transport_mutable session) (transport_checks session wanted)
  unfolding update_transport answer lift ◌>>=◌
  update_transport_lem found inside =
      rw (as_participant_lem user_id device_id session_id _ db session found inside)
        (elim (Result-cases (assert_transport_mutable session)) [
          | inl (e, refused) ↦ rw refused
          | inr (u, mutable) ↦ elim (Result-cases (transport_checks session wanted)) [
            | inl (e, refused) ↦ rw (mutable, refused)
            | inr (v, allowed) ↦
                rw (mutable, allowed, update_session_lem session_id _ db session found)
          ]
        ])

  answer-moved :
      (r r' : Result Reason (Unit {0})) (row : LiveSession)
      → answer r r' ≡ ok row
      → (is_ok r ≡ true) × (is_ok r' ≡ true) × (row ≡ moved wanted session)
  unfolding answer
  answer-moved (ok u) (ok v) row h = (refl, refl, cc)
  answer-moved (ok u) (err e) row h = absurd (no h)
    where
      no : err e ≡ ok row → ⊥
      no p = cc
  answer-moved (err e) r row h = absurd (no h)
    where
      no : err e ≡ ok row → ⊥
      no p = cc

  answer-ok :
      (r r' : Result Reason (Unit {0}))
      → is_ok r ≡ true
      → is_ok r' ≡ true
      → answer r r' ≡ ok (moved wanted session)
  unfolding answer
  answer-ok (ok u) (ok v) g h = refl
  answer-ok (ok u) (err e) g h = absurd (ground arith)
  answer-ok (err e) r g h = absurd (ground arith)

  mutable_iff :
      (is_ok (assert_transport_mutable session) ≡ true)
      ↔ ((is_connecting_or_active session.state ≡ true) × (both_confirmed session ≡ true))
  unfolding assert_transport_mutable
  mutable_iff = ground arith

-- For a participant, a change of transport is accepted exactly when the session is connecting or
-- active, both sides have confirmed, and the step from its transport is permitted; the answer is
-- then the row with that transport and the state that belongs to it.
pub update_transport_iff :
    (user_id device_id session_id : ℕ) (wanted : LiveTransport) (db : Database)
    (session row : LiveSession)
    → find session_id db.live_sessions ≡ some session
    → is_participant session user_id device_id ≡ true
    → ((update_transport user_id (some device_id) session_id wanted db).0 ≡ ok row) ↔ (
        (is_connecting_or_active session.state ≡ true)
        × (both_confirmed session ≡ true)
        × Moves session session.transport_state wanted
        × (row ≡ moved wanted session))
update_transport_iff user_id device_id session_id wanted db session row found inside =
    let e = update_transport_lem user_id device_id session_id wanted db session found inside in
    let m = mutable_iff user_id device_id session_id wanted db session in
    (
      (λ h.
          let (a, b, c) =
            answer-moved user_id device_id session_id wanted db session
              (assert_transport_mutable session) (transport_checks session wanted) row
              (sym e ∙ h) in
          let (p, q) = m.0 a in (p, q, allows session session.transport_state wanted refl b, c)),
      (λ (p, q, move, c).
          e
          ∙ (answer-ok user_id device_id session_id wanted db session
                (assert_transport_mutable session) (transport_checks session wanted) (m.1 (p, q))
                (permits session session.transport_state wanted refl move)
              ∙ ap ok (sym c))),
    )

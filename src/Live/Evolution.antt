-- ===== src/Live/Evolution.antt =====
-- What never changes about a live session, whatever is requested.
use liminalis.Common.{
  ℕ, ◌≡◌, refl, sym, ap, subst, ◌∙◌, Bool, true, none, some, List, [], ◌∷◌, arith, is_some, inl,
  inr, Bool-cases, ◌==◌, ==_iff, if◌then◌else◌,
}
use liminalis.Common.Exec.{ok}
use liminalis.Common.Table.{Table, find, find-Rows, find-update, find-create}
use liminalis.Schema.{LiveSession, Database, ConfidentialityLevel, UploadContentKind}
use liminalis.Live.Checks.{assert_joinable}
use liminalis.Live.Lifecycle.{confirmation_patch}
use liminalis.Live.Soundness.{IsSound}
use liminalis.Live.Requests.{Caller, LiveRequest, serve, serve_all}
use liminalis.Live.Steps.{
  Change, gains_joiner, is_confirmed, is_cancelled, takes_transport, is_completed, fails,
  falls_back, Steps, stays, starts, changes,
}
use liminalis.Live.History.{SoundTable, AllSound, Steps-SoundTable, serve-Steps}

-- The terms under which a session was created.
pub record Terms : Type 0 where
  pub initiator : ℕ × ℕ
  pub level : ConfidentialityLevel
  pub policy_bundle_id : ℕ
  pub session_code : List ℕ
  pub content : UploadContentKind × Bool
  pub transports : Bool × Bool × Bool
  pub fallback : Bool
  pub keeps_record : Bool
  pub times : ℕ × ℕ

abbrev pub terms : LiveSession → Terms
terms s = record {
  initiator = (s.initiator_user_id, s.initiator_device_id);
  level = s.confidentiality_level;
  policy_bundle_id = s.policy_bundle_id;
  session_code = s.session_code;
  content = (s.content_kind, s.grouped_transfer);
  transports = (s.relay_allowed, s.peer_to_peer_allowed, s.peer_to_peer_to_relay_fallback);
  fallback = s.live_to_stored_fallback_allowed;
  keeps_record = s.retain_record;
  times = (s.created_at, s.expires_at);
}

-- A later row of a session: the terms are the same, and whoever has joined, whatever is confirmed
-- and the upload of a fallback stay.
pub record Evolves (a b : LiveSession) : Type 0 where
  pub same_terms : terms b ≡ terms a
  pub joiner_stays : (u : ℕ) → a.joiner_user_id ≡ some u → b.joiner_user_id ≡ some u
  pub joiner_device_stays : (d : ℕ) → a.joiner_device_id ≡ some d → b.joiner_device_id ≡ some d
  pub initiator_stays_confirmed :
      is_some a.initiator_confirmed_at ≡ true → is_some b.initiator_confirmed_at ≡ true
  pub joiner_stays_confirmed :
      is_some a.joiner_confirmed_at ≡ true → is_some b.joiner_confirmed_at ≡ true
  pub upload_stays :
      (u : ℕ)
      → a.stored_fallback_upload_session_id ≡ some u
      → b.stored_fallback_upload_session_id ≡ some u

Evolves-kept :
    (a b : LiveSession)
    → terms b ≡ terms a
    → b.joiner_user_id ≡ a.joiner_user_id
    → b.joiner_device_id ≡ a.joiner_device_id
    → b.initiator_confirmed_at ≡ a.initiator_confirmed_at
    → b.joiner_confirmed_at ≡ a.joiner_confirmed_at
    → b.stored_fallback_upload_session_id ≡ a.stored_fallback_upload_session_id
    → Evolves a b
Evolves-kept a b t j d i k u = record {
  same_terms = t;
  joiner_stays = λ x e. j ∙ e;
  joiner_device_stays = λ x e. d ∙ e;
  initiator_stays_confirmed = λ e. ap is_some i ∙ e;
  joiner_stays_confirmed = λ e. ap is_some k ∙ e;
  upload_stays = λ x e. u ∙ e;
}

Evolves-refl : (s : LiveSession) → Evolves s s
Evolves-refl s = record {
  same_terms = refl;
  joiner_stays = λ u e. e;
  joiner_device_stays = λ d e. e;
  initiator_stays_confirmed = λ e. e;
  joiner_stays_confirmed = λ e. e;
  upload_stays = λ u e. e;
}

Evolves-trans : (a b c : LiveSession) → Evolves a b → Evolves b c → Evolves a c
Evolves-trans a b c f g = record {
  same_terms = g.same_terms ∙ f.same_terms;
  joiner_stays = λ u e. g.joiner_stays u (f.joiner_stays u e);
  joiner_device_stays = λ d e. g.joiner_device_stays d (f.joiner_device_stays d e);
  initiator_stays_confirmed = λ e. g.initiator_stays_confirmed (f.initiator_stays_confirmed e);
  joiner_stays_confirmed = λ e. g.joiner_stays_confirmed (f.joiner_stays_confirmed e);
  upload_stays = λ u e. g.upload_stays u (f.upload_stays u e);
}

unjoined : (s : LiveSession) (now : ℕ) → assert_joinable now s ≡ ok tt → s.joiner_user_id ≡ none
unfolding assert_joinable
unjoined s now h = ground arith

no_device : (s : LiveSession) → IsSound s → s.joiner_user_id ≡ none → s.joiner_device_id ≡ none
no_device s v e = let p = v.paired in ground arith

change-Evolves :
    (s : LiveSession) (patch : LiveSession → LiveSession)
    → IsSound s
    → Change s patch
    → Evolves s (patch s)
unfolding confirmation_patch
change-Evolves s patch v (gains_joiner now user_id device_id h) = record {
  same_terms = refl;
  joiner_stays = λ u e. absurd (clash (sym (unjoined s now h) ∙ e));
  joiner_device_stays = λ d e. absurd (clash (sym (no_device s v (unjoined s now h)) ∙ e));
  initiator_stays_confirmed = λ e. e;
  joiner_stays_confirmed = λ e. e;
  upload_stays = λ u e. e;
}
  where
    clash : {u : ℕ} → none ≡ some u → ⊥
    clash p = cc
change-Evolves s patch v (is_confirmed now by_initiator h) = record {
  same_terms = refl;
  joiner_stays = λ u e. e;
  joiner_device_stays = λ d e. e;
  initiator_stays_confirmed = λ e. ground arith;
  joiner_stays_confirmed = λ e. ground arith;
  upload_stays = λ u e. e;
}
change-Evolves s patch v (falls_back upload_id h fresh) = record {
  same_terms = refl;
  joiner_stays = λ u e. e;
  joiner_device_stays = λ d e. e;
  initiator_stays_confirmed = λ e. e;
  joiner_stays_confirmed = λ e. e;
  upload_stays = λ u e. absurd (clash (sym fresh ∙ e));
}
  where
    clash : {u : ℕ} → none ≡ some u → ⊥
    clash p = cc
change-Evolves s patch v is_cancelled = Evolves-kept s _ refl refl refl refl refl refl
change-Evolves s patch v (takes_transport wanted h k) =
    Evolves-kept s _ refl refl refl refl refl refl
change-Evolves s patch v (is_completed now) = Evolves-kept s _ refl refl refl refl refl refl
change-Evolves s patch v (fails reason) = Evolves-kept s _ refl refl refl refl refl refl

-- The row under a key after a step.
Steps-Evolves :
    (t t' : Table LiveSession) (id : ℕ) (s : LiveSession)
    → SoundTable t
    → Steps t t'
    → find id t ≡ some s
    → (s' : LiveSession) × (find id t' ≡ some s') × Evolves s s'
Steps-Evolves t t' id s all stays found = (s, found, Evolves-refl s)
Steps-Evolves t t' id s all (starts j now uuid user device level kind grouped decision free) found =
    (
      s,
      rw (find-create) (elim (Bool-cases (j == id)) [
        | inl e ↦ absurd (clash ((==_iff j id).0 e))
        | inr e ↦ rw (e, if◌then◌else◌) found
      ]),
      Evolves-refl s,
    )
  where
    clash : j ≡ id → ⊥
    clash same = no (sym (subst (λ i. find i t ≡ none) same free) ∙ found)
      where
        no : none ≡ some s → ⊥
        no p = cc
Steps-Evolves t t' id s all (changes j r patch known change) found = elim (Bool-cases (j == id)) [
  | inl e ↦
      let here : r ≡ s =
        only (sym (subst (λ i. find i t ≡ some r) ((==_iff j id).0 e) known) ∙ found) in
      (
        patch s,
        rw (find-update, e, found),
        subst (λ x. Evolves x (patch x)) here
            (change-Evolves r patch (find-Rows (λ i x. IsSound x) j t r known all.1) change),
      )
  | inr e ↦ (s, rw (find-update, e, if◌then◌else◌) found, Evolves-refl s)
]
  where
    only : some r ≡ some s → r ≡ s
    only p = cc

-- In any history from sound sessions, a session that is there stays there under its key, on the
-- terms that it was created with, and its joiner, its confirmations and the upload of its fallback
-- stay once they are set.
pub serve_all-Evolves :
    (requests : List (Caller × LiveRequest)) (db : Database) (id : ℕ) (s : LiveSession)
    → AllSound db
    → find id db.live_sessions ≡ some s
    → (s' : LiveSession) × (find id (serve_all requests db).live_sessions ≡ some s') × Evolves s s'
unfolding serve_all
serve_all-Evolves [] db id s all found = (s, found, Evolves-refl s)
serve_all-Evolves ((c, r) ∷ requests) db id s all found =
    let step = serve-Steps c r db all.0 in
    let (s', found', e) =
      Steps-Evolves db.live_sessions (serve c r db).live_sessions id s all step found in
    let (s'', found'', e') =
      serve_all-Evolves requests (serve c r db) id s'
        (Steps-SoundTable db.live_sessions (serve c r db).live_sessions step all) found' in
    (s'', found'', Evolves-trans s s' s'' e e')

-- ===== src/Live/Entry.antt =====
-- Creation and joining as steps of the abstract machine.
use liminalis.Common.{
  none, ap, sym, ◌∙◌, ℕ, ◌≡◌, subst, Bool, false, coalesce, Option, some, List, Option-cases, inl,
  inr,
}
use liminalis.Common.Exec.{ok, ◌>>=◌, pure, lift, gets, modify}
use liminalis.Common.Exec.Rules.{bind_rule, lift_rule, or_throw_rule, or_throw-ok}
use liminalis.Common.Exec.Leaves.{outcome-Leaves}
use liminalis.Common.Table.{Distinct, find, find_where, find-find_where, create}
use liminalis.Schema.{LiveSession, Database, ConfidentialityLevel, UploadContentKind}
use liminalis.Policy.{LiveDecision, trim, evaluate_live_transfer_creation}
use liminalis.Uploads.{level_or_default}
use liminalis.Live.Checks.{assert_joinable}
use liminalis.Live.Creation.{
  CreateLiveTransfer, create_session, new_session, join_session, get_session_by_code,
  insert_session, write_session, or_else, with_code, to_upper_case, to_lower_case,
}
use liminalis.Live.Rules.{live_sessions-project}
use liminalis.Live.Frames.{
  level_or_default-Leaves, evaluate_live-Leaves, get_session_by_code-Leaves,
}
use liminalis.Live.Refinement.{Stepped, update_session-Stepped}
use liminalis.Live.Steps.{Steps, stays, starts, gains_joiner}

-- The session that a code finds is the row under its key.
find-get_session_by_code :
    (code : List ℕ) (db db' : Database) (row : ℕ × LiveSession)
    → Distinct db.live_sessions
    → get_session_by_code code db ≡ (ok row, db')
    → (db' ≡ db) × (find row.0 db.live_sessions ≡ some row.1)
unfolding get_session_by_code
find-get_session_by_code code db db' row distinct h =
    let (same, chosen) =
      or_throw-ok
        (or_else (find_where (with_code (to_upper_case (trim code))) db.live_sessions)
          (find_where (with_code (to_lower_case (to_upper_case (trim code)))) db.live_sessions))
        _ row db db' h in
    (same, found_where _ _ chosen)
  where
    found_where :
        (p q : LiveSession → Bool)
        → or_else (find_where p db.live_sessions) (find_where q db.live_sessions) ≡ some row
        → find row.0 db.live_sessions ≡ some row.1
    found_where p q e = elim (Option-cases (find_where p db.live_sessions)) [
      | inl missed ↦
          find-find_where q db.live_sessions row.0 row.1 distinct (rw (missed, or_else) at e)
      | inr (a, hit) ↦
          find-find_where p db.live_sessions row.0 row.1 distinct (hit ∙ rw (hit, or_else) at e)
    ]

module _ (now user_id : ℕ) (device : Option ℕ) (db : Database) where
  pub join_session-Stepped :
      (code : List ℕ)
      → Distinct db.live_sessions
      → Stepped db.live_sessions (join_session now user_id device code db)
  unfolding join_session
  join_session-Stepped code distinct =
      or_throw_rule (Stepped db.live_sessions) device _ _ db stays λ device_id known.
        bind_rule (Stepped db.live_sessions) (get_session_by_code code) _ db
          (λ e db' h.
            subst (Steps db.live_sessions)
              (sym (outcome-Leaves (get_session_by_code-Leaves code) h)) stays)
          λ row db' h.
            let (same, found) = find-get_session_by_code code db db' row distinct h in
            rw same (
              lift_rule (Stepped db.live_sessions) (assert_joinable now row.1) _ db (λ e k. stays)
                λ u k.
                  update_session-Stepped row.0 _ db row.1 found
                    (gains_joiner now user_id device_id k))

  -- The end of `createSession`, in a database with the same sessions.
  write_session-Stepped :
      (id : ℕ) (uuid : List ℕ) (device_id : ℕ) (level : ConfidentialityLevel)
      (content_kind : UploadContentKind) (grouped : Bool) (decision : LiveDecision) (db' : Database)
      → db'.live_sessions ≡ db.live_sessions
      → Stepped db.live_sessions (
          write_session id
            (new_session now uuid user_id device_id level content_kind grouped decision)
            db')
  unfolding write_session insert_session gets lift modify pure ◌>>=◌
  write_session-Stepped id uuid device_id level content_kind grouped decision db' same =
      let session = new_session now uuid user_id device_id level content_kind grouped decision in
      elim (Option-cases (find id db'.live_sessions)) [
        | inl free ↦
            elim (Option-cases (find_where (with_code session.session_code) db'.live_sessions)) [
              | inl unused ↦
                  rw (free, unused)
                    (subst (Steps db.live_sessions)
                      (sym (live_sessions-project id _ ∙ ap (create id session) same))
                      (starts id now uuid user_id device_id level content_kind grouped decision
                        (subst (λ t. find id t ≡ none) same free)))
              | inr (a, taken) ↦ rw (free, taken) (subst (Steps db.live_sessions) (sym same) stays)
            ]
        | inr (a, present) ↦ rw present (subst (Steps db.live_sessions) (sym same) stays)
      ]

  pub create_session-Stepped :
      (id : ℕ) (uuid : List ℕ) (input : CreateLiveTransfer)
      → Stepped db.live_sessions (create_session now id uuid user_id device input db)
  unfolding create_session
  create_session-Stepped id uuid input =
      or_throw_rule (Stepped db.live_sessions) device _ _ db stays λ device_id known.
        bind_rule (Stepped db.live_sessions) (level_or_default input.confidentiality_level) _ db
          (λ e db' h.
            subst (Steps db.live_sessions) (sym (outcome-Leaves (level_or_default-Leaves _) h))
              stays)
          λ level db' h.
            bind_rule (Stepped db.live_sessions) (evaluate_live_transfer_creation _) _ db'
              (λ e db'' k.
                subst (Steps db.live_sessions)
                  (sym (
                    outcome-Leaves (evaluate_live-Leaves _) k
                    ∙ outcome-Leaves (level_or_default-Leaves _) h))
                  stays)
              λ decision db'' k.
                write_session-Stepped id uuid device_id level input.content_kind
                  (coalesce input.grouped_transfer false) decision db''
                  (outcome-Leaves (evaluate_live-Leaves _) k
                    ∙ outcome-Leaves (level_or_default-Leaves _) h)

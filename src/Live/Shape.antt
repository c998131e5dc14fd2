-- ===== src/Live/Shape.antt =====
-- Which sessions a stored fallback can carry on: the shape of their content.
use liminalis.Common.{ℕ, ◌≡◌, sym, subst, ◌∙◌, Option, none, some, arith}
use liminalis.Common.Exec.{Result, ok, err, pure, lift, ◌>>=◌}
use liminalis.Common.Exec.Rules.{bind_rule, lift_rule, modify_rule}
use liminalis.Common.Table.{find}
use liminalis.Schema.{LiveSession, Database, Reason, is_grouped_content}
use liminalis.Uploads.{
  PrepareUpload, prepare_upload, validate_content_shape, require_eligible_trusted_uploader,
  level_or_default,
}
use liminalis.Live.Fallback.{
  StoredFallback, begin_stored_fallback, continue_fallback, fallback_checks, fallback_upload,
}
use liminalis.Live.Rules.{as_participant_rule}

-- A property of the data, wherever the outcome is no exception.
abbrev WhereOk : {A : Type 0} → Type 0 → Result Reason A × Database → Type 0
WhereOk P (ok a, db) = P
WhereOk P (err e, db) = Unit

prepare_upload-shaped :
    (now id user_id : ℕ) (device : Option ℕ) (input : PrepareUpload) (db : Database)
    → WhereOk (validate_content_shape input ≡ ok tt) (prepare_upload now id user_id device input db)
unfolding prepare_upload
prepare_upload-shaped now id user_id device input db =
    bind_rule (WhereOk (validate_content_shape input ≡ ok tt))
      (require_eligible_trusted_uploader user_id) _ db (λ e db' h. tt)
      λ u db' h.
        bind_rule (WhereOk (validate_content_shape input ≡ ok tt))
          (level_or_default input.confidentiality_level) _ db' (λ e d k. tt)
          λ level d k.
            lift_rule (WhereOk (validate_content_shape input ≡ ok tt))
              (validate_content_shape input) _ d (λ e l. tt)
              λ v shaped. always (validate_content_shape input ≡ ok tt) shaped _
  where
    always : {A : Type 0} (P : Type 0) → P → (o : Result Reason A × Database) → WhereOk P o
    always P p (ok a, d) = p
    always P p (err e, d) = tt

fallback-agrees :
    (s : LiveSession)
    → validate_content_shape (fallback_upload s) ≡ ok tt
    → s.grouped_transfer ≡ is_grouped_content s.content_kind
unfolding validate_content_shape fallback_upload
fallback-agrees s h = ground arith

-- The grouped flag says the same as the content kind.
abbrev Agrees : LiveSession → Type 0
Agrees s = s.grouped_transfer ≡ is_grouped_content s.content_kind

continue_fallback-Agrees :
    (now upload_id user_id device_id session_id : ℕ) (s : LiveSession) (db : Database)
    → WhereOk (Agrees s) (continue_fallback now upload_id user_id device_id session_id s none db)
unfolding continue_fallback pure
continue_fallback-Agrees now upload_id user_id device_id session_id s db =
    bind_rule (WhereOk (Agrees s))
      (prepare_upload now upload_id user_id (some device_id) (fallback_upload s)) _ db (λ e d k. tt)
      λ row d k.
        let shaped =
          subst (WhereOk (validate_content_shape (fallback_upload s) ≡ ok tt)) k
            (prepare_upload-shaped now upload_id user_id (some device_id) (fallback_upload s) db) in
        modify_rule {R = Reason} (WhereOk (Agrees s)) _ _ d (fallback-agrees s shaped)

-- A stored fallback that has to start an upload is answered only for a session whose grouped flag
-- says the same as its content kind.
pub begin_stored_fallback-agrees :
    (now upload_id user_id session_id : ℕ) (device : Option ℕ) (db : Database) (s : LiveSession)
    (answer : StoredFallback)
    → find session_id db.live_sessions ≡ some s
    → s.stored_fallback_upload_session_id ≡ none
    → (begin_stored_fallback now upload_id user_id device session_id db).0 ≡ ok answer
    → s.grouped_transfer ≡ is_grouped_content s.content_kind
unfolding begin_stored_fallback
begin_stored_fallback-agrees now upload_id user_id session_id device db s answer found fresh h =
    extract _ h outcome
  where
    extract :
        (o : Result Reason StoredFallback × Database)
        → o.0 ≡ ok answer
        → WhereOk (Agrees s) o
        → Agrees s
    extract (ok a, d) e p = p
    extract (err e, d) k p = absurd (no k)
      where
        no : err e ≡ ok answer → ⊥
        no q = cc

    same : (x : LiveSession) → find session_id db.live_sessions ≡ some x → s ≡ x
    same x k = only (sym found ∙ k)
      where
        only : some s ≡ some x → s ≡ x
        only p = cc

    outcome : WhereOk (Agrees s) (begin_stored_fallback now upload_id user_id device session_id db)
    outcome =
        as_participant_rule (WhereOk (Agrees s)) user_id device session_id _ db (λ e. tt)
          λ device_id session known k allowed.
            subst
              (λ (x : LiveSession). WhereOk (Agrees s) (
                (lift (fallback_checks x) >>= λ _.
                continue_fallback now upload_id user_id device_id session_id x
                  x.stored_fallback_upload_session_id)
                  db))
              (same session k)
              (lift_rule (WhereOk (Agrees s)) (fallback_checks s) _ db (λ e l. tt)
                λ u l.
                  subst
                    (λ upload.
                      WhereOk (Agrees s)
                        (continue_fallback now upload_id user_id device_id session_id s upload db))
                    (sym fresh)
                    (continue_fallback-Agrees now upload_id user_id device_id session_id s db))

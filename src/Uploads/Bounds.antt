-- ===== src/Uploads/Bounds.antt =====
-- Registering and storing a part keeps a user within the quota.
use liminalis.Common.{
  ℕ, ◌+◌, ◌≡◌, refl, subst, ◌∙◌, inl, inr, Bool, true, false, Option, none, some, is_some, arith,
  Bool-cases, ltb, leb, ◌==◌, if◌then◌else◌, find_row,
}
use liminalis.Common.Exec.{Result, ok, err, throw, lift, modify, pure, ◌>>=◌}
use liminalis.Common.Exec.Rules.{lift_rule, gets_rule, or_throw_rule, bind_rule, modify_rule}
use liminalis.Common.Table.{Table, find}
use liminalis.Schema.{UploadSession, StoredObject, UploadPart, Database, Reason, Handler}
use liminalis.Uploads.Parts.{
  uploaded_by, refuse_expired_session, require_owned_active_upload_session, set_phase, is_part_of,
  storage_usage, storage_quota, is_part_at, size_of, upsert_part, write_part,
  require_storage_quota_for_part, exceeds_quota, register_upload_part, store_upload_part_body,
  remove_replaced, write_upload_part, PartBody, or_remove, removed, stored_part,
}
use liminalis.Uploads.Quota.{write_part-within}

-- A request that succeeds leaves the user within the quota, and a refused one leaves the parts.
abbrev pub Bounded : {A : Type 0} → ℕ → Database → Result Reason A × Database → Type 0
Bounded user_id db (ok a, s) = leb (storage_usage user_id s) (storage_quota user_id s) ≡ true
Bounded user_id db (err e, s) = s.upload_parts ≡ db.upload_parts

module _ (user_id : ℕ) (db : Database) where
  -- The session of a request that goes on is the user's, and nothing has changed.
  abbrev pub OfUser : ℕ → Result Reason UploadSession × Database → Type 0
  OfUser id (ok session, s) =
      (s ≡ db) × (is_some (uploaded_by user_id (find id db.upload_sessions)) ≡ true)
  OfUser id (err e, s) = s.upload_parts ≡ db.upload_parts

  pub require_owned-OfUser :
      (now id : ℕ) → OfUser id (require_owned_active_upload_session now user_id id db)
  unfolding require_owned_active_upload_session refuse_expired_session set_phase modify throw pure
      ◌>>=◌
  require_owned-OfUser now id = gets_rule (OfUser id) _ _ db (
      or_throw_rule (OfUser id) _ _ _ db refl λ session found.
        elim (Bool-cases (ltb session.expires_at now)) [
          | inl e ↦ rw (e, if◌then◌else◌) refl
          | inr e ↦
              rw (e, if◌then◌else◌)
                (lift_rule (OfUser id) _ _ db (λ x h. refl) (λ a h. (refl, rw (found) refl)))
        ])

module _ (user_id : ℕ) where
  -- The bytes of a part that the check lets through fit.
  abbrev Fitting : ℕ → ℕ → ℕ → Database → Result Reason (Unit {0}) × Database → Type 0
  Fitting id number incoming d (ok done, s) =
      (s ≡ d)
      × (leb (storage_usage user_id d + incoming)
            (storage_quota user_id d + size_of (find_row (is_part_at id number) d.upload_parts))
          ≡ true)
  Fitting id number incoming d (err e, s) = s.upload_parts ≡ d.upload_parts

  fits : (quota total : ℕ) → ltb quota total ≡ false → leb total quota ≡ true
  fits quota total e = ground arith

  require_quota-Fitting :
      (id number incoming : ℕ) (d : Database)
      → Fitting id number incoming d (require_storage_quota_for_part user_id id number incoming d)
  unfolding require_storage_quota_for_part lift
  require_quota-Fitting id number incoming d = gets_rule (Fitting id number incoming d) _ _ d (
      gets_rule (Fitting id number incoming d) _ _ d (
        gets_rule (Fitting id number incoming d) _ _ d (
          lift_rule (Fitting id number incoming d) _ _ d (λ x h. refl)
            λ a h.
              elim (Bool-cases (
                exceeds_quota (storage_usage user_id d)
                  (size_of (find_row (is_part_at id number) d.upload_parts)) incoming
                  (storage_quota user_id d))) [
                    | inl e ↦ rw (e) refl
                    | inr e ↦ rw (e) (refl, fits _ _ e)
                  ])))

  -- The end of both handlers.
  write_part-leb :
      (fresh : UploadPart) (d : Database)
      → is_part_of user_id d fresh ≡ true
      → leb (storage_usage user_id d + fresh.byte_size) (
          storage_quota user_id d
          + size_of
              (find_row (is_part_at fresh.upload_session_id fresh.part_number) d.upload_parts))
        ≡ true
      → leb
          (storage_usage user_id (write_part fresh d))
          (storage_quota user_id (write_part fresh d))
        ≡ true
  unfolding storage_quota write_part upsert_part set_phase
  write_part-leb fresh d own fit = write_part-within user_id fresh d own fit

-- What is left to show after a step that both handlers take.
module _ {A : Type 0} (user_id : ℕ) (db : Database) where
  owned_then :
      (now id : ℕ) (f : UploadSession → Handler A)
      → ((session : UploadSession)
          → is_some (uploaded_by user_id (find id db.upload_sessions)) ≡ true
          → Bounded user_id db (f session db))
      → Bounded user_id db ((require_owned_active_upload_session now user_id id >>= f) db)
  owned_then now id f k =
      bind_rule (Bounded user_id db) _ f db
        (λ e s h. subst (OfUser user_id db id) h (require_owned-OfUser user_id db now id))
        (λ session s h.
          go session s (subst (OfUser user_id db id) h (require_owned-OfUser user_id db now id)))
    where
      go :
          (session : UploadSession) (s : Database)
          → OfUser user_id db id (ok session, s)
          → Bounded user_id db (f session s)
      go session s owned = rw (owned.0) (k session owned.1)

  quota_then :
      (id number incoming : ℕ) (check : Handler (Unit {0})) (f : Unit {0} → Handler A)
      (d : Database)
      → d.upload_parts ≡ db.upload_parts
      → Fitting user_id id number incoming d (check d)
      → ((u : Unit {0})
          → Fitting user_id id number incoming d (ok u, d)
          → Bounded user_id db (f u d))
      → Bounded user_id db ((check >>= f) d)
  quota_then id number incoming check f d same checked k =
      bind_rule (Bounded user_id db) check f d (λ e s h. subst Fits h checked ∙ same)
        (λ u s h. go u s (subst Fits h checked))
    where
      Fits : Result Reason (Unit {0}) × Database → Type 0
      Fits = Fitting user_id id number incoming d

      go : (u : Unit {0}) (s : Database) → Fits (ok u, s) → Bounded user_id db (f u s)
      go u s fit = rw (fit.0) (k u (refl, fit.1))

  written_then :
      (limit : ℕ) (body : PartBody) (f : Unit {0} → Handler A)
      → ((u : Unit {0}) (stored : Table StoredObject)
          → Bounded user_id db (f u (record db { objects = stored })))
      → Bounded user_id db ((write_upload_part limit body >>= f) db)
  unfolding write_upload_part modify throw pure
  written_then limit body f k =
      bind_rule (Bounded user_id db) (write_upload_part limit body) f db
        (λ e s h. subst Written h written) (λ u s h. go u s (subst Written h written))
    where
      Written : Result Reason (Unit {0}) × Database → Type 0
      Written (ok u, s) = (stored : Table StoredObject) × (s ≡ record db { objects = stored })
      Written (err e, s) = s.upload_parts ≡ db.upload_parts

      written : Written (write_upload_part limit body db)
      written =
          lift_rule Written _ _ db (λ e h. refl)
            λ a h. modify_rule Written _ _ db (elim (Bool-cases (body.size == 0)) [
              | inl e ↦ rw (e, if◌then◌else◌) (modify_rule Written _ _ _ refl)
              | inr e ↦ rw (e, if◌then◌else◌) (_, refl)
            ])

      go : (u : Unit {0}) (s : Database) → Written (ok u, s) → Bounded user_id db (f u s)
      go u s there = rw (there.1) (k u there.0)

removed-Fitting :
    (user_id id number incoming key : ℕ) (d : Database) (o : Result Reason (Unit {0}) × Database)
    → Fitting user_id id number incoming d o
    → Fitting user_id id number incoming d (removed key o)
removed-Fitting user_id id number incoming key d (ok u, s) fit = fit
removed-Fitting user_id id number incoming key d (err e, s) fit = fit

-- The removal of the replaced object counts no bytes.
remove_replaced-leb :
    (user_id key : ℕ) (old : Option UploadPart) (d : Database)
    → leb (storage_usage user_id d) (storage_quota user_id d) ≡ true
    → leb
        (storage_usage user_id (remove_replaced key old d))
        (storage_quota user_id (remove_replaced key old d))
      ≡ true
unfolding storage_usage storage_quota
remove_replaced-leb user_id key none d h = h
remove_replaced-leb user_id key (some old) d h = elim (Bool-cases (old.storage_key == key)) [
  | inl e ↦ rw (e, if◌then◌else◌) h
  | inr e ↦ rw (e, if◌then◌else◌) h
]

-- A registration that succeeds leaves the bytes of the user's parts within the user's quota, and one
-- that is refused leaves the parts as they were.
pub register_upload_part-Bounded :
    (in_directory : ℕ → ℕ → ℕ → Bool) (now user_id : ℕ) (part : UploadPart) (db : Database)
    → Bounded user_id db (register_upload_part in_directory now user_id part db)
unfolding register_upload_part modify
register_upload_part-Bounded in_directory now user_id part db =
    owned_then user_id db now part.upload_session_id _ λ session own.
      lift_rule (Bounded user_id db) _ _ db (λ e h. refl)
        λ a h.
          lift_rule (Bounded user_id db) _ _ db (λ e h. refl)
            λ a h. gets_rule (Bounded user_id db) _ _ db (
              lift_rule (Bounded user_id db) _ _ db (λ e h. refl)
                λ a h.
                  quota_then user_id db part.upload_session_id part.part_number part.byte_size _ _
                    db refl (require_quota-Fitting user_id _ _ _ db)
                    (λ u fit. write_part-leb user_id part db own fit.1))

-- A body that is stored leaves the bytes of the user's parts within the user's quota, and one that is
-- refused leaves the parts as they were.
pub store_upload_part_body-Bounded :
    (limit now id user_id session_id number : ℕ) (body : PartBody) (db : Database)
    → Bounded user_id db (store_upload_part_body limit now id user_id session_id number body db)
unfolding store_upload_part_body modify or_remove pure
store_upload_part_body-Bounded limit now id user_id session_id number body db =
    lift_rule (Bounded user_id db) _ _ db (λ e h. refl)
      λ a h. owned_then user_id db now session_id _ λ session own.
        lift_rule (Bounded user_id db) _ _ db (λ e h. refl)
          λ a h. written_then user_id db limit body _ λ u stored.
            gets_rule (Bounded user_id db) _ _ _ (
              quota_then user_id db session_id number body.size _ _ (record db { objects = stored })
                refl
                (removed-Fitting user_id _ _ _ body.storage_key _ _
                  (require_quota-Fitting user_id _ _ _ _))
                (λ v fit. modify_rule (Bounded user_id db) _ _ _ (
                  remove_replaced-leb user_id body.storage_key
                    (find_row (is_part_at session_id number) db.upload_parts)
                    (write_part (stored_part id session_id number body)
                      (record db { objects = stored }))
                    (write_part-leb user_id (stored_part id session_id number body)
                      (record db { objects = stored }) own fit.1))))

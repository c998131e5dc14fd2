-- ===== src/Uploads/Quota.antt =====
-- What the parts of a user may take.
use liminalis.Common.{
  ℕ, ◌+◌, ◌≡◌, refl, sym, subst, inl, inr, Bool, true, Option, none, some, is_some, List, [], ◌∷◌,
  arith, Bool-cases, leb, ◌==◌, if◌then◌else◌, upsert_row, find_row,
}
use liminalis.Common.Table.{find, find-update}
use mathlib.Core.Option
use liminalis.Schema.{UploadSession, UploadSessionPhase, UploadPart, Database}
use liminalis.Uploads.Parts.{
  uploaded_by, set_phase, sum_bytes, is_part_of, storage_usage, storage_quota, is_part_at, size_of,
  keeping_id, upsert_part, write_part,
}

-- Writing a part under its key replaces the bytes of the old one.
sum_bytes-upsert_row :
    (counts same : UploadPart → Bool) (fresh : UploadPart) (parts : List UploadPart)
    → counts fresh ≡ true
    → ((part : UploadPart) → same part ≡ true → counts part ≡ true)
    → sum_bytes counts (upsert_row same fresh parts) + size_of (find_row same parts)
      ≡ sum_bytes counts parts + fresh.byte_size
unfolding sum_bytes upsert_row find_row
sum_bytes-upsert_row counts same fresh [] h k = rw (h, if◌then◌else◌) (omega arith)
sum_bytes-upsert_row counts same fresh (part ∷ parts) h k = elim (Bool-cases (same part)) [
  | inl e ↦ rw (e, if◌then◌else◌, h, if◌then◌else◌, k part e, if◌then◌else◌) (omega arith)
  | inr e ↦
      rw (e, if◌then◌else◌)
        (elim (Bool-cases (counts part)) [
          | inl c ↦
              rw (c, if◌then◌else◌)
                (omega (arith, sum_bytes-upsert_row counts same fresh parts h k))
          | inr c ↦
              rw (c, if◌then◌else◌)
                (omega (arith, sum_bytes-upsert_row counts same fresh parts h k))
        ])
]

-- Two tests that agree count the same bytes.
sum_bytes-agree :
    (f g : UploadPart → Bool) (parts : List UploadPart)
    → ((part : UploadPart) → f part ≡ g part)
    → sum_bytes f parts ≡ sum_bytes g parts
unfolding sum_bytes
sum_bytes-agree f g [] h = refl
sum_bytes-agree f g (part ∷ parts) h = rw (h part, sum_bytes-agree f g parts h) refl

-- The phase of a session does not change whose it is.
is_part_of-set_phase :
    (user_id id : ℕ) (phase : UploadSessionPhase) (db : Database) (part : UploadPart)
    → is_part_of user_id (set_phase id phase db) part ≡ is_part_of user_id db part
unfolding set_phase
is_part_of-set_phase user_id id phase db part =
    rw (find-update) (elim (Bool-cases (id == part.upload_session_id)) [
      | inl e ↦ rw (e, if◌then◌else◌) (same_owner (find part.upload_session_id db.upload_sessions))
      | inr e ↦ rw (e, if◌then◌else◌) refl
    ])
  where
    same_owner :
        (row : Option UploadSession)
        → is_some (
            uploaded_by user_id
              (Option.map {A = UploadSession} (λ s. record s { phase = phase }) row))
          ≡ is_some (uploaded_by user_id row)
    same_owner none = refl
    same_owner (some s) = elim (Bool-cases (s.uploader_user_id == user_id)) [
      | inl e ↦ rw (e) refl
      | inr e ↦ rw (e) refl
    ]

kept_owner :
    (user_id : ℕ) (db : Database) (old : Option UploadPart) (fresh : UploadPart)
    → is_part_of user_id db fresh ≡ true
    → is_part_of user_id db (keeping_id old fresh) ≡ true
kept_owner user_id db none fresh h = h
kept_owner user_id db (some old) fresh h = h

kept_size :
    (old : Option UploadPart) (fresh : UploadPart)
    → (keeping_id old fresh).byte_size ≡ fresh.byte_size
kept_size none fresh = refl
kept_size (some old) fresh = refl

-- The parts at the key of a part of a user are the user's.
same_session :
    (user_id : ℕ) (db : Database) (fresh part : UploadPart)
    → is_part_of user_id db fresh ≡ true
    → is_part_at fresh.upload_session_id fresh.part_number part ≡ true
    → is_part_of user_id db part ≡ true
same_session user_id db fresh part h k =
    subst (λ id. is_some (uploaded_by user_id (find id db.upload_sessions)) ≡ true) (same k) h
  where
    same :
        is_part_at fresh.upload_session_id fresh.part_number part ≡ true
        → fresh.upload_session_id ≡ part.upload_session_id
    same e = ground arith

storage_usage-write_part :
    (user_id : ℕ) (fresh : UploadPart) (db : Database)
    → is_part_of user_id db fresh ≡ true
    → storage_usage user_id (write_part fresh db)
        + size_of (find_row (is_part_at fresh.upload_session_id fresh.part_number) db.upload_parts)
      ≡ storage_usage user_id db + fresh.byte_size
unfolding write_part upsert_part storage_usage set_phase
storage_usage-write_part user_id fresh db own =
    let at = is_part_at fresh.upload_session_id fresh.part_number in
    let stored = keeping_id (find_row at db.upload_parts) fresh in
    subst
      (λ n. n + size_of (find_row at db.upload_parts) ≡ storage_usage user_id db + fresh.byte_size)
      (sym (
        sum_bytes-agree _ (is_part_of user_id db) (upsert_row at stored db.upload_parts) (
          is_part_of-set_phase user_id fresh.upload_session_id UploadSessionPhase.uploading
            (upsert_part fresh db))))
      (subst
        (λ n.
          sum_bytes (is_part_of user_id db) (upsert_row at stored db.upload_parts)
            + size_of (find_row at db.upload_parts)
          ≡ storage_usage user_id db + n)
        (kept_size (find_row at db.upload_parts) fresh)
        (sum_bytes-upsert_row (is_part_of user_id db) at stored db.upload_parts
          (kept_owner user_id db (find_row at db.upload_parts) fresh own)
          (λ part. same_session user_id db fresh part own)))

-- A part that the check of the quota lets through keeps the user within it.
pub write_part-within :
    (user_id : ℕ) (fresh : UploadPart) (db : Database)
    → is_part_of user_id db fresh ≡ true
    → leb (storage_usage user_id db + fresh.byte_size) (
        storage_quota user_id db
        + size_of (find_row (is_part_at fresh.upload_session_id fresh.part_number) db.upload_parts))
      ≡ true
    → leb (storage_usage user_id (write_part fresh db)) (storage_quota user_id db) ≡ true
write_part-within user_id fresh db own fits =
    lower _ _ _ _ _ (storage_usage-write_part user_id fresh db own) fits
  where
    lower :
        (after replaced before incoming quota : ℕ)
        → after + replaced ≡ before + incoming
        → leb (before + incoming) (quota + replaced) ≡ true
        → leb after quota ≡ true
    lower after replaced before incoming quota e h = ground arith

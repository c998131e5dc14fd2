-- ===== src/Extraction/Left.antt =====
-- What an extraction has left, and the handlers that keep it.
use liminalis.Common.{
  Bool, ℕ, ◌≡◌, refl, ap, ◌∙◌, inl, inr, Option, none, some, List, if◌then◌else◌, Bool-cases, ◌==◌,
}
use liminalis.Common.Exec.Keeps.{Keeps, keeps_rules}
use liminalis.Common.Table.{Table, find, find-update}
use liminalis.Schema.{
  ExtractionAccess, ExtractionState, PackageReference, RetrievalAttempt, SourceItem, Database,
}
use liminalis.Links.{refuse_expired}
use liminalis.Retrieval.Attempts.{upsert_attempt, ensure_reference}
use liminalis.Extraction.State.{
  set_access, load_access, store_state, refresh_extraction_state, refresh_by_entry_token,
}
use liminalis.Extraction.Submission.{
  SubmitPassword, get_extraction_entry, check_password, submit_password,
}
use liminalis.Extraction.Completion.{load_extraction_attempt, create_download_stream}
use mathlib.Core.Option
use liminalis.Retrieval.Stable.{upsert_attempt-Keeps, ensure_reference-Keeps}

abbrev pub left_of : Option ExtractionAccess → Option ℕ
left_of none = none
left_of (some access) = some access.remaining_retrieval_count

-- What an access has left.
abbrev pub left : ℕ → Database → Option ℕ
left id db = left_of (find id db.extraction_accesses)

module _ (id n : ℕ) where
  abbrev pub Left : Database → Type 0
  Left db = left id db ≡ some n

  pub set_access-Left :
      (key : ℕ) (patch : ExtractionAccess → ExtractionAccess) (db : Database)
      → ((row : ExtractionAccess)
          → (patch row).remaining_retrieval_count ≡ row.remaining_retrieval_count)
      → Left db
      → Left (set_access key patch db)
  unfolding set_access
  set_access-Left key patch db same has = rw (find-update) (elim (Bool-cases (key == id)) [
    | inl e ↦ rw (e, if◌then◌else◌) (go (find id db.extraction_accesses) ∙ has)
    | inr e ↦ rw (e, if◌then◌else◌) has
  ])
    where
      go : (o : Option ExtractionAccess) → left_of (Option.map patch o) ≡ left_of o
      go none = refl
      go (some row) = ap some (same row)

  load_access-Keeps : (key : ℕ) → Keeps Left (load_access key)
  unfolding load_access
  load_access-Keeps key = search keeps_rules depth 12

  store_state-Keeps :
      (key : ℕ) (loaded : ExtractionAccess × SourceItem) (next : ExtractionState)
      → Keeps Left (store_state key loaded next)
  unfolding store_state
  store_state-Keeps key loaded next = search (keeps_rules, set_access-Left) depth 12

  refresh_extraction_state-Keeps : (now key : ℕ) → Keeps Left (refresh_extraction_state now key)
  unfolding refresh_extraction_state
  refresh_extraction_state-Keeps now key =
      search (keeps_rules, load_access-Keeps, store_state-Keeps) depth 12

  pub refresh_by_entry_token-Keeps : (now token : ℕ) → Keeps Left (refresh_by_entry_token now token)
  unfolding refresh_by_entry_token
  refresh_by_entry_token-Keeps now token =
      search (keeps_rules, refresh_extraction_state-Keeps) depth 12

  pub get_extraction_entry-Keeps : (now token : ℕ) → Keeps Left (get_extraction_entry now token)
  unfolding get_extraction_entry
  get_extraction_entry-Keeps now token = search (keeps_rules, refresh_by_entry_token-Keeps) depth 12

  check_password-Keeps :
      (verify : ℕ → List ℕ → Bool) (key : ℕ) (access : ExtractionAccess) (password : List ℕ)
      → Keeps Left (check_password verify key access password)
  unfolding check_password
  check_password-Keeps verify key access password = search (keeps_rules, set_access-Left) depth 12

  access_kept :
      (attempts : Table RetrievalAttempt) (db : Database)
      → Left db
      → Left (record db { retrieval_attempts = attempts })
  access_kept attempts db has = has

  reference_kept :
      (references : Table PackageReference) (db : Database)
      → Left db
      → Left (record db { package_references = references })
  reference_kept references db has = has

  upserted :
      (same : RetrievalAttempt → Bool) (key : ℕ) (fresh : RetrievalAttempt)
      → Keeps Left (upsert_attempt same key fresh)
  upserted = upsert_attempt-Keeps Left access_kept

  ensured :
      (attempt : ℕ × RetrievalAttempt) (key : ℕ) (fresh : PackageReference)
      → Keeps Left (ensure_reference attempt key fresh)
  ensured = ensure_reference-Keeps Left access_kept reference_kept

  pub submit_password-Keeps :
      (verify : ℕ → List ℕ → Bool) (now : ℕ) (new : ℕ × ℕ) (token scope_key : ℕ)
      (input : SubmitPassword)
      → Keeps Left (submit_password verify now new token scope_key input)
  unfolding submit_password
  submit_password-Keeps verify now new token scope_key input =
      search
        (
          keeps_rules, refresh_by_entry_token-Keeps, check_password-Keeps, upserted, ensured,
          set_access-Left,
        )
        depth 24

  load_extraction_attempt-Keeps : (attempt_id : ℕ) → Keeps Left (load_extraction_attempt attempt_id)
  unfolding load_extraction_attempt
  load_extraction_attempt-Keeps attempt_id = search keeps_rules depth 12

  pub refuse_expired-Keeps :
      (now key : ℕ) (item : SourceItem) → Keeps Left (refuse_expired now key item)
  unfolding refuse_expired
  refuse_expired-Keeps now key item = search keeps_rules depth 12

  pub create_download_stream-Keeps :
      (now attempt_id : ℕ) → Keeps Left (create_download_stream now attempt_id)
  unfolding create_download_stream
  create_download_stream-Keeps now attempt_id =
      search
        (
          keeps_rules, load_extraction_attempt-Keeps, refresh_extraction_state-Keeps,
          refuse_expired-Keeps,
        )
        depth 24

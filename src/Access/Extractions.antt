-- ===== src/Access/Extractions.antt =====
-- What happens to password extractions keeps the items that have ended.
use liminalis.Common.{ℕ, Bool, List}
use liminalis.Common.Exec.Keeps.{Keeps, keeps_rules}
use liminalis.Common.Table.{Table}
use liminalis.Schema.{
  ExtractionAccess, ExtractionState, PackageFamily, PackageReference, RetrievalAttempt, SourceItem,
  Database,
}
use liminalis.Retrieval.New.{insert-Keeps}
use liminalis.Retrieval.Attempts.{set_attempt, upsert_attempt, ensure_reference}
use liminalis.Retrieval.Stable.{upsert_attempt-Keeps, ensure_reference-Keeps}
use liminalis.Extraction.{
  set_access, load_access, store_state, refresh_extraction_state, refresh_by_entry_token,
  require_new_token, insert_access, NewExtraction, CreateExtraction, create_extraction,
  get_extraction_entry, SubmitPassword, check_password, submit_password, load_extraction_attempt,
  store_completion, complete_extraction_retrieval, create_download_stream,
}
use liminalis.Extraction.Requests.{
  ExtractionRequest, creates, enters, submits, completes, downloads, serve_extraction,
}
use liminalis.Access.Ended.{Ended, evaluate_extraction_creation-Keeps}
use liminalis.Access.Items.{refuse_expired-Keeps}

module _ (id : ℕ) where
  pub attempts_kept :
      (t : Table RetrievalAttempt) (db : Database)
      → Ended id db
      → Ended id (record db { retrieval_attempts = t })
  attempts_kept t db h = h

  pub references_kept :
      (t : Table PackageReference) (db : Database)
      → Ended id db
      → Ended id (record db { package_references = t })
  references_kept t db h = h

  pub upserted :
      (same : RetrievalAttempt → Bool) (key : ℕ) (fresh : RetrievalAttempt)
      → Keeps (Ended id) (upsert_attempt same key fresh)
  upserted = upsert_attempt-Keeps (Ended id) attempts_kept

  pub ensured :
      (attempt : ℕ × RetrievalAttempt) (key : ℕ) (fresh : PackageReference)
      → Keeps (Ended id) (ensure_reference attempt key fresh)
  ensured = ensure_reference-Keeps (Ended id) attempts_kept references_kept

  load_access-Keeps : (key : ℕ) → Keeps (Ended id) (load_access key)
  unfolding load_access
  load_access-Keeps key = search keeps_rules depth 12

  store_state-Keeps :
      (key : ℕ) (loaded : ExtractionAccess × SourceItem) (next : ExtractionState)
      → Keeps (Ended id) (store_state key loaded next)
  unfolding store_state set_access
  store_state-Keeps key loaded next = search keeps_rules depth 12

  refresh_extraction_state-Keeps :
      (now key : ℕ) → Keeps (Ended id) (refresh_extraction_state now key)
  unfolding refresh_extraction_state
  refresh_extraction_state-Keeps now key =
      search (keeps_rules, load_access-Keeps, store_state-Keeps) depth 12

  refresh_by_entry_token-Keeps :
      (now token : ℕ) → Keeps (Ended id) (refresh_by_entry_token now token)
  unfolding refresh_by_entry_token
  refresh_by_entry_token-Keeps now token =
      search (keeps_rules, refresh_extraction_state-Keeps) depth 12

  require_new_token-Keeps : (token : ℕ) → Keeps (Ended id) (require_new_token token)
  unfolding require_new_token
  require_new_token-Keeps token = search keeps_rules depth 12

  insert_access-Keeps :
      (key : ℕ) (access : ExtractionAccess) (family_id : ℕ) (family : PackageFamily)
      → Keeps (Ended id) (insert_access key access family_id family)
  unfolding insert_access
  insert_access-Keeps key access family_id family =
      search (keeps_rules, require_new_token-Keeps, insert-Keeps) depth 14

  create_extraction-Keeps :
      (hash : ℕ → List ℕ → ℕ) (now : ℕ) (new : NewExtraction) (owner : ℕ) (input : CreateExtraction)
      → Keeps (Ended id) (create_extraction hash now new owner input)
  unfolding create_extraction
  create_extraction-Keeps hash now new owner input =
      search
        (keeps_rules, refuse_expired-Keeps, evaluate_extraction_creation-Keeps, insert_access-Keeps)
        depth 30

  get_extraction_entry-Keeps : (now token : ℕ) → Keeps (Ended id) (get_extraction_entry now token)
  unfolding get_extraction_entry
  get_extraction_entry-Keeps now token = search (keeps_rules, refresh_by_entry_token-Keeps) depth 12

  check_password-Keeps :
      (verify : ℕ → List ℕ → Bool) (key : ℕ) (access : ExtractionAccess) (password : List ℕ)
      → Keeps (Ended id) (check_password verify key access password)
  unfolding check_password set_access
  check_password-Keeps verify key access password = search keeps_rules depth 12

  submit_password-Keeps :
      (verify : ℕ → List ℕ → Bool) (now : ℕ) (new : ℕ × ℕ) (token scope_key : ℕ)
      (input : SubmitPassword)
      → Keeps (Ended id) (submit_password verify now new token scope_key input)
  unfolding submit_password set_access
  submit_password-Keeps verify now new token scope_key input =
      search (keeps_rules, refresh_by_entry_token-Keeps, check_password-Keeps, upserted, ensured)
        depth 30

  load_extraction_attempt-Keeps :
      (attempt_id : ℕ) → Keeps (Ended id) (load_extraction_attempt attempt_id)
  unfolding load_extraction_attempt
  load_extraction_attempt-Keeps attempt_id = search keeps_rules depth 12

  complete_extraction_retrieval-Keeps :
      (now attempt_id : ℕ) (success : Bool)
      → Keeps (Ended id) (complete_extraction_retrieval now attempt_id success)
  unfolding complete_extraction_retrieval store_completion set_access set_attempt
  complete_extraction_retrieval-Keeps now attempt_id success =
      search (keeps_rules, load_extraction_attempt-Keeps) depth 24

  create_download_stream-Keeps :
      (now attempt_id : ℕ) → Keeps (Ended id) (create_download_stream now attempt_id)
  unfolding create_download_stream
  create_download_stream-Keeps now attempt_id =
      search
        (
          keeps_rules, load_extraction_attempt-Keeps, refresh_extraction_state-Keeps,
          refuse_expired-Keeps,
        )
        depth 30

  pub serve_extraction-Ended :
      (hash : ℕ → List ℕ → ℕ) (verify : ℕ → List ℕ → Bool) (r : ℕ × ExtractionRequest)
      (db : Database)
      → Ended id db
      → Ended id (serve_extraction hash verify r db)
  unfolding serve_extraction
  serve_extraction-Ended hash verify (now, creates new owner input) db h =
      (create_extraction-Keeps hash now new owner input).at db h
  serve_extraction-Ended hash verify (now, enters token) db h =
      (get_extraction_entry-Keeps now token).at db h
  serve_extraction-Ended hash verify (now, submits new token scope_key input) db h =
      (submit_password-Keeps verify now new token scope_key input).at db h
  serve_extraction-Ended hash verify (now, completes attempt_id success) db h =
      (complete_extraction_retrieval-Keeps now attempt_id success).at db h
  serve_extraction-Ended hash verify (now, downloads attempt_id) db h =
      (create_download_stream-Keeps now attempt_id).at db h

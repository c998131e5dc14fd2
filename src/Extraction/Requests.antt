-- ===== src/Extraction/Requests.antt =====
-- The requests of extraction.controller.ts as one step function, and the completions of a history.
use liminalis.Common.{ℕ, ◌+◌, Bool, true, Option, none, some, List, [], ◌∷◌, ◌==◌, if◌then◌else◌}
use liminalis.Common.Table.{find}
use liminalis.Schema.{Database, RetrievalAttempt, is_completed_attempt}
use liminalis.Extraction.Creation.{NewExtraction, CreateExtraction, create_extraction}
use liminalis.Extraction.Submission.{SubmitPassword, get_extraction_entry, submit_password}
use liminalis.Extraction.Completion.{
  extraction_attempt, complete_extraction_retrieval, create_download_stream,
}

-- Keys and tokens of new rows are part of the request.
pub data ExtractionRequest : Type 0 where
  creates : NewExtraction → (owner_user_id : ℕ) → CreateExtraction → ExtractionRequest
  enters : (entry_token : ℕ) → ExtractionRequest
  submits : ℕ × ℕ → (entry_token scope_key : ℕ) → SubmitPassword → ExtractionRequest
  completes : (attempt_id : ℕ) → (success : Bool) → ExtractionRequest
  downloads : (attempt_id : ℕ) → ExtractionRequest

-- The first component is the time.
unfoldable pub serve_extraction :
    (ℕ → List ℕ → ℕ) → (ℕ → List ℕ → Bool) → ℕ × ExtractionRequest → Database → Database
serve_extraction hash verify (now, creates new owner input) db =
    (create_extraction hash now new owner input db).1
serve_extraction hash verify (now, enters token) db = (get_extraction_entry now token db).1
serve_extraction hash verify (now, submits new token scope_key input) db =
    (submit_password verify now new token scope_key input db).1
serve_extraction hash verify (now, completes attempt_id success) db =
    (complete_extraction_retrieval now attempt_id success db).1
serve_extraction hash verify (now, downloads attempt_id) db =
    (create_download_stream now attempt_id db).1

unfoldable pub serve_extractions :
    (ℕ → List ℕ → ℕ) → (ℕ → List ℕ → Bool) → List (ℕ × ExtractionRequest) → Database → Database
serve_extractions hash verify [] db = db
serve_extractions hash verify (r ∷ rs) db =
    serve_extractions hash verify rs (serve_extraction hash verify r db)

-- Whether a request completes an attempt of an access that was not completed.
abbrev pub completes_at : ℕ → Option (ℕ × RetrievalAttempt) → ℕ
completes_at id none = 0
completes_at id (some (key, attempt)) =
    if is_completed_attempt attempt.status then 0 else if key == id then 1 else 0

unfoldable pub completions_of : ℕ → ℕ × ExtractionRequest → Database → ℕ
completions_of id (now, completes attempt_id true) db =
    completes_at id (extraction_attempt (find attempt_id db.retrieval_attempts))
completions_of id _ db = 0

unfoldable pub total_completions :
    (ℕ → List ℕ → ℕ) → (ℕ → List ℕ → Bool) → ℕ → List (ℕ × ExtractionRequest) → Database → ℕ
total_completions hash verify id [] db = 0
total_completions hash verify id (r ∷ rs) db =
    completions_of id r db + total_completions hash verify id rs (serve_extraction hash verify r db)

-- ===== src/Extraction/Tests.antt =====
-- A concrete password extraction, and the theorems on extractions at it.
use liminalis.Common.{
  ℕ, ◌-◌, ◌≡◌, refl, Bool, true, false, none, some, List, [], ◌∷◌, length, ◌==◌, ==_self,
}
use liminalis.Common.Exec.{ok, is_ok, gets, or_throw, lift, modify, pure, throw, transaction, ◌>>=◌}
use liminalis.Common.Table.{find, find_where, find_many, create, update}
use liminalis.Schema.{
  ExtractionAccess, ExtractionState, PackageFamily, password_extraction, given, RetrievalAttempt,
  Database,
}
use liminalis.Links.Tests.{file_item, linked}
use liminalis.Links.{refuse_expired, clamp_valid_until}
use liminalis.Policy.{
  evaluate_extraction_creation, extraction_decision, to_number, to_nullable_number,
}
use liminalis.Policy.Current.{get_current_bundle, latest}
use liminalis.Retrieval.New.{insert, require_new}
use liminalis.Retrieval.Attempts.{
  set_attempt, renew_attempt, upsert_attempt, keep_reference, ensure_reference,
}
use liminalis.Extraction.{
  set_access, load_access, next_state, store_state, refresh_extraction_state,
  refresh_by_entry_token, require_new_token, newest_family, first_family, resolve_password,
  new_family, new_access, insert_access, NewExtraction, CreateExtraction, CreatedExtraction,
  create_extraction, SubmitPassword, ExtractionPackage, check_password, submit_password,
  new_attempt,
}
use liminalis.Extraction.Requests.{submits, completes, serve_extractions, total_completions}
use liminalis.Extraction.Left.{left}
use liminalis.Extraction.Balance.{serve_extractions-balance}
use liminalis.Extraction.Secrecy.{IsHandedOut, submit_password-IsHandedOut}
use liminalis.Extraction.Captcha.{submit_password-asks}
use liminalis.Extraction.Delivery.{IsReady, submit_password-delivers}
use liminalis.Extraction.Opened.{create_extraction-submit_password}

-- A hash and its verification.
abbrev pub toy_hash : ℕ → List ℕ → ℕ
toy_hash salt password = length password

abbrev pub toy_verify : ℕ → List ℕ → Bool
toy_verify hash password = hash == length password

abbrev pub access : ExtractionAccess
access = record {
  source_item_id = 5;
  share_object_id = none;
  policy_bundle_id = 1;
  state = ExtractionState.active;
  entry_token = 700;
  password_hash = 3;
  require_system_generated_password = false;
  configured_retrieval_count = 3;
  remaining_retrieval_count = 2;
  failed_password_attempts = 0;
  valid_until = some 900;
}

abbrev pub family : PackageFamily
family = record {
  source_item_id = some 5;
  share_object_id = none;
  extraction_access_id = some 7;
  kind = password_extraction;
  family_version = 1;
  reference_blob = given 1;
}

abbrev pub under_way : RetrievalAttempt
under_way = new_attempt 7 5 1

abbrev pub extracted : Database
extracted = record linked {
  extraction_accesses = (7, access) ∷ [];
  package_families = (8, family) ∷ [];
  retrieval_attempts = (9, under_way) ∷ [];
}

abbrev right_password : SubmitPassword
right_password = record { password = 1 ∷ 2 ∷ 3 ∷ []; captcha_satisfied = false }

abbrev wrong_password : SubmitPassword
wrong_password = record { password = 1 ∷ []; captcha_satisfied = false }

serve_extractions-balance_example :
    left 7 (
      serve_extractions toy_hash toy_verify
        ((10, completes 9 true) ∷ (11, submits (20, 21) 700 2 right_password) ∷ [])
        extracted)
    ≡ some (
        2
        - total_completions toy_hash toy_verify 7
            ((10, completes 9 true) ∷ (11, submits (20, 21) 700 2 right_password) ∷ [])
            extracted)
unfolding find
serve_extractions-balance_example =
    serve_extractions-balance toy_hash toy_verify 7
      ((10, completes 9 true) ∷ (11, submits (20, 21) 700 2 right_password) ∷ []) extracted 2 refl

submit_password-asks_example :
    (is_ok (submit_password toy_verify 10 (20, 21) 700 2 wrong_password extracted).0 ≡ false)
    × (is_ok
          (submit_password toy_verify 12
            (22, 23)
            700
            3
            right_password
            (submit_password toy_verify 10 (20, 21) 700 2 wrong_password extracted).1).0
        ≡ false)
unfolding find find_where
submit_password-asks_example =
    submit_password-asks toy_verify 10 12 (20, 21) (22, 23) 700 2 3 7 wrong_password right_password
      extracted access file_item (refl, tt) refl refl refl refl

ready : IsReady 10 700 7 extracted access file_item (8, family)
unfolding find find_where find_many first_family newest_family
ready = record {
  chosen = refl;
  found = refl;
  source = refl;
  retrievable = record {
    row_state = refl;
    item_active = refl;
    item_in_time = refl;
    in_time = refl;
    left_over = refl;
  };
  packed = refl;
}

submit_password-delivers_example :
    (handed : ExtractionPackage) × (d : Database) × (submit_password toy_verify 10
        (20, 21)
        700
        2
        right_password
        extracted
      ≡ (ok handed, d))
    × (handed.extraction_access_id ≡ 7)
    × (handed.item ≡ file_item)
    × (handed.remaining_retrieval_count ≡ 2)
unfolding find
submit_password-delivers_example =
    submit_password-delivers 10 700 7 extracted access file_item (8, family) ready toy_verify
      (20, 21) 2 right_password refl refl refl refl

submit_password-IsHandedOut_example :
    IsHandedOut toy_verify 10 700 right_password extracted 7 5 file_item
unfolding submit_password check_password refresh_by_entry_token refresh_extraction_state load_access
    store_state next_state first_family newest_family upsert_attempt renew_attempt ensure_reference
    keep_reference insert require_new set_attempt set_access find find_where find_many create update
    gets or_throw lift modify pure throw ◌>>=◌
submit_password-IsHandedOut_example =
    submit_password-IsHandedOut toy_verify 10 (20, 21) 700 2 right_password extracted
      (submit_password toy_verify 10 (20, 21) 700 2 right_password extracted).1 _ refl

abbrev keys : NewExtraction
keys = record { access_id = 30; family_id = 31; token = 701; uuids = ([], []); salt = 0 }

abbrev request : CreateExtraction
request = record {
  source_item_id = 5;
  password = some (1 ∷ 2 ∷ []);
  requested_validity_minutes = none;
  requested_retrieval_count = none;
  package_reference = none;
}

abbrev stored : ExtractionAccess
stored = record {
  source_item_id = 5;
  share_object_id = none;
  policy_bundle_id = 1;
  state = ExtractionState.active;
  entry_token = 701;
  password_hash = 2;
  require_system_generated_password = false;
  configured_retrieval_count = 1;
  remaining_retrieval_count = 1;
  failed_password_attempts = 0;
  valid_until = none;
}

abbrev created : CreatedExtraction
created = record { access_id = 30; access = stored; password = 1 ∷ 2 ∷ [] }

abbrev with_created : Database
with_created = record linked {
  extraction_accesses = (30, stored) ∷ [];
  package_families = (31, new_family 30 5 none) ∷ [];
}

linked-creates : create_extraction toy_hash 10 keys 1 request linked ≡ (ok created, with_created)
unfolding create_extraction refuse_expired insert_access new_access new_family require_new_token
    insert require_new resolve_password clamp_valid_until evaluate_extraction_creation
    extraction_decision get_current_bundle latest to_number to_nullable_number gets or_throw lift
    modify pure transaction ◌>>=◌ find find_where create
linked-creates = refl

create_extraction-submit_password_example :
    (handed : ExtractionPackage) × (d : Database) × (submit_password toy_verify 99
        (20, 21)
        701
        2
        (record { password = 1 ∷ 2 ∷ []; captcha_satisfied = false })
        with_created
      ≡ (ok handed, d))
    × (find 5 with_created.source_items ≡ some handed.item)
unfolding find
create_extraction-submit_password_example =
    create_extraction-submit_password toy_hash toy_verify
      (λ salt password. ==_self (length password)) 10 keys 1 request linked with_created created
      linked-creates 99 (20, 21) 2 refl refl refl

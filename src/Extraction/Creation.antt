-- ===== src/Extraction/Creation.antt =====
-- `createExtraction` with `resolvePassword`, `generateSystemPassword` and `clampValidUntil`. The
-- policy snapshot of the row is left out.
use liminalis.Common.{
  ℕ, Bool, not, Option, none, some, List, [], ◌∷◌, ◌++◌, map, ◌==◌, ◌-◌, if◌then◌else◌,
}
use liminalis.Common.Exec.{
  bad_request, not_found, database, guard, lift, gets, pure, or_throw, transaction, ◌>>=◌, ◌>>◌,
}
use liminalis.Common.Table.{find}
use liminalis.Schema.{
  SourceItem, ExtractionAccess, ExtractionState, PackageFamily, password_extraction,
  legacy_password_extraction, Database, Handler, Num, is_active_item, is_text,
  source_item_not_found, source_item_not_eligible, text_not_outward, value_not_storable,
}
use liminalis.Policy.{ExtractionDecision, evaluate_extraction_creation, lifetime_ms}
use liminalis.Links.{clamp_valid_until, own_item, refuse_expired, column_int, after_minutes}
use liminalis.Extraction.State.{require_new_token}
use liminalis.Retrieval.New.{insert}
use liminalis.Retrieval.Attempts.{reference_or}

-- `slice(0, count)` of code units.
unfoldable pub slice : ℕ → List ℕ → List ℕ
slice count [] = []
slice count (c ∷ cs) = if count == 0 then [] else c ∷ slice (count - 1) cs

-- `replace(/-/g, '!')`
abbrev pub dash_to_bang : ℕ → ℕ
dash_to_bang c = if c == 45 then 33 else c

-- Two random UUIDs and `Aa1!`.
unfoldable pub generate_system_password : List ℕ → List ℕ → List ℕ
generate_system_password first second =
    slice 32 (map dash_to_bang (first ++ (second ++ 65 ∷ 97 ∷ 49 ∷ 33 ∷ [])))

-- `generated` is the password that the system makes.
unfoldable pub resolve_password : Option (List ℕ) → Bool → List ℕ → List ℕ
resolve_password none required generated = generated
resolve_password (some []) required generated = generated
resolve_password (some (c ∷ cs)) required generated = if required then generated else c ∷ cs

pub record CreateExtraction : Type 0 where
  pub source_item_id : ℕ
  pub password : Option (List ℕ)
  pub requested_validity_minutes : Option Num
  pub requested_retrieval_count : Option Num
  pub package_reference : Option ℕ

unfoldable pub new_family : ℕ → ℕ → Option ℕ → PackageFamily
new_family access_id item_id package_reference = record {
  source_item_id = some item_id;
  share_object_id = none;
  extraction_access_id = some access_id;
  kind = password_extraction;
  family_version = 1;
  reference_blob = reference_or package_reference (legacy_password_extraction item_id access_id);
}

-- What is random or made outside: the keys of the new rows, the entry token, the two UUIDs of a
-- password that the system makes, and the salt of its hash.
pub record NewExtraction : Type 0 where
  pub access_id : ℕ
  pub family_id : ℕ
  pub token : ℕ
  pub uuids : List ℕ × List ℕ
  pub salt : ℕ

-- The rows that the transaction writes.
unfoldable pub insert_access : ℕ → ExtractionAccess → ℕ → PackageFamily → Handler (Unit {0})
insert_access id access family_id family = transaction (do
  require_new_token access.entry_token
  insert (λ db. db.extraction_accesses) (λ t db. record db { extraction_accesses = t }) id access
  insert (λ db. db.package_families) (λ t db. record db { package_families = t }) family_id family)

pub record CreatedExtraction : Type 0 where
  pub access_id : ℕ
  pub access : ExtractionAccess
  pub password : List ℕ

unfoldable pub new_access :
    ℕ → NewExtraction → ℕ → SourceItem → ExtractionDecision → ℕ → ℕ → ExtractionAccess
new_access now new item_id item decision count password_hash = record {
  source_item_id = item_id;
  share_object_id = none;
  policy_bundle_id = decision.policy_bundle_id;
  state = ExtractionState.active;
  entry_token = new.token;
  password_hash = password_hash;
  require_system_generated_password = decision.require_system_generated_password;
  configured_retrieval_count = count;
  remaining_retrieval_count = count;
  failed_password_attempts = 0;
  valid_until =
      clamp_valid_until (after_minutes now (lifetime_ms decision.resolved_validity_minutes))
        item.valid_until;
}

-- `hash` is `argon2.hash` at a salt.
unfoldable pub create_extraction :
    (ℕ → List ℕ → ℕ) → ℕ → NewExtraction → ℕ → CreateExtraction → Handler CreatedExtraction
unfolding refuse_expired insert_access new_access
create_extraction hash now new owner_user_id input = do
  row ← gets (λ (db : Database). own_item owner_user_id (find input.source_item_id db.source_items))
  item ← or_throw row (not_found source_item_not_found)
  lift (guard (is_active_item item.state) (bad_request source_item_not_eligible))
  refuse_expired now input.source_item_id item
  lift (guard (not (is_text item.content_kind)) (bad_request text_not_outward))
  decision ← evaluate_extraction_creation (record {
    confidentiality_level = item.confidentiality_level;
    requested_validity_minutes = input.requested_validity_minutes;
    requested_retrieval_count = input.requested_retrieval_count;
  })
  count ← or_throw (column_int decision.resolved_retrieval_count) (database value_not_storable)
  let password : List ℕ =
      resolve_password input.password decision.require_system_generated_password
        (generate_system_password new.uuids.0 new.uuids.1)
  let access : ExtractionAccess =
      new_access now new input.source_item_id item decision count (hash new.salt password)
  insert_access new.access_id access new.family_id
      (new_family new.access_id input.source_item_id input.package_reference)
  pure (record { access_id = new.access_id; access = access; password = password })

-- ===== src/Policy/Tests.antt =====
-- Concrete policies, and the theorems on policies at them.
use liminalis.Common.{◌↔◌, ◌≡◌, refl, true, false, none, some, [], ◌∷◌, arith}
use liminalis.Common.Int.{pos}
use liminalis.Common.Table.{Table, find, find_where, create, update_where}
use liminalis.Schema.{
  SourceSnapshot, secret, confidential, top_secret, PolicyBundle, Database, empty_database, int,
  single_file, grouped_content, record_not_found,
}
use liminalis.Policy.Defaults.{secret_sections, confidential_sections, top_secret_sections}
use liminalis.Policy.Evaluate.{
  source_decision, share_decision, extraction_decision, public_link_decision, live_decision,
  SourceInput, ShareInput, ExtractionInput, PublicLinkInput, LiveInput,
}
use liminalis.Policy.Publish.{
  validate_bundle_sections, next_bundle, publish_bundle, restore_defaults,
}
use liminalis.Policy.Current.{latest, is_current_at}
use liminalis.Policy.Decisions.{
  Permitted, Positive, Requested, source_decision_iff, share_decision_iff, extraction_decision_iff,
  public_link_decision_iff, live_decision_iff,
}
use liminalis.Policy.Refusal.{publish_bundle-refused, restore_defaults-refused}
use liminalis.Policy.Replacement.{IsVersioned}
use liminalis.Policy.Publication.{AllVersioned}
use liminalis.Policy.Versions.{
  publish_bundle-AllVersioned, publish_bundle-in_force, restore_defaults-AllVersioned,
}
use liminalis.Common.Exec.{
  is_ok, ok, database, lift, gets, modify, or_throw, pure, transaction, ◌>>=◌,
}
use liminalis.Policy.Numbers.{to_number, to_nullable_number}

abbrev pub secret_bundle : PolicyBundle
secret_bundle = next_bundle secret 1 none secret_sections

abbrev confidential_bundle : PolicyBundle
confidential_bundle = next_bundle confidential 1 none confidential_sections

abbrev top_secret_bundle : PolicyBundle
top_secret_bundle = next_bundle top_secret 1 none top_secret_sections

abbrev pub seeded_bundles : Table PolicyBundle
seeded_bundles = (3, top_secret_bundle) ∷ (2, confidential_bundle) ∷ (1, secret_bundle) ∷ []

-- A database with the three default bundles.
abbrev pub seeded : Database
seeded = record empty_database { policy_bundles = seeded_bundles }

-- What a source-creation decision of the secret level records.
abbrev pub secret_snapshot : SourceSnapshot
secret_snapshot = record {
  confidentiality_level = secret;
  burn_after_read_enabled = false;
  default_validity_minutes = int (pos 1440);
  requested_validity_minutes = none;
  resolved_validity_minutes = int (pos 1440);
  allow_future_trusted_devices = true;
  allow_outward_resharing = false;
  policy_bundle_version = 1;
}

seeded-in_force : latest (is_current_at secret) seeded_bundles ≡ some (1, secret_bundle)
unfolding latest
seeded-in_force = refl

abbrev secret_versioned : IsVersioned secret seeded_bundles
secret_versioned = record {
  current = (1, secret_bundle);
  in_force = seeded-in_force;
  only = refl;
  newest = ((λ e. omega arith), ((λ e. omega arith), ((λ e. omega arith), tt)));
}

seeded-AllVersioned : AllVersioned seeded_bundles
unfolding latest
seeded-AllVersioned secret = secret_versioned
seeded-AllVersioned confidential = record {
  current = (2, confidential_bundle);
  in_force = refl;
  only = refl;
  newest = ((λ e. omega arith), ((λ e. omega arith), ((λ e. omega arith), tt)));
}
seeded-AllVersioned top_secret = record {
  current = (3, top_secret_bundle);
  in_force = refl;
  only = refl;
  newest = ((λ e. omega arith), ((λ e. omega arith), ((λ e. omega arith), tt)));
}

publish_bundle-AllVersioned_example :
    IsVersioned secret
      (publish_bundle 4 1 secret confidential_sections none seeded).1.policy_bundles
publish_bundle-AllVersioned_example =
    publish_bundle-AllVersioned 4 1 secret confidential_sections none seeded seeded-AllVersioned
      secret

confidential_sections-valid : validate_bundle_sections confidential_sections ≡ ok tt
unfolding validate_bundle_sections to_number to_nullable_number
confidential_sections-valid = refl

abbrev with_setting : Database
with_setting = record seeded { default_level = some secret }

publish_bundle-in_force_example :
    let next = next_bundle secret 2 (some 1) confidential_sections in
    let outcome =
      publish_bundle 4 1 secret confidential_sections (some confidential) with_setting in
    (outcome.0 ≡ ok (4, next))
    × (latest (is_current_at secret) outcome.1.policy_bundles ≡ some (4, next))
    × (outcome.1.default_level ≡ some confidential)
unfolding find
publish_bundle-in_force_example =
    publish_bundle-in_force 4 1 secret confidential_sections (some confidential) with_setting
      secret_versioned confidential_sections-valid refl refl refl

restore_defaults-AllVersioned_example :
    IsVersioned top_secret (restore_defaults 4 1 none seeded).1.policy_bundles
restore_defaults-AllVersioned_example =
    restore_defaults-AllVersioned 4 1 none seeded seeded-AllVersioned top_secret

abbrev day_item : SourceInput
day_item = record {
  confidentiality_level = confidential;
  requested_validity_minutes = some (int (pos 1440));
  burn_after_read_enabled = false;
  content_kind = single_file;
}

source_decision_iff_example :
    (is_ok (source_decision day_item (2, confidential_bundle)) ≡ true)
    ↔ Permitted false (some (int (pos 1440))) (int (pos 1440))
unfolding to_number to_nullable_number
source_decision_iff_example = source_decision_iff day_item 2 confidential_bundle

abbrev hour_share : ShareInput
hour_share = record {
  confidentiality_level = secret;
  requested_validity_minutes = some (int (pos 60));
}

share_decision_iff_example :
    (is_ok (share_decision hour_share (1, secret_bundle)) ≡ true)
    ↔ ((true ≡ true) × (true ≡ true) × Positive none (int (pos 60)))
unfolding to_number to_nullable_number
share_decision_iff_example = share_decision_iff hour_share 1 secret_bundle

abbrev six_retrievals : ExtractionInput
six_retrievals = record {
  confidentiality_level = secret;
  requested_validity_minutes = none;
  requested_retrieval_count = some (int (pos 6));
}

extraction_decision_iff_example :
    (is_ok (extraction_decision six_retrievals (1, secret_bundle)) ≡ true) ↔ (
      (true ≡ true)
      × (true ≡ true)
      × (Requested none none × Positive (some (int (pos 5))) (int (pos 6))))
unfolding to_number to_nullable_number
extraction_decision_iff_example = extraction_decision_iff six_retrievals 1 secret_bundle

abbrev two_downloads : PublicLinkInput
two_downloads = record {
  confidentiality_level = secret;
  requested_validity_minutes = none;
  requested_download_count = some (int (pos 2));
}

public_link_decision_iff_example :
    (is_ok (public_link_decision two_downloads (1, secret_bundle)) ≡ true) ↔ (
      (true ≡ true)
      × (true ≡ true)
      × (Requested (some (int (pos 1440))) none × Positive (some (int (pos 5))) (int (pos 2))))
unfolding to_number to_nullable_number
public_link_decision_iff_example = public_link_decision_iff two_downloads 1 secret_bundle

abbrev grouped_transfer_input : LiveInput
grouped_transfer_input = record {
  confidentiality_level = top_secret;
  grouped_transfer = true;
  content_kind = grouped_content;
}

live_decision_iff_example :
    (is_ok (live_decision grouped_transfer_input (3, top_secret_bundle)) ≡ true)
    ↔ ((true ≡ true) × (false ≡ false) × (true ≡ true → true ≡ true))
live_decision_iff_example = live_decision_iff grouped_transfer_input 3 top_secret_bundle

-- Without settings there is no default level to write.
publish_bundle-refused_example :
    (publish_bundle 4 1 secret confidential_sections (some confidential) seeded).1 ≡ seeded
unfolding publish_bundle latest find find_where validate_bundle_sections to_number
    to_nullable_number lift gets modify or_throw pure transaction ◌>>=◌
publish_bundle-refused_example =
    publish_bundle-refused 4 1 secret confidential_sections (some confidential) seeded
      (database record_not_found) refl

restore_defaults-refused_example : (restore_defaults 4 1 none seeded).1 ≡ seeded
unfolding restore_defaults latest find find_where lift gets modify or_throw pure transaction ◌>>=◌
    create update_where
restore_defaults-refused_example =
    restore_defaults-refused 4 1 none seeded (database record_not_found) refl

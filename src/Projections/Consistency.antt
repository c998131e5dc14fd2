-- ===== src/Projections/Consistency.antt =====
-- The timeline shows what the item is.
use liminalis.Common.{
  ℕ, ◌≡◌, ◌≤◌, ◌↔◌, ◌∙◌, subst, refl, is_some, inl, inr, Bool, true, false, not, ◌&&◌, Option, none,
  some, arith, Bool-cases, ==_self, ◌==◌, if◌then◌else◌, find_row,
}
use liminalis.Common.Exec.{gets, modify, or_throw, ◌>>=◌}
use liminalis.Common.Table.{find}
use liminalis.Schema.{
  is_active_item, UploadContentKind, SourceItem, SourceItemState, User, TypeLabel, StatusLabel,
  self_space_text, grouped_content, ProjectedObject, item, TimelineItem, Database,
}
use liminalis.Links.{is_past}
use liminalis.Projections.Service.{
  same_object, type_label_of, build_source_visibility, get_active_timeline, store_projections,
  remove_projections, is_purged, item_row, project_item, project_source_item,
}
use liminalis.Projections.Rows.{IsUnique, find_row-keep, find_row-upsert, find_row-dropped}

-- The row of an object that a user's active timeline lists.
abbrev pub listed : ℕ → ProjectedObject → Database → Option TimelineItem
listed user_id object db =
    find_row (λ row. same_object row.object object) (get_active_timeline user_id db)

-- The rows of an object under a user.
abbrev pub is_row_of : ℕ → ProjectedObject → TimelineItem → Bool
is_row_of user_id object row = row.owner_user_id == user_id && same_object row.object object

-- The item is active, and its date, if it has one, is not past.
abbrev pub Available : ℕ → SourceItem → Type 0
Available now row =
    (row.state ≡ SourceItemState.active) × ((date : ℕ) → row.valid_until ≡ some date → now ≤ date)

-- What a timeline tells of an item that can be retrieved.
pub record IsListing (id : ℕ) (row : SourceItem) (owner : User) (listing : TimelineItem)
    : Type 0 where
  pub owned : listing.owner_user_id ≡ row.owner_user_id
  pub names : listing.object ≡ item id
  pub source : listing.source_label ≡ owner.username
  pub level : listing.confidentiality_level ≡ row.confidentiality_level
  pub date : listing.valid_until ≡ row.valid_until
  pub status : listing.status_label ≡ StatusLabel.active
  pub is_text : (listing.type_label ≡ TypeLabel.text) ↔ (row.content_kind ≡ self_space_text)
  pub is_grouped : (listing.type_label ≡ TypeLabel.grouped) ↔ (row.content_kind ≡ grouped_content)

both_true : (a b : Bool) → a && b ≡ true → (a ≡ true) × (b ≡ true)
both_true a b h = (ground arith, ground arith)

active_state :
    (state : SourceItemState) → is_active_item state ≡ true → state ≡ SourceItemState.active
active_state state h = ground arith

in_time :
    (now : ℕ) (valid_until : Option ℕ)
    → (not (is_past now valid_until) ≡ true) ↔ ((date : ℕ) → valid_until ≡ some date → now ≤ date)
in_time now none = ((λ h date e. ground arith), (λ h. refl))
in_time now (some end) = ((λ h date e. ground arith), (λ h. let k = h end refl in ground arith))

retrievable_iff :
    (now : ℕ) (row : SourceItem)
    → ((build_source_visibility now row).retrievable ≡ true) ↔ Available now row
unfolding build_source_visibility
retrievable_iff now row = (
  (λ h.
      let parts = both_true (is_active_item row.state) (not (is_past now row.valid_until)) h in
      (active_state row.state parts.0, (in_time now row.valid_until).0 parts.1)),
  (λ h. rw (h.0) ((in_time now row.valid_until).1 h.1)),
)

text_label :
    (kind : UploadContentKind) → (type_label_of kind ≡ TypeLabel.text) ↔ (kind ≡ self_space_text)
text_label kind = ((λ h. ground arith), (λ h. ground arith))

grouped_label :
    (kind : UploadContentKind) → (type_label_of kind ≡ TypeLabel.grouped) ↔ (kind ≡ grouped_content)
grouped_label kind = ((λ h. ground arith), (λ h. ground arith))

item_row-IsListing :
    (now id : ℕ) (row : SourceItem) (owner : User)
    → (build_source_visibility now row).retrievable ≡ true
    → IsListing id row owner (item_row now id row owner)
unfolding item_row
item_row-IsListing now id row owner h = record {
  owned = refl;
  names = refl;
  source = refl;
  level = refl;
  date = refl;
  status = rw (h) refl;
  is_text = text_label row.content_kind;
  is_grouped = grouped_label row.content_kind;
}

purged_hidden :
    (burns in_date : Bool) (state : SourceItemState)
    → burns && is_purged state ≡ true
    → is_active_item state && in_date ≡ false
purged_hidden burns in_date state h = ground arith

-- What is listed after a projection.
project_source_item_lem :
    (now id : ℕ) (row : SourceItem) (owner : User) (db : Database)
    → find id db.source_items ≡ some row
    → find row.owner_user_id db.users ≡ some owner
    → IsUnique (is_row_of row.owner_user_id (item id)) db.timeline
    → listed row.owner_user_id (item id) (project_source_item now id db).1 ≡ (
        if (build_source_visibility now row).retrievable
        then some (item_row now id row owner)
        else none)
unfolding project_source_item project_item store_projections remove_projections gets modify or_throw
    ◌>>=◌ item_row get_active_timeline build_source_visibility
project_source_item_lem now id row owner db found there unique = rw (found) (
    rw (there) (elim (Bool-cases (row.burn_after_read_enabled && is_purged row.state)) [
      | inl gone ↦
          rw
            (
              gone,
              if◌then◌else◌,
              purged_hidden row.burn_after_read_enabled (not (is_past now row.valid_until))
                  row.state gone,
            )
            (find_row-keep is_shown is_listed is_shown (λ r k s. s) _
              (find_row-dropped is_shown db.timeline))
      | inr kept ↦
          rw (kept, if◌then◌else◌)
            (find_row-upsert is_shown is_listed (is_row_of row.owner_user_id (item id)) both
                (item_row now id row owner) db.timeline (==_self id) unique
              ∙ rw (==_self row.owner_user_id) refl)
    ]))
  where
    is_shown : TimelineItem → Bool
    is_shown r = same_object r.object (item id)

    is_listed : TimelineItem → Bool
    is_listed r = r.owner_user_id == row.owner_user_id && r.retrievable

    both :
        (r : TimelineItem)
        → is_listed r ≡ true
        → is_shown r ≡ true
        → is_row_of row.owner_user_id (item id) r ≡ true
    both r k s = ground arith

-- A row that stands there under a condition.
if_listed :
    (b : Bool) (fresh : TimelineItem) {P : Type 0} {D : TimelineItem → Type 0}
    → ((b ≡ true) ↔ P)
    → (b ≡ true → D fresh)
    → ((is_some (if b then some fresh else none) ≡ true) ↔ P)
      × ((listing : TimelineItem) → (if b then some fresh else none) ≡ some listing → D listing)
if_listed true fresh {P} {D} same holds = (same, (λ listing e. subst D (is_same e) (holds refl)))
  where
    is_same : {a b : TimelineItem} → some a ≡ some b → a ≡ b
    is_same p = cc
if_listed false fresh same holds = (same, (λ listing e. cc))

-- After the projection of an item whose owner is there, the owner's active timeline lists the item
-- exactly if it is active and its date is not past, and then with its owner's name, its level, its
-- date and the labels of its kind and of an active status. The timeline has at most one row of the
-- item under the owner before.
pub project_source_item-listed :
    (now id : ℕ) (row : SourceItem) (owner : User) (db : Database)
    → find id db.source_items ≡ some row
    → find row.owner_user_id db.users ≡ some owner
    → IsUnique (is_row_of row.owner_user_id (item id)) db.timeline
    → ((is_some (listed row.owner_user_id (item id) (project_source_item now id db).1) ≡ true)
        ↔ Available now row)
      × ((listing : TimelineItem)
          → listed row.owner_user_id (item id) (project_source_item now id db).1 ≡ some listing
          → IsListing id row owner listing)
project_source_item-listed now id row owner db found there unique =
    rw (project_source_item_lem now id row owner db found there unique) (
      if_listed (build_source_visibility now row).retrievable (item_row now id row owner)
        (retrievable_iff now row) (item_row-IsListing now id row owner))

-- ===== src/Links/Limits.antt =====
-- A link is made for an item of its owner and never outlives it.
use liminalis.Common.{subst, ℕ, ◌≤◌, ◌≡◌, refl, Bool, true, false, not, Option, none, some, arith}
use liminalis.Common.Exec.{guard, Error, Result, ok, err, pure}
use liminalis.Common.Exec.Rules.{bind_rule, lift_rule, gets_rule, or_throw_rule}
use liminalis.Common.Table.{find}
use liminalis.Schema.{
  PublicLink, SourceItem, Database, Reason, Num, is_active_item, is_text, is_active_link,
}
use liminalis.Policy.{evaluate_public_link_creation, lifetime_ms}
use liminalis.Links.Creation.{
  CreatePublicLink, create_public_link, own_item, refuse_expired, insert_link, new_link,
  clamp_valid_until, after_minutes,
}

-- The first date is no later than the second; none is later than all.
abbrev pub NoLater : Option ℕ → Option ℕ → Type 0
NoLater a none = Unit
NoLater none (some b) = ⊥
NoLater (some a) (some b) = a ≤ b

pub clamp_valid_until-NoLater :
    (candidate source : Option ℕ) → NoLater (clamp_valid_until candidate source) source
unfolding clamp_valid_until
clamp_valid_until-NoLater none none = tt
clamp_valid_until-NoLater none (some s) = omega arith
clamp_valid_until-NoLater (some c) none = tt
clamp_valid_until-NoLater (some c) (some s) = ground arith

-- The item that a link is made for, and how the link stands to it.
pub record IsLinkFor (owner item_id : ℕ) (db : Database) (link : PublicLink) : Type 0 where
  pub item : SourceItem
  pub item_found : find item_id db.source_items ≡ some item
  pub owned : item.owner_user_id ≡ owner
  pub item_active : is_active_item item.state ≡ true
  pub no_text : is_text item.content_kind ≡ false
  pub link_item : link.source_item_id ≡ item_id
  pub link_active : is_active_link link.state ≡ true
  pub full : link.remaining_download_count ≡ link.configured_download_count
  pub within : NoLater link.valid_until item.valid_until

abbrev LinkFor : ℕ → ℕ → Database → Result Reason (ℕ × PublicLink) × Database → Type 0
LinkFor owner item_id db (ok (id, link), db') = IsLinkFor owner item_id db link
LinkFor owner item_id db (err e, db') = Unit

pub own_item-found :
    (owner : ℕ) (o : Option SourceItem) (item : SourceItem)
    → own_item owner o ≡ some item
    → (o ≡ some item) × (item.owner_user_id ≡ owner)
own_item-found owner none item h = ground arith
own_item-found owner (some x) item h = ground arith

pub guard-true : (b : Bool) (e : Error Reason) {u : Unit {0}} → guard b e ≡ ok u → b ≡ true
guard-true b e h = ground arith

guard-not : (b : Bool) (e : Error Reason) {u : Unit {0}} → guard (not b) e ≡ ok u → b ≡ false
guard-not b e h = ground arith

create_public_link-LinkFor :
    (now id token owner : ℕ) (input : CreatePublicLink) (db : Database)
    → LinkFor owner input.source_item_id db (create_public_link now id token owner input db)
unfolding create_public_link pure
create_public_link-LinkFor now id token owner input db =
    let P : Result Reason (ℕ × PublicLink) × Database → Type 0 =
      LinkFor owner input.source_item_id db in
    gets_rule P _ _ db (
      or_throw_rule P _ _ _ db tt λ (item : SourceItem) e.
        lift_rule P _ _ db (λ x k. tt)
          λ u active.
            bind_rule P (refuse_expired now input.source_item_id item) _ db (λ x db' h. tt)
              λ v db' h.
                lift_rule P _ _ db' (λ x l. tt)
                  λ w no_text.
                    bind_rule P (evaluate_public_link_creation _) _ db' (λ x d m. tt)
                      λ decision d m. or_throw_rule P _ _ _ d tt λ (count : ℕ) c.
                        bind_rule P (insert_link id _) _ d (λ x d' n. tt)
                          λ x d' n.
                            made count decision.resolved_validity_minutes item e
                              (guard-true (is_active_item item.state) _ active)
                              (guard-not (is_text item.content_kind) _ no_text))
  where
    made :
        (count : ℕ) (minutes : Option Num) (item : SourceItem)
        → own_item owner (find input.source_item_id db.source_items) ≡ some item
        → is_active_item item.state ≡ true
        → is_text item.content_kind ≡ false
        → IsLinkFor owner input.source_item_id db
            (new_link now token input.source_item_id count minutes item)
    made count minutes item e active no_text =
        let (found, owned) = own_item-found owner _ item e in
        unfold new_link in
        record {
          item = item;
          item_found = found;
          owned = owned;
          item_active = active;
          no_text = no_text;
          link_item = refl;
          link_active = refl;
          full = refl;
          within =
              clamp_valid_until-NoLater (after_minutes now (lifetime_ms minutes)) item.valid_until;
        }

-- A public link that is answered is for an active item of its owner that is no text; it starts
-- active, with all its downloads left, and is valid no longer than the item.
pub create_public_link-IsLinkFor :
    (now id token owner : ℕ) (input : CreatePublicLink) (db db' : Database) (key : ℕ)
    (link : PublicLink)
    → create_public_link now id token owner input db ≡ (ok (key, link), db')
    → IsLinkFor owner input.source_item_id db link
create_public_link-IsLinkFor now id token owner input db db' key link h =
    subst (LinkFor owner input.source_item_id db) h
      (create_public_link-LinkFor now id token owner input db)

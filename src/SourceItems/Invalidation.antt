-- ===== src/SourceItems/Invalidation.antt =====
-- What the end of an item leaves of the accesses to it.
use liminalis.Common.{
  ℕ, ◌≡◌, refl, sym, ap, subst, ◌∙◌, Bool, true, false, ◌&&◌, ◌||◌, Option, is_some, List, [], ◌∷◌,
  arith, ◌==◌, if◌then◌else◌,
}
use liminalis.Common.Exec.{transaction, Result, ok, lift, gets, modify, pure, ◌>>=◌}
use liminalis.Common.Table.{Table, Rows, contains, find, find_many, keys, update_where}
use liminalis.Common.Table.Selection.{find_many-keys}
use liminalis.Schema.{
  SourceItemState, ShareObject, ExtractionState, PublicLinkState, Database, Reason, is_open_attempt,
}
use liminalis.SourceItems.Service.{
  share_of, one_of, invalidated_share, invalidated_access, invalidated_link, abandoned_attempt,
  update_shares, invalidate_with_shares, invalidate_alone, invalidate_derived,
  invalidate_derived_access, update_item, set_item, end_item,
}

-- Whether a row is derived from an item or from one of its shares.
abbrev pub is_derived : ℕ → List ℕ → ℕ → Option ℕ → Bool
is_derived item_id ids source shared = source == item_id || one_of ids shared

-- Nothing is left of the accesses to an item, whose shares have the keys that are given.
pub record IsCleared (item_id : ℕ) (ids : List ℕ) (db : Database) : Type 0 where
  pub shares : Rows (λ id row. share_of item_id row ≡ true → row.active ≡ false) db.share_objects
  pub accesses :
      Rows
        (λ id row.
          is_derived item_id ids row.source_item_id row.share_object_id ≡ true
          → row.state ≡ ExtractionState.invalidated)
        db.extraction_accesses
  pub links :
      Rows
        (λ id row.
          is_derived item_id ids row.source_item_id row.share_object_id ≡ true
          → row.state ≡ PublicLinkState.invalidated)
        db.public_links
  pub attempts :
      Rows
        (λ id row.
          one_of (item_id ∷ []) row.source_item_id || one_of ids row.share_object_id ≡ true
          → is_open_attempt row.status ≡ false)
        db.retrieval_attempts

-- A property of every row that an update gives to the rows it selects and that the others have.
update_where-all :
    {A : Type 0} (p : A → Bool) (f : A → A) (P : A → Type 0) (t : Table A)
    → ((a : A) → P (f a))
    → ((a : A) → p a ≡ false → P a)
    → Rows (λ id a. P a) (update_where p f t)
unfolding update_where
update_where-all p f P [] hit miss = tt
update_where-all p f P ((id, a) ∷ t) hit miss = (go (p a) refl, update_where-all p f P t hit miss)
  where
    go : (b : Bool) → p a ≡ b → P (if b then f a else a)
    go true e = hit a
    go false e = miss a e

update_shares-inactive :
    (item_id : ℕ) (ids : List ℕ) (t : Table ShareObject)
    → Rows (λ id row. share_of item_id row ≡ true → contains ids id ≡ true) t
    → Rows (λ id row. share_of item_id row ≡ true → row.active ≡ false) (update_shares ids t)
unfolding update_shares
update_shares-inactive item_id ids [] all = tt
update_shares-inactive item_id ids ((id, row) ∷ t) all =
    (go (contains ids id) row.active refl refl, update_shares-inactive item_id ids t all.1)
  where
    go :
        (b c : Bool)
        → contains ids id ≡ b
        → row.active ≡ c
        → share_of item_id (if b && c then invalidated_share row else row) ≡ true
        → (if b && c then invalidated_share row else row).active ≡ false
    go true true e k h = refl
    go true false e k h = k
    go false true e k h = absurd (no (sym e ∙ all.0 h))
      where
        no : false ≡ true → ⊥
        no p = cc
    go false false e k h = k

-- The shares of an item without any.
no_shares :
    (item_id : ℕ) (t : Table ShareObject)
    → Rows (λ id row. share_of item_id row ≡ true → contains [] id ≡ true) t
    → Rows (λ id row. share_of item_id row ≡ true → row.active ≡ false) t
no_shares item_id [] all = tt
no_shares item_id ((id, row) ∷ t) all = ((λ h. absurd (no (all.0 h))), no_shares item_id t all.1)
  where
    no : false ≡ true → ⊥
    no p = cc

module _ (item_id : ℕ) (db : Database) where
  invalidate_derived-IsCleared :
      (ids : List ℕ)
      → Rows (λ id row. share_of item_id row ≡ true → contains ids id ≡ true) db.share_objects
      → IsCleared item_id ids (invalidate_derived item_id ids db)
  unfolding invalidate_derived invalidate_with_shares invalidate_alone
  invalidate_derived-IsCleared [] all = record {
    shares = no_shares item_id db.share_objects all;
    accesses =
        update_where-all _ invalidated_access _ db.extraction_accesses (λ a h. refl)
          (λ a miss h. ground arith);
    links =
        update_where-all _ invalidated_link _ db.public_links (λ a h. refl)
          (λ a miss h. ground arith);
    attempts =
        update_where-all _ abandoned_attempt _ db.retrieval_attempts (λ a h. refl)
          (λ a miss h. ground arith);
  }
  invalidate_derived-IsCleared (k ∷ ks) all = record {
    shares = update_shares-inactive item_id (k ∷ ks) db.share_objects all;
    accesses =
        update_where-all _ invalidated_access _ db.extraction_accesses (λ a h. refl)
          (λ a miss h. ground arith);
    links =
        update_where-all _ invalidated_link _ db.public_links (λ a h. refl)
          (λ a miss h. ground arith);
    attempts =
        update_where-all _ abandoned_attempt _ db.retrieval_attempts (λ a h. refl)
          (λ a miss h. ground arith);
  }

-- The end of an item that is there.
pub end_item_lem :
    (item_id : ℕ) (state : SourceItemState) (db : Database)
    → is_some (find item_id db.source_items) ≡ true
    → end_item item_id state db ≡ (
      ok (keys (find_many (share_of item_id) db.share_objects)),
      invalidate_derived item_id
          (keys (find_many (share_of item_id) db.share_objects))
          (set_item item_id (λ row. record row { state = state }) db),
    )
unfolding end_item update_item invalidate_derived_access set_item gets lift modify pure transaction
    ◌>>=◌
end_item_lem item_id state db there = rw (there)

-- When an item that is there is ended, every share of it is inactive, every extraction and public
-- link of it or of a share of it is invalidated, and no attempt to retrieve it or a share of it is
-- open. The answer is the keys of its shares.
pub end_item-IsCleared :
    (item_id : ℕ) (state : SourceItemState) (db : Database)
    → is_some (find item_id db.source_items) ≡ true
    → let ended = end_item item_id state db in
      (ended.0 ≡ ok (keys (find_many (share_of item_id) db.share_objects)))
      × IsCleared item_id (keys (find_many (share_of item_id) db.share_objects)) ended.1
end_item-IsCleared item_id state db there =
    let ids : List ℕ = keys (find_many (share_of item_id) db.share_objects) in
    (
      ap (λ (o : Result Reason (List ℕ) × Database). o.0) (end_item_lem item_id state db there),
      subst (λ (o : Result Reason (List ℕ) × Database). IsCleared item_id ids o.1)
          (sym (end_item_lem item_id state db there))
          (unfold set_item in
            invalidate_derived-IsCleared item_id _ ids
              (find_many-keys (share_of item_id) db.share_objects)),
    )

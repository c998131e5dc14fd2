-- ===== src/Links/Spending.antt =====
-- What spending a download does to the row of its link.
use liminalis.Common.{
  ap, ℕ, ◌-◌, ◌≡◌, ◌⊎◌, inl, inr, refl, Bool, true, false, some, leb, if◌then◌else◌, Bool-cases,
  Option-cases,
}
use liminalis.Common.Exec.{ok, gets, modify, pure, or_throw, ◌>>=◌}
use liminalis.Common.Table.{find, find-update_self}
use liminalis.Common.Table.Selection.{update-update}
use liminalis.Schema.{PublicLink, PublicLinkState, Database}
use liminalis.Links.State.{set_link, can_spend, decremented, exhaust_spent, spend}

abbrev pub last : PublicLink → Bool
last link = leb (link.remaining_download_count - 1) 0

-- The row after a download, the last one or not.
abbrev pub spent : Bool → PublicLink → PublicLink
spent is_last row = record row {
  remaining_download_count = row.remaining_download_count - 1;
  state = if is_last then PublicLinkState.exhausted else row.state;
}

module _ (id : ℕ) (db : Database) where
  spend-none : can_spend (find id db.public_links) ≡ false → spend id db ≡ (ok false, db)
  unfolding spend gets pure ◌>>=◌
  spend-none refused = rw refused

  exhaust_set :
      (link : PublicLink)
      → exhaust_spent id (decremented link) (set_link id decremented db)
        ≡ set_link id (spent (last link)) db
  unfolding exhaust_spent set_link decremented
  exhaust_set link = go (last link) refl
    where
      go :
          (b : Bool)
          → last link ≡ b
          → exhaust_spent id (decremented link) (set_link id decremented db)
            ≡ set_link id (spent b) db
      go true e = rw (e, if◌then◌else◌, update-update)
      go false e = rw (e, if◌then◌else◌)

  pub spend-some :
      (link : PublicLink)
      → find id db.public_links ≡ some link
      → can_spend (some link) ≡ true
      → spend id db ≡ (ok true, set_link id (spent (last link)) db)
  unfolding spend gets modify pure or_throw ◌>>=◌ set_link
  spend-some link found allowed =
      rw (found, allowed)
        (rw (find-update_self id decremented db.public_links link found)
          (ap (λ d. (ok true, d)) (exhaust_set link)))

  -- Either nothing is spent, or the row of a link that may be spent loses a download.
  pub spend_cases :
      (spend id db ≡ (ok false, db))
      ⊎ ((link : PublicLink) × (find id db.public_links ≡ some link)
          × (can_spend (some link) ≡ true)
          × (spend id db ≡ (ok true, set_link id (spent (last link)) db)))
  spend_cases = elim (Option-cases (find id db.public_links)) [
    | inl missing ↦ inl (spend-none (rw missing))
    | inr (link, found) ↦ elim (Bool-cases (can_spend (some link))) [
      | inl allowed ↦ inr (link, found, allowed, spend-some link found allowed)
      | inr refused ↦ inl (spend-none (rw (found, refused)))
    ]
  ]

-- ===== src/Access/Deliveries.antt =====
-- The item of an answer is active, and so it is none that has ended.
use liminalis.Common.{
  ℕ, ◌≡◌, refl, sym, ap, subst, ◌∙◌, inl, inr, Bool, true, false, Option, none, some, List,
  Bool-cases, ==_iff, ◌==◌,
}
use liminalis.Common.Exec.{Result, ok, err}
use liminalis.Common.Table.{find}
use liminalis.Schema.{SourceItem, PublicLink, Database, Reason, is_active_item}
use liminalis.Links.Requests.{download_event, redeem_event}
use liminalis.Links.Served.{IsServed, Downloaded, Delivered}
use liminalis.Links.{PublicDownload}
use liminalis.Extraction.{ExtractionDownload, SubmitPassword, ExtractionPackage}
use liminalis.Extraction.Secrecy.{HandedOut}
use liminalis.Retrieval.{StoredDownload, IssuedRetrieval}
use liminalis.Retrieval.Families.{is_key}
use liminalis.Access.Requests.{
  stored_item, extracted_item, issued_item, submitted_item, delivered_item, source_of_link,
}
use liminalis.Access.Ended.{Ended}
use liminalis.Access.Issued.{Active, Issued}
use liminalis.Access.Loaded.{Loaded, Extracted}

-- What is handed out is active.
abbrev pub ActiveAt : Database → Option ℕ → Type 0
ActiveAt db none = Unit
ActiveAt db (some key) = Active key db

pub Issued-ActiveAt :
    (db : Database) (o : Result Reason IssuedRetrieval × Database)
    → Issued db o
    → ActiveAt db (issued_item o.0)
Issued-ActiveAt db (ok issued, d) h = h
Issued-ActiveAt db (err e, d) h = tt

pub served-ActiveAt :
    (key : ℕ) (db : Database)
    → IsServed key db
    → ActiveAt db (source_of_link (find key db.public_links))
served-ActiveAt key db h = rw (h.found) (h.item, h.source, h.item_active)

pub Downloaded-ActiveAt :
    (db : Database) (o : Result Reason PublicDownload × Database)
    → Downloaded db o
    → ActiveAt db (delivered_item (download_event o.0) db)
Downloaded-ActiveAt db (ok download, d) h = served-ActiveAt download.public_link_id db h
Downloaded-ActiveAt db (err e, d) h = tt

pub redeemed-ActiveAt :
    (db : Database) (o : Result Reason (ℕ × PublicLink × SourceItem) × Database)
    → Delivered db o
    → ActiveAt db (delivered_item (redeem_event o.0) db)
redeemed-ActiveAt db (ok (key, row, item), d) h = served-ActiveAt key db h
redeemed-ActiveAt db (err e, d) h = tt

pub submitted-ActiveAt :
    (verify : ℕ → List ℕ → Bool) (now token : ℕ) (input : SubmitPassword) (db : Database)
    (o : Result Reason ExtractionPackage × Database)
    → HandedOut verify now token input db o
    → ActiveAt db (submitted_item o.0)
submitted-ActiveAt verify now token input db (ok handed, d) h = (
  handed.item,
  subst (λ k. find k db.source_items ≡ some handed.item) h.item_key h.source,
  h.retrievable.item_active,
)
submitted-ActiveAt verify now token input db (err e, d) h = tt

pub stored-ActiveAt :
    (db : Database) (o : Result Reason StoredDownload × Database)
    → Loaded db o
    → ActiveAt db (stored_item o.0)
stored-ActiveAt db (ok download, d) h = h
stored-ActiveAt db (err e, d) h = tt

pub Extracted-ActiveAt :
    (db : Database) (o : Result Reason ExtractionDownload × Database)
    → Extracted db o
    → ActiveAt db (extracted_item o.0)
Extracted-ActiveAt db (ok download, d) h = h
Extracted-ActiveAt db (err e, d) h = tt

pub ended-ActiveAt :
    (id : ℕ) (db : Database) (o : Option ℕ) → Ended id db → ActiveAt db o → is_key id o ≡ false
ended-ActiveAt id db none ended active = refl
ended-ActiveAt id db (some key) (row, found, ended) (other, there, active) =
    elim (Bool-cases (key == id)) [
      | inl e ↦ absurd (
          clash row other
            (sym found
              ∙ subst (λ k. find k db.source_items ≡ some other) ((==_iff key id).0 e) there)
            ended active)
      | inr e ↦ e
    ]
  where
    clash :
        (a b : SourceItem)
        → some a ≡ some b
        → is_active_item a.state ≡ false
        → is_active_item b.state ≡ true
        → ⊥
    clash a b same h k = no (sym h ∙ ap (λ (o : Option SourceItem). state_of o) same ∙ k)
      where
        state_of : Option SourceItem → Bool
        state_of none = false
        state_of (some row) = is_active_item row.state

        no : false ≡ true → ⊥
        no p = cc

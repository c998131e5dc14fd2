-- ===== src/Links/Requests.antt =====
-- The requests of public-links.controller.ts, with the finish and the release that follow the end
-- of a response, as one step function, and what each does to the number of downloads.
use liminalis.Common.{ℕ, ◌+◌, Option, none, some, List, [], ◌∷◌, ◌==◌, if◌then◌else◌}
use liminalis.Common.Exec.{Result, ok, err}
use liminalis.Schema.{PublicLink, SourceItem, Database, Reason}
use liminalis.Links.Creation.{CreatePublicLink, create_public_link}
use liminalis.Links.Downloads.{
  PublicDownload, create_public_download, finish_public_download, release_public_download,
}
use liminalis.Links.Tickets.{issue_delivery_ticket, redeem_delivery_ticket}

-- Keys and tokens of new rows are part of the request.
pub data LinkRequest : Type 0 where
  creates : (id token owner_user_id : ℕ) → CreatePublicLink → LinkRequest
  downloads : (ticket_id token link_token : ℕ) → LinkRequest
  finishes releases redeems : (token : ℕ) → LinkRequest
  issues : (ticket_id token link_token : ℕ) → LinkRequest

-- What a request did to the downloads of a link.
pub data LinkEvent : Type 0 where
  delivered returned : (link_id : ℕ) → LinkEvent
  nothing : LinkEvent

abbrev pub download_event : Result Reason PublicDownload → LinkEvent
download_event (ok download) = delivered download.public_link_id
download_event (err e) = nothing

abbrev pub redeem_event : Result Reason (ℕ × PublicLink × SourceItem) → LinkEvent
redeem_event (ok (id, link, item)) = delivered id
redeem_event (err e) = nothing

abbrev pub release_event : Result Reason (Option ℕ) → LinkEvent
release_event (ok (some id)) = returned id
release_event (ok none) = nothing
release_event (err e) = nothing

-- The first component is the time.
unfoldable pub serve_link : ℕ × LinkRequest → Database → LinkEvent × Database
serve_link (now, creates id token owner input) db =
    (nothing, (create_public_link now id token owner input db).1)
serve_link (now, downloads ticket_id token link_token) db =
    let o = create_public_download now ticket_id token link_token db in (download_event o.0, o.1)
serve_link (now, finishes token) db = (nothing, (finish_public_download now token db).1)
serve_link (now, releases token) db =
    let o = release_public_download now token db in (release_event o.0, o.1)
serve_link (now, redeems token) db =
    let o = redeem_delivery_ticket now token db in (redeem_event o.0, o.1)
serve_link (now, issues ticket_id token link_token) db =
    (nothing, (issue_delivery_ticket now ticket_id token link_token db).1)

abbrev pub taken : ℕ → LinkEvent → ℕ
taken link_id (delivered id) = if id == link_id then 1 else 0
taken link_id _ = 0

abbrev pub given_back : ℕ → LinkEvent → ℕ
given_back link_id (returned id) = if id == link_id then 1 else 0
given_back link_id _ = 0

-- The database after a history of requests, and the downloads of a link that it took and gave back.
unfoldable pub serve_links : List (ℕ × LinkRequest) → Database → Database
serve_links [] db = db
serve_links (r ∷ rs) db = serve_links rs (serve_link r db).1

unfoldable pub total_taken : ℕ → List (ℕ × LinkRequest) → Database → ℕ
total_taken link_id [] db = 0
total_taken link_id (r ∷ rs) db =
    taken link_id (serve_link r db).0 + total_taken link_id rs (serve_link r db).1

unfoldable pub total_given_back : ℕ → List (ℕ × LinkRequest) → Database → ℕ
total_given_back link_id [] db = 0
total_given_back link_id (r ∷ rs) db =
    given_back link_id (serve_link r db).0 + total_given_back link_id rs (serve_link r db).1

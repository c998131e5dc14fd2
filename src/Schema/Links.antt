-- ===== src/Schema/Links.antt =====
-- Public links with their delivery tickets.
use Prim.Native.Nat.{ℕ}
use mathlib.Core.Option.{Option}
use liminalis.Schema.Enums.{PublicLinkState}

pub record PublicLink : Type 0 where
  pub source_item_id : ℕ
  pub share_object_id : Option ℕ
  pub state : PublicLinkState
  pub link_token : ℕ
  pub configured_download_count : ℕ
  pub remaining_download_count : ℕ
  pub valid_until : Option ℕ

pub record DeliveryTicket : Type 0 where
  pub public_link_id : ℕ
  pub ticket_token : ℕ
  pub expires_at : ℕ
  pub redeemed_at : Option ℕ

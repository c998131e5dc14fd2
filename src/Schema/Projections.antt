-- ===== src/Schema/Projections.antt =====
-- The projections of items and shares that the timeline, the history and the search read. Titles,
-- sizes, counts and times are left out.
use Prim.Native.Nat.{ℕ}
use Prim.Native.String.{String}
use mathlib.Core.Bool.{Bool}
use mathlib.Core.Option.{Option}
use liminalis.Schema.Enums.{ConfidentialityLevel}

-- `sourceObjectType` with `sourceObjectId`.
pub data ProjectedObject : Type 0 where
  item share : (id : ℕ) → ProjectedObject

pub data TypeLabel : Type 0 where
  text grouped file : TypeLabel

pub data StatusLabel : Type 0 where
  active expired invalidated purged revoked source_invalidated consumed inactive : StatusLabel

pub record TimelineItem : Type 0 where
  pub owner_user_id : ℕ
  pub object : ProjectedObject
  pub type_label : TypeLabel
  pub source_label : String
  pub status_label : StatusLabel
  pub confidentiality_level : ConfidentialityLevel
  pub retrievable : Bool
  pub valid_until : Option ℕ

pub record HistoryEntry : Type 0 where
  pub owner_user_id : ℕ
  pub object : ProjectedObject
  pub type_label : TypeLabel
  pub source_label : String
  pub confidentiality_level : ConfidentialityLevel
  pub retained_status : StatusLabel
  pub retrievable : Bool
  pub concrete_reason : Option StatusLabel

pub record SearchDocument : Type 0 where
  pub owner_user_id : ℕ
  pub object : ProjectedObject
  pub type_label : TypeLabel
  pub source_label : String
  pub status_label : StatusLabel
  pub confidentiality_level : ConfidentialityLevel
  pub retrievable : Bool

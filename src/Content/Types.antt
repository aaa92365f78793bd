-- ===== src/Content/Types.antt =====
-- services/api/internal/content/types.go. A time is its number of nanoseconds since 1970.
use learning_garden_server.Prelude.{ℕ, Option, List, Text, codes}
use learning_garden_server.Prelude.Int.{ℤ}
use learning_garden_server.Prelude.Map.{Map}
use learning_garden_server.Prelude.Json.{Json}

abbrev pub Time : Type 0
Time = ℕ

-- `type Kind string`: any string, of which four are kinds.
abbrev pub Kind : Type 0
Kind = Text

abbrev pub kind_track : Kind
kind_track = codes "track"

abbrev pub kind_note : Kind
kind_note = codes "note"

abbrev pub kind_paper : Kind
kind_paper = codes "paper"

abbrev pub kind_experiment : Kind
kind_experiment = codes "experiment"

abbrev pub Visibility : Type 0
Visibility = Text

abbrev pub visibility_private : Visibility
visibility_private = codes "private"

abbrev pub visibility_public : Visibility
visibility_public = codes "public"

abbrev pub visibility_unlisted : Visibility
visibility_unlisted = codes "unlisted"

-- `map[string]any`; `none` is the nil map.
abbrev pub Metadata : Type 0
Metadata = Option (Map Json)

pub record Item : Type 0 where
  pub id : Text
  pub owner_id : Text
  pub kind : Kind
  pub title : Text
  pub slug : Text
  pub summary : Text
  pub body : Text
  pub visibility : Visibility
  pub status : Text
  pub metadata : Metadata
  pub created_at : Time
  pub updated_at : Time

pub record CreateItemInput : Type 0 where
  pub kind : Kind
  pub title : Text
  pub slug : Text
  pub summary : Text
  pub body : Text
  pub visibility : Visibility
  pub status : Text
  pub metadata : Metadata

-- A nil pointer is `none`.
pub record UpdateItemInput : Type 0 where
  pub title : Option Text
  pub slug : Option Text
  pub summary : Option Text
  pub body : Option Text
  pub visibility : Option Visibility
  pub status : Option Text
  pub metadata : Option Metadata

pub record ListFilter : Type 0 where
  pub kind : Kind
  pub owner_id : Text
  pub visibility : Visibility
  pub limit : ℤ

pub record Relation : Type 0 where
  pub source_id : Text
  pub target_id : Text
  pub type : Text
  pub created_at : Time

pub record Backlink : Type 0 where
  pub relation : Relation
  pub source : Item

pub record GraphNode : Type 0 where
  pub id : Text
  pub kind : Kind
  pub title : Text
  pub visibility : Visibility

pub record GraphEdge : Type 0 where
  pub source_id : Text
  pub target_id : Text
  pub type : Text

pub record Graph : Type 0 where
  pub nodes : List GraphNode
  pub edges : List GraphEdge

pub record Stats : Type 0 where
  pub tracks : ℕ
  pub notes : ℕ
  pub papers : ℕ
  pub experiments : ℕ

pub record PublicProfile : Type 0 where
  pub id : Text
  pub handle : Text
  pub display_name : Text
  pub role : Text
  pub created_at : Time
  pub stats : Stats

pub record CommunityFeedRow : Type 0 where
  pub id : Text
  pub type : Text
  pub actor : Text
  pub title : Text
  pub summary : Text
  pub kind : Kind
  pub created_at : Time
  pub updated_at : Time
  pub metadata : Metadata

pub record Portfolio : Type 0 where
  pub profile : PublicProfile
  pub items : Map (List Item)
  pub graph : Graph
  pub stats : Stats
  pub topics : Map ℕ
  pub recent : List CommunityFeedRow

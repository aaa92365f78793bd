-- ===== src/Prelude/Json.antt =====
-- Values that `encoding/json` decodes into `any`. Numbers are the whole ones.
use learning_garden_server.Prelude.Texts.{Text}
use learning_garden_server.Prelude.Int.{ℤ}
use mathlib.Core.Bool.{Bool}
use mathlib.Core.Option.{Option, none, some}

mutual
  pub data Json : Type 0 where
    null : Json
    bool : Bool → Json
    num : ℤ → Json
    str : Text → Json
    arr : Elements → Json
    obj : Members → Json

  pub data Elements : Type 0 where
    nil : Elements
    cons : Json → Elements → Elements

  pub data Members : Type 0 where
    end : Members
    member : Text → Json → Members → Members

-- `value.([]any)`
abbrev pub as_list : Json → Option Elements
as_list (arr xs) = some xs
as_list _ = none

-- `value.(string)`
abbrev pub as_string : Json → Option Text
as_string (str s) = some s
as_string _ = none

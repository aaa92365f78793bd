-- ===== src/Server.antt =====
-- `env` and `splitCSV` of services/api/cmd/server/main.go, with which the server reads its settings.
pub mod Settings
pub mod Start
mod Tests
use learning_garden_server.Prelude.{
  ◌≡◌, ◌≢◌, refl, ap, ◌∙◌, false, List, [], ◌∷◌, ◌++◌, Option, some, none, Text, is_empty,
  if◌then◌else◌, arith, All, any, true, text_eq, ◌==◌, text_beq_iff, inl, inr, Bool-cases,
}
use mathlib.Core.List.{append_assoc}
use learning_garden_server.Strings.{trim_space, split, join}
use learning_garden_server.Strings.Split.{Free, split-Free, split-append}
use learning_garden_server.HttpApi.Middleware.{cors_origin}

-- `env`: the trimmed variable, or the fallback where it is blank. An unset variable is empty.
unfoldable pub env : (variable fallback : Text) → Text
unfolding trim_space
env variable fallback =
    let value = trim_space variable in if is_empty value then fallback else value

-- The loop of `splitCSV`.
unfoldable pub trimmed_parts : List Text → List Text
unfolding trim_space
trimmed_parts [] = []
trimmed_parts (part ∷ parts) =
    let rest = trimmed_parts parts in
    let trimmed = trim_space part in if is_empty trimmed then rest else trimmed ∷ rest

unfoldable pub split_csv : Text → List Text
unfolding split trimmed_parts
split_csv value = trimmed_parts (split b',' value)

-- The entry is not empty, has no space around it and holds no comma.
abbrev pub IsEntry : Text → Type 0
IsEntry s = (is_empty s ≡ false) × (trim_space s ≡ s) × Free b',' s

trimmed_parts-fixed : (entries : List Text) → All IsEntry entries → trimmed_parts entries ≡ entries
unfolding trimmed_parts
trimmed_parts-fixed [] h = refl
trimmed_parts-fixed (e ∷ entries) ((filled, trimmed, free), h) =
    rw (trimmed, filled, trimmed_parts-fixed entries h)

split-join :
    (e : Text) (entries : List Text)
    → All IsEntry (e ∷ entries)
    → split b',' (join (b',' ∷ []) (e ∷ entries)) ≡ e ∷ entries
unfolding join
split-join e [] ((filled, trimmed, free), h) = split-Free b',' e free
split-join e (f ∷ entries) ((filled, trimmed, free), h) =
    let rest = join (b',' ∷ []) (f ∷ entries) in
    rw (append_assoc e (b',' ∷ []) rest, split-append b',' e rest free, split-join f entries h)

trimmed_parts-blank : trimmed_parts ([] ∷ []) ≡ []
unfolding trimmed_parts
trimmed_parts-blank = refl

-- Entries that are joined by commas are read back, if none is empty, has space around it or holds
-- a comma.
pub split_csv-join :
    (entries : List Text) → All IsEntry entries → split_csv (join (b',' ∷ []) entries) ≡ entries
unfolding split_csv join
split_csv-join [] h = refl
split_csv-join (e ∷ entries) h =
    ap trimmed_parts (split-join e entries h) ∙ trimmed_parts-fixed (e ∷ entries) h

-- ===== src/Samples.antt =====
-- Concrete parameters and data for the tests: what the program takes from outside, in a form that
-- evaluates.
pub mod Codec
pub mod Garden
use learning_garden_server.Prelude.{refl, inl}
use mathlib.Core.List.Perm
use learning_garden_server.Strings.{Unicode}
use learning_garden_server.Content.MemoryStore.{Range}

-- No letter above ASCII has another case.
abbrev pub ascii : Unicode
ascii = record { lower = λ c. c; letters = λ c h. inl refl; idem = λ c h k. refl }

-- Maps are visited in the order of their lists.
abbrev pub in_order : Range
in_order = record { visit = λ V m. m; perm = λ V m. Perm.refl m }

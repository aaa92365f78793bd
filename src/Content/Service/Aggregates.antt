-- ===== src/Content/Service/Aggregates.antt =====
-- What the portfolio counts, groups and tallies, against plain descriptions of it.
use learning_garden_server.Prelude.{
  ℕ, ◌+◌, ◌≡◌, sym, ap, List, [], ◌∷◌, ◌++◌, arith, Text, text_eq, ◌==◌, is_empty, text_beq_iff,
  keep, length, if◌then◌else◌, Bool-cases, inl, inr,
}
use mathlib.Core.List.{append_assoc, append-nil}
use learning_garden_server.Prelude.Json.{Elements, nil, cons, as_string}
use learning_garden_server.Prelude.Map.{Map, lookup, insert, lookup-insert}
use learning_garden_server.Content.Types.{
  Kind, kind_track, kind_note, kind_paper, kind_experiment, Item, Stats,
}
use learning_garden_server.Content.Service.Queries.{
  count_item, count_items, stats_for_items, count_at, tag_of, add_topic, add_topics, raw_tags,
  tag_values, topics_from, topics_for_items, group_at, group_from, group_items,
}

-- The items of a kind, in the order of the list.
abbrev pub of_kind : Kind → List Item → List Item
of_kind k = keep (λ i. i.kind == k)

count_items_lem :
    (stats : Stats) (items : List Item)
    → ((count_items stats items).tracks ≡ stats.tracks + length (of_kind kind_track items))
      × ((count_items stats items).notes ≡ stats.notes + length (of_kind kind_note items))
      × ((count_items stats items).papers ≡ stats.papers + length (of_kind kind_paper items))
      × ((count_items stats items).experiments
          ≡ stats.experiments + length (of_kind kind_experiment items))
unfolding count_items
count_items_lem stats [] = ground arith
count_items_lem stats (i ∷ items) =
    let rest = count_items_lem (count_item stats i.kind) items in
    ground (
      arith,
      rest,
      text_beq_iff i.kind kind_track,
      text_beq_iff i.kind kind_note,
      text_beq_iff i.kind kind_paper,
      text_beq_iff i.kind kind_experiment,
    )

-- The statistics count the items of each kind.
pub stats_for_items_lem :
    (items : List Item)
    → ((stats_for_items items).tracks ≡ length (of_kind kind_track items))
      × ((stats_for_items items).notes ≡ length (of_kind kind_note items))
      × ((stats_for_items items).papers ≡ length (of_kind kind_paper items))
      × ((stats_for_items items).experiments ≡ length (of_kind kind_experiment items))
unfolding stats_for_items
stats_for_items_lem items =
    omega
      (arith, count_items_lem (record { tracks = 0; notes = 0; papers = 0; experiments = 0 }) items)

group_from_lem :
    (k : Kind) (grouped : Map (List Item)) (items : List Item)
    → group_at (lookup k (group_from grouped items))
      ≡ group_at (lookup k grouped) ++ of_kind k items
unfolding group_from
group_from_lem k grouped [] = sym (append-nil _)
group_from_lem k grouped (i ∷ items) =
    let old = group_at (lookup i.kind grouped) in
    let ih = group_from_lem k (insert i.kind (old ++ i ∷ []) grouped) items in
    let at = lookup-insert i.kind k (old ++ i ∷ []) grouped in
    elim (Bool-cases (i.kind == k)) [
      | inl same ↦
          let one = ap (λ t. lookup t grouped) ((text_beq_iff i.kind k).0 same) in
          rw (ih, at, same, one) (append_assoc _ (i ∷ []) (of_kind k items))
      | inr other ↦ rw (ih, at, other)
    ]

group_at_initial :
    (k : Kind)
    → group_at (
        lookup k
          ((kind_track, []) ∷ (kind_note, []) ∷ (kind_paper, []) ∷ (kind_experiment, []) ∷ []))
      ≡ []
unfolding lookup
group_at_initial k = ground arith

-- The portfolio's group of a kind holds the items of that kind, in the order of the listing.
pub group_items_lem :
    (k : Kind) (items : List Item) → group_at (lookup k (group_items items)) ≡ of_kind k items
unfolding group_items
group_items_lem k items = rw (group_from_lem, group_at_initial k)

-- The tags that count: the texts among the values of `tags`, trimmed, less the empty ones.
abbrev pub trimmed_tags : Elements → List Text
trimmed_tags nil = []
trimmed_tags (cons value raw) =
    let rest = trimmed_tags raw in
    let tag = tag_of (as_string value) in if is_empty tag then rest else tag ∷ rest

abbrev pub all_tags : List Item → List Text
all_tags [] = []
all_tags (i ∷ items) = trimmed_tags (tag_values (raw_tags i.metadata)) ++ all_tags items

abbrev pub occurrences : Text → List Text → ℕ
occurrences tag tags = length (keep (λ t. t == tag) tags)

add_topics_lem :
    (tag : Text) (topics : Map ℕ) (raw : Elements)
    → count_at (lookup tag (add_topics topics raw))
      ≡ count_at (lookup tag topics) + occurrences tag (trimmed_tags raw)
unfolding add_topics
add_topics_lem tag topics nil = omega arith
add_topics_lem tag topics (cons value raw) =
    let new = tag_of (as_string value) in
    let rest = add_topics_lem tag (add_topic topics new) raw in
    let at = lookup-insert new tag (count_at (lookup new topics) + 1) topics in
    let one = λ (e : new ≡ tag). ap (λ t. lookup t topics) e in
    ground (arith, rest, at, text_beq_iff new tag, one)

occurrences-append :
    (tag : Text) (xs ys : List Text)
    → occurrences tag (xs ++ ys) ≡ occurrences tag xs + occurrences tag ys
occurrences-append tag [] ys = omega arith
occurrences-append tag (x ∷ xs) ys = ground (arith, occurrences-append tag xs ys)

topics_from_lem :
    (tag : Text) (topics : Map ℕ) (items : List Item)
    → count_at (lookup tag (topics_from topics items))
      ≡ count_at (lookup tag topics) + occurrences tag (all_tags items)
unfolding topics_from
topics_from_lem tag topics [] = omega arith
topics_from_lem tag topics (i ∷ items) =
    let raw = tag_values (raw_tags i.metadata) in
    omega (
      arith,
      topics_from_lem tag (add_topics topics raw) items,
      add_topics_lem tag topics raw,
      occurrences-append tag (trimmed_tags raw) (all_tags items),
    )

-- The portfolio's topics tally how often each tag occurs in the items' metadata, as a text that
-- is not blank, trimmed.
pub topics_for_items_lem :
    (tag : Text) (items : List Item)
    → count_at (lookup tag (topics_for_items items)) ≡ occurrences tag (all_tags items)
unfolding topics_for_items lookup
topics_for_items_lem tag items = omega (arith, topics_from_lem tag [] items)

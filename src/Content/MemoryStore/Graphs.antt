-- ===== src/Content/MemoryStore/Graphs.antt =====
-- The graph and the backlinks of the in-memory store.
use learning_garden_server.Prelude.{
  ◌≡◌, refl, true, Option, none, some, List, [], ◌∷◌, map, arith, Text, text_eq, ◌==◌, text_beq_iff,
  All, All-map, All-map_image, keep, keep-All, any, Option-cases, inl, inr, ok,
}
use mathlib.Core.Option
use learning_garden_server.Prelude.Order.{
  text_lt_asymm, text_lt_neg_trans, text_lt_irrefl, text_lt_connex,
}
use learning_garden_server.Prelude.Map.{lookup}
use learning_garden_server.Prelude.Sort.{
  sort_stable, IsSorted, StrictWeak, sort_stable-IsSorted, sort_stable-All,
}
use learning_garden_server.Content.Types.{
  Item, Relation, Backlink, GraphNode, GraphEdge, Graph, visibility_public,
}
use learning_garden_server.Content.MemoryStore.{
  Range, MemoryStore, clone_item, values, collect, backlink_of, backlink_less, node_of, node_less,
  edge_less, edge_of, joins, backlinks, graph_from_items_locked,
}

node_less-StrictWeak : StrictWeak node_less
unfolding node_less
node_less-StrictWeak = record {
  asymm = λ a b h. text_lt_asymm a.title b.title h;
  neg_trans = λ a b c h k. text_lt_neg_trans a.title b.title c.title h k;
}

edge_less-StrictWeak : StrictWeak edge_less
unfolding edge_less
edge_less-StrictWeak = record {
  asymm = λ a b h. ground (
    arith,
    text_beq_iff a.source_id b.source_id,
    text_beq_iff b.source_id a.source_id,
    text_lt_asymm a.source_id b.source_id,
    text_lt_asymm a.target_id b.target_id,
  );
  neg_trans = λ a b c h k. ground (
    arith,
    text_beq_iff a.source_id b.source_id,
    text_beq_iff b.source_id c.source_id,
    text_beq_iff a.source_id c.source_id,
    text_lt_irrefl a.source_id,
    text_lt_irrefl c.source_id,
    text_lt_connex a.source_id b.source_id,
    text_lt_neg_trans a.source_id b.source_id c.source_id,
    text_lt_neg_trans a.target_id b.target_id c.target_id,
  );
}

backlink_less-StrictWeak : StrictWeak backlink_less
unfolding backlink_less
backlink_less-StrictWeak = record {
  asymm = λ a b h. ground arith;
  neg_trans = λ a b c h k. ground arith;
}

-- The edge runs between two of the nodes.
abbrev pub IsJoined : List GraphNode → GraphEdge → Type 0
IsJoined nodes e =
    (any (λ n. n.id == e.source_id) nodes ≡ true) × (any (λ n. n.id == e.target_id) nodes ≡ true)

module _ (range : Range) (items : List Item) (s : MemoryStore) where
  abbrev built : Graph
  built = graph_from_items_locked range items s

  -- Every edge joins two nodes of the graph.
  pub graph_edges-IsJoined : All (IsJoined built.nodes) built.edges
  unfolding graph_from_items_locked joins edge_of
  graph_edges-IsJoined =
      let nodes = sort_stable node_less (map node_of items) in
      let relations = values (range.visit Relation s.relations) in
      sort_stable-All edge_less (IsJoined nodes) _ (
        All-map_image (IsJoined nodes) edge_of (keep (joins nodes) relations) (
          All-map {P = λ r. joins nodes r ≡ true} (λ r h. ground arith) _
            (keep-All (joins nodes) relations)))

  -- The nodes are the items' nodes by title, and the edges stand by source and target.
  pub graph-IsSorted : IsSorted node_less built.nodes × IsSorted edge_less built.edges
  unfolding graph_from_items_locked
  graph-IsSorted =
      (sort_stable-IsSorted node_less-StrictWeak _, sort_stable-IsSorted edge_less-StrictWeak _)

  pub graph_nodes-All :
      (P : GraphNode → Type 0) → All (λ i. P (node_of i)) items → All P built.nodes
  unfolding graph_from_items_locked
  graph_nodes-All P h = sort_stable-All node_less P _ (All-map_image P node_of items h)

-- What `Backlinks` answers of a target: a stored relation to it, from a stored public item.
abbrev pub IsBacklink : Text → MemoryStore → Backlink → Type 0
IsBacklink target s b =
    (b.relation.target_id ≡ target)
    × (b.source.visibility ≡ visibility_public)
    × (Option.map clone_item (lookup b.relation.source_id s.items) ≡ some b.source)

collect-All {ℓ κ μ} :
    {A : Type ℓ} {B : Type κ} (P : B → Type μ) (f : A → Option B)
    → ((a : A) (b : B) → f a ≡ some b → P b)
    → (xs : List A) → All P (collect f xs)
collect-All P f h [] = tt
collect-All {B} P f h (x ∷ xs) = kept (collect-All P f h xs) (f x) refl
  where
    kept :
        All P (collect f xs)
        → (o : Option B) → f x ≡ o
        → All P (elim o [ none ↦ collect f xs | some y ↦ y ∷ collect f xs ])
    kept rest none e = rest
    kept rest (some y) e = (h x y e, rest)

module _ (target : Text) (s : MemoryStore) where
  backlink_of-IsBacklink :
      (r : Relation) (b : Backlink) → backlink_of target s.items r ≡ some b → IsBacklink target s b
  unfolding clone_item
  backlink_of-IsBacklink r b h = elim (Option-cases (lookup r.source_id s.items)) [
    | inl missing ↦ ground (arith, missing)
    | inr (i, there) ↦
        ground (
          arith,
          there,
          text_beq_iff r.target_id target,
          text_beq_iff i.visibility visibility_public,
        )
  ]

  -- Every backlink of the in-memory store is a relation to the target with its source item, which
  -- is stored and public, and the backlinks run from the newest source to the oldest.
  pub backlinks_lem :
      (range : Range) (rows : List Backlink)
      → (backlinks range target s).0 ≡ ok rows
      → All (IsBacklink target s) rows × IsSorted backlink_less rows
  unfolding backlinks
  backlinks_lem range rows h =
      let relations = values (range.visit Relation s.relations) in
      let found = collect (backlink_of target s.items) relations in
      let same : sort_stable backlink_less found ≡ rows = cc in
      rw (← same) (
        sort_stable-All backlink_less (IsBacklink target s) found (
            collect-All (IsBacklink target s) (backlink_of target s.items) backlink_of-IsBacklink
              relations),
        sort_stable-IsSorted backlink_less-StrictWeak found,
      )

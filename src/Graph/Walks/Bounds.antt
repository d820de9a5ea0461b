-- ===== src/Graph/Walks/Bounds.antt =====
-- A bound of zero on a walk is the server's default.
use tricoredb_sdk_rust.Common.{
  ℕ, zero, suc, ◌≡◌, refl, ap, ◌∙◌, [], ◌∷◌, List, Option, none, some, Text, codes,
}
use tricoredb_sdk_rust.Environment.{Environment}
use tricoredb_sdk_rust.Json.{Value}
use tricoredb_sdk_rust.Json.Maps.{Entry, entry, positive, texts}
use tricoredb_sdk_rust.Client.Sending.Requests.{send_decode}
use tricoredb_sdk_rust.Graph.{graph_op, text_entry, optional_text, direction_value, put_walk}
use tricoredb_sdk_rust.Graph.Codec.{GraphCodec}
use tricoredb_sdk_rust.Graph.Settings.{TraverseOptions, NeighborOptions, PathOptions, KPathOptions}
use tricoredb_sdk_rust.Graph.Walks.{
  graph_neighbors, graph_traverse, graph_shortest_path, graph_dfs, graph_subgraph,
  graph_k_shortest_paths, graph_all_paths,
}

-- A bound, or none where it is zero.
abbrev pub cleared : Option ℕ → Option ℕ
cleared none = none
cleared (some zero) = none
cleared (some (suc n)) = some (suc n)

positive-cleared : (b : Option ℕ) → positive b ≡ positive (cleared b)
positive-cleared none = refl
positive-cleared (some zero) = refl
positive-cleared (some (suc n)) = refl

abbrev pub cleared_walk : TraverseOptions → TraverseOptions
cleared_walk o = record o { max_depth = cleared o.max_depth; limit = cleared o.limit }

put_walk-cleared : (o : TraverseOptions) → put_walk o ≡ put_walk (cleared_walk o)
unfolding put_walk
put_walk-cleared o =
    let bounded : Option Value → Option Value → List Entry = λ depth limit.
      (codes "direction", direction_value o.direction)
      ∷ (codes "label", optional_text o.label)
      ∷ (codes "max_depth", depth)
      ∷ (codes "limit", limit)
      ∷ [] in
    ap (λ d. bounded d (positive o.limit)) (positive-cleared o.max_depth)
    ∙ ap (bounded (positive (cleared o.max_depth))) (positive-cleared o.limit)

module _ {W A S T : Type 0} (env : Environment W A S T) (codec : GraphCodec) where
  -- Walks, paths and neighbours whose bounds are zero are asked for exactly as those whose bounds
  -- are unset: the same request is sent, and its reply is read in the same way.
  pub walks-cleared :
      (graph from to : Text) (seeds : List Text) (o : TraverseOptions) (n : NeighborOptions)
      (p : PathOptions) (k : KPathOptions)
      → (graph_traverse env codec graph from o
          ≡ graph_traverse env codec graph from (cleared_walk o))
        × (graph_dfs env codec graph from o ≡ graph_dfs env codec graph from (cleared_walk o))
        × (graph_subgraph env codec graph seeds o
            ≡ graph_subgraph env codec graph seeds (cleared_walk o))
        × (graph_all_paths env codec graph from to o
            ≡ graph_all_paths env codec graph from to (cleared_walk o))
        × (graph_neighbors env codec graph from n
            ≡ graph_neighbors env codec graph from (record n { limit = cleared n.limit }))
        × (graph_shortest_path env codec graph from to p
            ≡ graph_shortest_path env codec graph from to
                (record p { max_depth = cleared p.max_depth }))
        × (graph_k_shortest_paths env codec graph from to k
            ≡ graph_k_shortest_paths env codec graph from to (record k { k = cleared k.k }))
  unfolding graph_traverse graph_dfs graph_subgraph graph_all_paths graph_neighbors
      graph_shortest_path graph_k_shortest_paths put_walk
  walks-cleared graph from to seeds o n p k =
      let g : Entry = text_entry (codes "graph") graph in
      let pair : List Entry → List Entry =
        λ es. g ∷ text_entry (codes "from") from ∷ text_entry (codes "to") to ∷ es in
      (
        ap
            (λ es.
              send_decode env codec.traversal
                (graph_op (codes "Traverse") (g ∷ text_entry (codes "start") from ∷ es))
                (codes "Traverse"))
            (put_walk-cleared o),
        ap
            (λ es.
              send_decode env codec.traversal
                (graph_op (codes "Dfs") (g ∷ text_entry (codes "start") from ∷ es)) (codes "Dfs"))
            (put_walk-cleared o),
        ap
            (λ es.
              send_decode env codec.subgraph
                (graph_op (codes "Subgraph") (g ∷ entry (codes "seeds") (texts seeds) ∷ es))
                (codes "Subgraph"))
            (put_walk-cleared o),
        ap
            (λ es.
              send_decode env codec.paths (graph_op (codes "AllPaths") (pair es))
                (codes "AllPaths"))
            (put_walk-cleared o),
        ap
            (λ b.
              send_decode env codec.neighbors
                (graph_op (codes "Neighbors") (
                  g
                  ∷ text_entry (codes "node_id") from
                  ∷ (codes "direction", direction_value n.direction)
                  ∷ (codes "label", optional_text n.label)
                  ∷ (codes "limit", b)
                  ∷ []))
                (codes "Neighbors"))
            (positive-cleared n.limit),
        ap
            (λ b.
              send_decode env codec.path
                (graph_op (codes "ShortestPath") (
                  pair (
                    (codes "direction", direction_value p.direction)
                    ∷ (codes "label", optional_text p.label)
                    ∷ (codes "max_depth", b)
                    ∷ [])))
                (codes "ShortestPath"))
            (positive-cleared p.max_depth),
        ap
            (λ b.
              send_decode env codec.paths
                (graph_op (codes "KShortestPaths") (
                  pair (
                    (codes "k", b)
                    ∷ (codes "direction", direction_value k.direction)
                    ∷ (codes "label", optional_text k.label)
                    ∷ (codes "weight_property", optional_text k.weight_property)
                    ∷ [])))
                (codes "KShortestPaths"))
            (positive-cleared k.k),
      )

-- ===== src/Graph/Tests.antt =====
-- Walks at concrete inputs.
use tricoredb_sdk_rust.Common.{◌≡◌, [], ◌∷◌, none, some, Text, codes}
use tricoredb_sdk_rust.Environment.Scripted.{scripted}
use tricoredb_sdk_rust.Fixtures.{graph_codec}
use tricoredb_sdk_rust.Graph.Settings.{TraverseOptions, NeighborOptions, PathOptions, KPathOptions}
use tricoredb_sdk_rust.Graph.Walks.{
  graph_neighbors, graph_traverse, graph_shortest_path, graph_dfs, graph_subgraph,
  graph_k_shortest_paths, graph_all_paths,
}
use tricoredb_sdk_rust.Graph.Walks.Bounds.{walks-cleared}

abbrev social : Text
social = codes "social"

abbrev ada : Text
ada = codes "ada"

abbrev bob : Text
bob = codes "bob"

abbrev no_depth : TraverseOptions
no_depth = record { direction = none; label = none; max_depth = some 0; limit = some 3 }

abbrev free_depth : TraverseOptions
free_depth = record { direction = none; label = none; max_depth = none; limit = some 3 }

abbrev no_neighbors : NeighborOptions
no_neighbors = record { direction = none; label = none; limit = some 0 }

abbrev free_neighbors : NeighborOptions
free_neighbors = record { direction = none; label = none; limit = none }

abbrev no_hops : PathOptions
no_hops = record { direction = none; label = none; max_depth = some 0 }

abbrev free_hops : PathOptions
free_hops = record { direction = none; label = none; max_depth = none }

abbrev no_paths : KPathOptions
no_paths = record { k = some 0; direction = none; label = none; weight_property = none }

abbrev free_paths : KPathOptions
free_paths = record { k = none; direction = none; label = none; weight_property = none }

walks-cleared_example :
    (graph_traverse scripted graph_codec social ada no_depth
      ≡ graph_traverse scripted graph_codec social ada free_depth)
    × (graph_dfs scripted graph_codec social ada no_depth
        ≡ graph_dfs scripted graph_codec social ada free_depth)
    × (graph_subgraph scripted graph_codec social (ada ∷ []) no_depth
        ≡ graph_subgraph scripted graph_codec social (ada ∷ []) free_depth)
    × (graph_all_paths scripted graph_codec social ada bob no_depth
        ≡ graph_all_paths scripted graph_codec social ada bob free_depth)
    × (graph_neighbors scripted graph_codec social ada no_neighbors
        ≡ graph_neighbors scripted graph_codec social ada free_neighbors)
    × (graph_shortest_path scripted graph_codec social ada bob no_hops
        ≡ graph_shortest_path scripted graph_codec social ada bob free_hops)
    × (graph_k_shortest_paths scripted graph_codec social ada bob no_paths
        ≡ graph_k_shortest_paths scripted graph_codec social ada bob free_paths)
walks-cleared_example =
    walks-cleared scripted graph_codec social ada bob (ada ∷ []) no_depth no_neighbors no_hops
      no_paths

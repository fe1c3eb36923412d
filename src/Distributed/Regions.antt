-- ===== src/Distributed/Regions.antt =====
-- qndb/distributed/synchronization.py, `GeoRouter` without the ranking by latency, a float: which nodes
-- are in which region. The latency is in milliseconds.
use quantum_database.Prelude.{
  ℕ, String, Option, none, some, List, [], add, Dict, lookup, insert, string_key,
}

pub record RegionInfo : Type 0 where
  pub region_id : String
  pub latency_ms : ℕ
  pub node_ids : List String

pub record GeoRouter : Type 0 where
  pub regions : Dict String RegionInfo
  pub node_region : Dict String String

abbrev pub new_router : GeoRouter
new_router = record { regions = []; node_region = [] }

abbrev pub add_region : String → (latency_ms : ℕ) → GeoRouter → GeoRouter
add_region region_id latency_ms g = record g {
  regions =
      insert region_id (record { region_id = region_id; latency_ms = latency_ms; node_ids = [] })
        g.regions;
}

abbrev with_node : String → String → Dict String RegionInfo → Dict String RegionInfo
with_node node_id region_id regions = elim (lookup region_id regions) [
  | none ↦ regions
  | some info ↦ insert region_id (record info { node_ids = add node_id info.node_ids }) regions
]

-- A node that moves stays in the list of its former region.
abbrev pub assign_node : (node_id region_id : String) → GeoRouter → GeoRouter
assign_node node_id region_id g = record {
  regions = with_node node_id region_id g.regions;
  node_region = insert node_id region_id g.node_region;
}

abbrev pub region_for_node : String → GeoRouter → Option String
region_for_node node_id g = lookup node_id g.node_region

-- ===== src/Resources/Collected.antt =====
-- resources/middleware/pool.go: the middleware that keeps the last list of resources of every type.
-- The lock and the metrics are left out; the counts that feed the metrics are kept.
use awslib.Dict
use awslib.Dict.{Dict}
use awslib.Gocollection.{Gocollection}
use awslib.Prelude.{String, Option, none, some, List, [], ◌∷◌, ◌++◌, string_eq}
use awslib.Resources.Observer.{HandlerFunc}

pub record ResourcePool (R : Type 0) : Type 0 where
  pub resource_list : Dict String (List R)

module _ {R : Type 0} where
  abbrev pub new_resource_pool : ResourcePool R
  new_resource_pool = record { resource_list = [] }

  abbrev pub joined : List (List R) → List R
  joined [] = []
  joined (rsr ∷ lists) = rsr ++ joined lists

  unfoldable pub get_resources : Gocollection → ResourcePool R → List R
  get_resources g m = joined (g.values m.resource_list)

  abbrev pub or_empty : Option (List R) → List R
  or_empty none = []
  or_empty (some resources) = resources

  unfoldable pub get_resources_by_type : ResourcePool R → String → List R
  get_resources_by_type m resource_type = or_empty (Dict.lookup resource_type m.resource_list)

  unfoldable pub flush : String → List R → ResourcePool R → ResourcePool R
  flush resource_type resources m = record {
    resource_list = Dict.insert resource_type resources m.resource_list;
  }

  -- HandleResourceReader, of a reader's type and what it reads
  unfoldable pub handle_resource_reader :
      {S C : Type 0}
      → (C → String)
      → (C → List R)
      → HandlerFunc (ResourcePool R × S) C
      → HandlerFunc (ResourcePool R × S) C
  handle_resource_reader resource_type read next reader s =
      next reader (flush (resource_type reader) (read reader) s.0, s.1)

-- ===== src/Examples/Tags.antt =====
-- Runs of service/ec2/helper.go.
use awslib.Dict
use awslib.Gocollection.{plain}
use awslib.Service.Tags.{
  Tagged, tag_map_to_tags, resource_tag_missing, missing_ids, build_create_tags_input, remove_from,
  removal_of, build_delete_tags_input,
}
use awslib.Prelude.{◌≡◌, refl, some, List, [], ◌∷◌, string_eq}

abbrev volumes : List Tagged
volumes =
    record { id = "a"; tags = ("team", "red") ∷ [] }
    ∷ (record { id = "b"; tags = ("team", "blue") ∷ [] } ∷ [])

-- A resource with one of the two tags is left out.
half_tagged :
    build_create_tags_input (("team", "red") ∷ (("env", "prod") ∷ [])) volumes
    ≡ some (record {
      resources = "b" ∷ [];
      tags = record { key = "team"; value = "red" } ∷ (record { key = "env"; value = "prod" } ∷ []);
    })
unfolding build_create_tags_input tag_map_to_tags resource_tag_missing missing_ids Dict.lookup
half_tagged = refl

-- Of two values of a tag, only the last one is in the input.
last_value :
    build_delete_tags_input plain (("team", "") ∷ []) volumes
    ≡ some (record {
      resources = "a" ∷ ("b" ∷ []);
      tags = record { key = "team"; value = "blue" } ∷ [];
    })
unfolding build_delete_tags_input tag_map_to_tags remove_from removal_of Dict.lookup Dict.insert
    Dict.keys
last_value = refl

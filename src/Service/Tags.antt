-- ===== src/Service/Tags.antt =====
-- service/ec2/helper.go: which resources a change of tags asks for. The entries of a map are taken in
-- the order of the model of Go's maps.
use awslib.Dict
use awslib.Dict.{Dict}
use awslib.Gocollection.{Gocollection}
use awslib.Prelude.{
  String, Bool, true, false, ◌||◌, Option, none, some, List, [], ◌∷◌, ◌==◌, string_eq,
  if◌then◌else◌,
}

-- GetId and GetTags of a resource
pub record Tagged : Type 0 where
  pub id : String
  pub tags : Dict String String

pub record Tag : Type 0 where
  pub key : String
  pub value : String

-- ec2.CreateTagsInput and DeleteTagsInput
pub record TagsInput : Type 0 where
  pub resources : List String
  pub tags : List Tag

unfoldable pub tag_map_to_tags : Dict String String → List Tag
tag_map_to_tags [] = []
tag_map_to_tags ((key, value) ∷ tags) = record { key = key; value = value } ∷ tag_map_to_tags tags

-- the closure resourceTagMissing
unfoldable pub resource_tag_missing : Dict String String → Dict String String → Bool
resource_tag_missing [] resource_tags = true
resource_tag_missing ((tag, value) ∷ tags) resource_tags =
    let rest = resource_tag_missing tags resource_tags in
    elim (Dict.lookup tag resource_tags) [
      | none ↦ rest
      | some held ↦ if held == value then false else rest
    ]

-- the loop over the resources
unfoldable pub missing_ids : Dict String String → List Tagged → List String
missing_ids tags [] = []
missing_ids tags (resource ∷ resources) =
    let rest = missing_ids tags resources in
    if resource_tag_missing tags resource.tags then resource.id ∷ rest else rest

abbrev pub input_of : List String → List Tag → Option TagsInput
input_of [] tags = none
input_of (id ∷ ids) tags = some (record { resources = id ∷ ids; tags = tags })

unfoldable pub build_create_tags_input : Dict String String → List Tagged → Option TagsInput
build_create_tags_input tags resources =
    input_of (missing_ids tags resources) (tag_map_to_tags tags)

-- removeTags and resourceIds
abbrev pub Removal : Type 0
Removal = Dict String String × Dict String String

-- the loop over the tags, at a resource
unfoldable pub remove_from : Tagged → Dict String String → Removal → Removal
remove_from resource [] removal = removal
remove_from resource ((tag, value) ∷ tags) (remove_tags, resource_ids) =
    elim (Dict.lookup tag resource.tags) [
      | none ↦ remove_from resource tags (remove_tags, resource_ids)
      | some held ↦ elim (value == "" || held == value) [
        | true ↦
            remove_from resource tags
              (Dict.insert tag held remove_tags, Dict.insert resource.id resource.id resource_ids)
        | false ↦ remove_from resource tags (remove_tags, resource_ids)
      ]
    ]

-- the loop over the resources
unfoldable pub removal_of : Dict String String → List Tagged → Removal → Removal
removal_of tags [] removal = removal
removal_of tags (resource ∷ resources) removal =
    removal_of tags resources (remove_from resource tags removal)

abbrev pub removal_input : Gocollection → Removal → Option TagsInput
removal_input g (remove_tags, []) = none
removal_input g (remove_tags, id ∷ ids) =
    some (record { resources = g.keys (id ∷ ids); tags = tag_map_to_tags remove_tags })

unfoldable pub build_delete_tags_input :
    Gocollection → Dict String String → List Tagged → Option TagsInput
build_delete_tags_input g tags resources = removal_input g (removal_of tags resources ([], []))

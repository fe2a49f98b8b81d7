-- ===== src/Resources/Blame.antt =====
-- resources/blame.go: who created a resource, by the events of CloudTrail around its creation. The
-- clients, the fetching of the events and errors.New of go-errors are parameters; the clock is shown
-- by the world. Every event says whether it is read-only.
pub mod Skips
use Prim.Native.Char.{code}
use awslib.CloudTrail.{
  LookupAttributeKeys, LookupEventsInput, LookupMiddleware, new_lookup_middleware, with_start_time,
  with_end_time, with_resource, list_events_by_lookup,
}
use awslib.Dict
use awslib.Dict.{Dict}
use awslib.Errors.{Error, Result, ok, fail}
use awslib.Gocollection.{Gocollection}
use awslib.Prelude.Int.{ℤ, pos, negsuc, add_ℤ, neg_ℤ, ltb_ℤ}
use awslib.Prelude.{
  String, Bool, true, false, ◌&&◌, ◌||◌, not, Option, none, some, List, [], ◌∷◌, eqb, ◌==◌,
  string_eq, if◌then◌else◌,
}

-- service.AbstractResource; the ARN is its text
pub record AbstractResource : Type 0 where
  pub account_id : String
  pub region : String
  pub id : String
  pub arn : Option String
  pub created_at : ℤ
  pub resource_type : String

unfoldable pub get_arn : AbstractResource → String
get_arn e = elim e.arn [ some arn ↦ arn | none ↦ "" ]

unfoldable pub get_id_or_arn : AbstractResource → String
get_id_or_arn e = if not (e.id == "") then e.id else get_arn e

pub record Event : Type 0 where
  pub username : Option String
  pub read_only : String

pub record ResourceEvents : Type 0 where
  pub resource : AbstractResource
  pub events : List Event

abbrev pub resource_creator_unknown : String
resource_creator_unknown = "unknown"

abbrev pub username_of : Option Event → String
username_of none = resource_creator_unknown
username_of (some creator) = elim creator.username [ some name ↦ name | none ↦ "" ]

unfoldable pub get_username : Gocollection → ResourceEvents → String
get_username g r = username_of (g.head (g.filter r.events (λ e. not (e.read_only == "true"))))

-- the first part of strings.Split(s, "@")
abbrev pub before_at : String → String
before_at String.[] = String.[]
before_at (String.◌∷◌ c s) = elim (eqb (code c) b'@') [
  | true ↦ String.[]
  | false ↦ String.◌∷◌ c (before_at s)
]

unfoldable pub get_user : Gocollection → ResourceEvents → String
get_user g r = before_at (get_username g r)

pub record AwsBlame : Type 0 where
  pub ttl : ℤ
  pub resource_types : List String

-- 30 days, in nanoseconds
abbrev pub new_aws_blame : AwsBlame
new_aws_blame = record { ttl = pos 2592000000000000; resource_types = [] }

unfoldable pub with_ttl : ℤ → AwsBlame → AwsBlame
with_ttl ttl b = record { ttl = ttl; resource_types = [] }

unfoldable pub with_resource_type_list : List String → AwsBlame → AwsBlame
with_resource_type_list resource_types b = record { ttl = b.ttl; resource_types = resource_types }

-- two minutes
abbrev pub margin : ℤ
margin = pos 120000000000

abbrev pub is_empty : List String → Bool
is_empty [] = true
is_empty (t ∷ ts) = false

-- The type is not listed.
unfoldable pub unlisted : Gocollection → AwsBlame → AbstractResource → Bool
unlisted g b r =
    not (is_empty b.resource_types) && not (g.contains b.resource_types r.resource_type)

-- time.Now().Add(-ttl).After(createdAt)
unfoldable pub too_old : AwsBlame → ℤ → AbstractResource → Bool
too_old b now r = ltb_ℤ r.created_at (add_ℤ now (neg_ℤ b.ttl))

-- the events around the creation
unfoldable pub lookup_of : LookupAttributeKeys → AbstractResource → LookupMiddleware
lookup_of keys r = with_resource keys (get_id_or_arn r) (
    with_end_time (add_ℤ r.created_at margin)
      (with_start_time (add_ℤ r.created_at (neg_ℤ margin)) new_lookup_middleware))

abbrev pub no_events : AbstractResource → ResourceEvents
no_events r = record { resource = r; events = [] }

module _ {C W : Type 0} (clock : W → ℤ) (get_client : String → String → W → Result C × W)
    (list_events_by_input : C → LookupEventsInput → W → (List Event × Option Error) × W)
    (new_error : Option Error → Error) (keys : LookupAttributeKeys) (g : Gocollection)
    (b : AwsBlame) where
  -- the look-up, once the client is known
  abbrev pub events_of : AbstractResource → Result C × W → (ResourceEvents × Option Error) × W
  events_of r (fail err, w) = ((no_events r, some (new_error (some err))), w)
  events_of r (ok client, w) =
      let ((events, err), w') =
        list_events_by_lookup (list_events_by_input client) new_error (lookup_of keys r) w in
      ((record { resource = r; events = events }, some (new_error err)), w')

  unfoldable pub lookup : AbstractResource → W → (ResourceEvents × Option Error) × W
  lookup r w =
      if unlisted g b r
      then ((no_events r, none), w)
      else if too_old b (clock w) r
      then ((no_events r, none), w)
      else events_of r (get_client r.account_id r.region w)

  -- the loop of LookupAll
  unfoldable pub lookup_from :
      Dict String ResourceEvents
      → List AbstractResource
      → W
      → (Dict String ResourceEvents × Option Error) × W
  lookup_from resources [] w = ((resources, none), w)
  lookup_from resources (r ∷ items) w =
      let ((events, err), w') = lookup r w in
      elim err [
        | some failed ↦ ((resources, some failed), w')
        | none ↦ lookup_from (Dict.insert (get_id_or_arn r) events resources) items w'
      ]

  unfoldable pub lookup_all :
      List AbstractResource → W → (Dict String ResourceEvents × Option Error) × W
  lookup_all = lookup_from []

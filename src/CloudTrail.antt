-- ===== src/CloudTrail.antt =====
-- service/cloudtrail: the look-up of events. lookup_middleware.go builds a query by methods that
-- change it in place, and notes what they refuse; events_repository.go sends it. The SDK's names of
-- the attributes, the formats and the digest of Hash, and the fetching of the events are parameters.
pub mod Requests
pub mod Events
use Prim.Native.String.{◌++◌ as concat}
use awslib.Cache.{HandlerInterface, DataCache, read, write, with_namespace}
use awslib.Errors.{Error}
use awslib.Gocollection.{Gocollection}
use awslib.Prelude.Int.{ℤ}
use awslib.Prelude.{
  ℕ, String, Bool, true, false, Option, none, some, List, [], ◌∷◌, ◌++◌, map, length, ltb, eqb,
  if◌then◌else◌,
}
use awslib.Service.Cfg.{resource_type_to_string, trail_event_type}

pub record LookupAttribute : Type 0 where
  pub attribute_key : String
  pub attribute_value : String

-- cloudtrail.LookupEventsInput, as far as it is used here
pub record LookupEventsInput : Type 0 where
  pub lookup_attributes : List LookupAttribute
  pub event_category : String
  pub start_time : Option ℤ
  pub end_time : Option ℤ
  pub max_results : Option ℤ

-- the constants types.LookupAttributeKey…
pub record LookupAttributeKeys : Type 0 where
  pub event_name : String
  pub resource_type : String
  pub resource_name : String
  pub read_only : String
  pub username : String

-- A handler answers the query that it was given, changed or not, and an error or nil.
abbrev pub LookupHandler : Type 0
LookupHandler = LookupEventsInput → LookupEventsInput × Option Error

pub record LookupMiddleware : Type 0 where
  pub lookup : LookupEventsInput
  pub errs : List Error

abbrev pub new_lookup_middleware : LookupMiddleware
new_lookup_middleware = record {
  lookup = record {
    lookup_attributes = [];
    event_category = "";
    start_time = none;
    end_time = none;
    max_results = none;
  };
  errs = [];
}

abbrev pub only_one : Error
only_one = record {
  message = "only 1 lookup attribute is supported, refer to AWS CloudTrail SDK docs";
}

unfoldable pub lookup_event_by_attribute : String → String → LookupHandler
lookup_event_by_attribute key value q =
    if ltb (length q.lookup_attributes) 1
    then (
      record q {
        lookup_attributes =
            q.lookup_attributes ++ (record { attribute_key = key; attribute_value = value } ∷ []);
      },
      none,
    )
    else (q, some only_one)

abbrev pub lookup_start_time_handler : ℤ → LookupHandler
lookup_start_time_handler t q = (record q { start_time = some t }, none)

abbrev pub lookup_end_time_handler : ℤ → LookupHandler
lookup_end_time_handler t q = (record q { end_time = some t }, none)

abbrev pub lookup_limit_handler : ℤ → LookupHandler
lookup_limit_handler limit q = (record q { max_results = some limit }, none)

-- The error of the attribute is dropped.
abbrev pub lookup_resource_handler : LookupAttributeKeys → String → LookupHandler
lookup_resource_handler keys id_or_arn q =
    ((lookup_event_by_attribute keys.resource_name id_or_arn q).0, none)

abbrev pub noted : Option Error → List Error → List Error
noted none errs = errs
noted (some e) errs = errs ++ (e ∷ [])

unfoldable pub with_handler : LookupHandler → LookupMiddleware → LookupMiddleware
with_handler f l = let (q, err) = f l.lookup in record { lookup = q; errs = noted err l.errs }

abbrev pub with_start_time : ℤ → LookupMiddleware → LookupMiddleware
with_start_time start = with_handler (lookup_start_time_handler start)

abbrev pub with_end_time : ℤ → LookupMiddleware → LookupMiddleware
with_end_time end = with_handler (lookup_end_time_handler end)

abbrev pub with_limit : ℤ → LookupMiddleware → LookupMiddleware
with_limit limit = with_handler (lookup_limit_handler limit)

module _ (keys : LookupAttributeKeys) where
  abbrev pub with_event_name : String → LookupMiddleware → LookupMiddleware
  with_event_name value = with_handler (lookup_event_by_attribute keys.event_name value)

  abbrev pub with_resource_type : String → LookupMiddleware → LookupMiddleware
  with_resource_type value = with_handler (lookup_event_by_attribute keys.resource_type value)

  -- of a resource whose GetIdOrArn is the text
  abbrev pub with_resource : String → LookupMiddleware → LookupMiddleware
  with_resource id_or_arn = with_handler (lookup_resource_handler keys id_or_arn)

  abbrev pub with_resource_id : String → LookupMiddleware → LookupMiddleware
  with_resource_id value = with_handler (lookup_event_by_attribute keys.resource_name value)

  abbrev pub with_read_only : String → LookupMiddleware → LookupMiddleware
  with_read_only value = with_handler (lookup_event_by_attribute keys.read_only value)

  abbrev pub with_username : String → LookupMiddleware → LookupMiddleware
  with_username value = with_handler (lookup_event_by_attribute keys.username value)

abbrev pub is_empty : List Error → Bool
is_empty [] = true
is_empty (e ∷ errs) = false

abbrev pub errors : LookupMiddleware → List Error × Bool
errors l = (l.errs, is_empty l.errs)

-- fmt's renderings of a time and of the limit, slice.Sort with strings.Join, and sha1 in base64
pub record Digests : Type 0 where
  pub time_text : Option ℤ → String
  pub limit_text : Option ℤ → String
  pub sorted_text : List String → String
  pub digest : String → String

unfoldable pub hash : Digests → LookupMiddleware → String
hash d l =
    let attributes =
      map (λ q. concat q.attribute_key (concat ":" q.attribute_value)) l.lookup.lookup_attributes in
    let others =
      concat "EventCategory:" l.lookup.event_category
      ∷ (concat "StartTime:" (d.time_text l.lookup.start_time)
          ∷ (concat "EndTime:" (d.time_text l.lookup.end_time)
              ∷ (concat "MaxResults:" (d.limit_text l.lookup.max_results) ∷ []))) in
    d.digest (d.sorted_text (attributes ++ others))

-- ListEventsByInput, of which an event E is asked for; and errors.New of go-errors
module _ {E W : Type 0} (list_events_by_input : LookupEventsInput → W → (List E × Option Error) × W)
    (new_error : Option Error → Error) where
  abbrev pub rewrapped : Option Error → Option Error
  rewrapped none = none
  rewrapped (some err) = some (new_error (some err))

  unfoldable pub list_events_by_lookup : LookupMiddleware → W → (List E × Option Error) × W
  list_events_by_lookup l w = elim l.errs [
    | err ∷ errs ↦ (([], some (new_error (some err))), w)
    | [] ↦
        let ((events, err), w') = list_events_by_input l.lookup w in ((events, rewrapped err), w')
  ]

  module _ {H : Type 0} (i : HandlerInterface H (List E)) (g : Gocollection) (d : Digests) where
    -- the cache of an account, a region and a look-up
    abbrev pub lookup_cache : String → String → LookupMiddleware → DataCache H → DataCache H
    lookup_cache account region l c =
        with_namespace (concat account (concat ":" (concat region (concat ":" (hash d l))))) c

    abbrev pub stored :
        DataCache H
        → ℕ
        → String
        → (List E × Option Error) × W
        → (List E × Option Error) × DataCache H × W
    stored c now key ((events, some err), w) = ((events, some err), c, w)
    stored c now key ((events, none), w) =
        let (err, c') = write i g c now key events in ((events, err), c', w)

    unfoldable pub list_events_by_lookup_cached :
        String
        → String
        → ℕ
        → DataCache H
        → LookupMiddleware
        → W
        → (List E × Option Error) × DataCache H × W
    list_events_by_lookup_cached account region now cache l w =
        let c = lookup_cache account region l cache in
        let key = resource_type_to_string trail_event_type in
        elim (read i c now key) [
          | some events ↦ ((events, none), c, w)
          | none ↦ stored c now key (list_events_by_lookup l w)
        ]

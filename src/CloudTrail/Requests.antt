-- ===== src/CloudTrail/Requests.antt =====
-- What a query holds after any calls of the middleware's methods.
use awslib.CloudTrail.{
  LookupAttribute, LookupEventsInput, LookupAttributeKeys, LookupMiddleware, new_lookup_middleware,
  only_one, lookup_event_by_attribute, with_handler, with_start_time, with_end_time, with_limit,
  with_event_name, with_resource_type, with_resource, with_resource_id, with_read_only,
  with_username, list_events_by_lookup,
}
use awslib.Errors.{Error}
use awslib.Prelude.Int.{ℤ}
use awslib.Prelude.{
  ℕ, ◌+◌, ◌<◌, String, ◌≡◌, refl, ◌∙◌, ap, Option, none, some, List, [], ◌∷◌, length, length-append,
  arith,
}

-- a call of a method
pub data Request : Type 0 where
  start : ℤ → Request
  end : ℤ → Request
  limit : ℤ → Request
  by_event_name : String → Request
  by_resource_type : String → Request
  by_resource : String → Request
  by_resource_id : String → Request
  by_read_only : String → Request
  by_username : String → Request

-- the times and the limit of a query
abbrev pub Bounds : Type 0
Bounds = Option ℤ × Option ℤ × Option ℤ

abbrev pub bounds : LookupEventsInput → Bounds
bounds q = (q.start_time, q.end_time, q.max_results)

-- the last ones given
abbrev pub last_bounds : Bounds → List Request → Bounds
last_bounds b [] = b
last_bounds (s, e, n) (start t ∷ rs) = last_bounds (some t, e, n) rs
last_bounds (s, e, n) (end t ∷ rs) = last_bounds (s, some t, n) rs
last_bounds (s, e, n) (limit l ∷ rs) = last_bounds (s, e, some l) rs
last_bounds b (by_event_name v ∷ rs) = last_bounds b rs
last_bounds b (by_resource_type v ∷ rs) = last_bounds b rs
last_bounds b (by_resource v ∷ rs) = last_bounds b rs
last_bounds b (by_resource_id v ∷ rs) = last_bounds b rs
last_bounds b (by_read_only v ∷ rs) = last_bounds b rs
last_bounds b (by_username v ∷ rs) = last_bounds b rs

same_count : {P Q : Type 0} (x m n : ℕ) → P × Q × (x ≡ m) → m ≡ n → P × Q × (x ≡ n)
same_count x m n h e = (h.0, h.1, h.2 ∙ e)

noted_refused :
    {E W : Type 0} (list_events_by_input : LookupEventsInput → W → (List E × Option Error) × W)
    (new_error : Option Error → Error) (l : LookupMiddleware) (w : W) (errs : List Error)
    → l.errs ≡ errs
    → 0 < length errs
    → (e : Error) × (list_events_by_lookup list_events_by_input new_error l w ≡ (([], some e), w))
unfolding list_events_by_lookup
noted_refused list_events_by_input new_error l w [] e some_error = absurd (omega arith)
noted_refused list_events_by_input new_error l w (err ∷ errs) e some_error =
    (new_error (some err), rw (e, list_events_by_lookup) refl)

module _ (keys : LookupAttributeKeys) where
  abbrev pub called : Request → LookupMiddleware → LookupMiddleware
  called (start t) = with_start_time t
  called (end t) = with_end_time t
  called (limit n) = with_limit n
  called (by_event_name v) = with_event_name keys v
  called (by_resource_type v) = with_resource_type keys v
  called (by_resource v) = with_resource keys v
  called (by_resource_id v) = with_resource_id keys v
  called (by_read_only v) = with_read_only keys v
  called (by_username v) = with_username keys v

  abbrev pub calls : List Request → LookupMiddleware → LookupMiddleware
  calls [] l = l
  calls (r ∷ rs) l = calls rs (called r l)

  abbrev attribute : String → String → Option LookupAttribute
  attribute key value = some (record { attribute_key = key; attribute_value = value })

  -- the attribute that a call asks for
  abbrev pub asked : Request → Option LookupAttribute
  asked (by_event_name v) = attribute keys.event_name v
  asked (by_resource_type v) = attribute keys.resource_type v
  asked (by_resource v) = attribute keys.resource_name v
  asked (by_resource_id v) = attribute keys.resource_name v
  asked (by_read_only v) = attribute keys.read_only v
  asked (by_username v) = attribute keys.username v
  asked r = none

  abbrev pub or_first : Option LookupAttribute → List Request → Option LookupAttribute
  or_first (some a) rs = some a
  or_first none [] = none
  or_first none (r ∷ rs) = or_first (asked r) rs

  abbrev pub as_list : Option LookupAttribute → List LookupAttribute
  as_list none = []
  as_list (some a) = a ∷ []

  -- A refusal is noted, unless WithResource was refused.
  abbrev pub complains : Request → ℕ
  complains (by_event_name v) = 1
  complains (by_resource_type v) = 1
  complains (by_resource_id v) = 1
  complains (by_read_only v) = 1
  complains (by_username v) = 1
  complains r = 0

  -- the refusals that are noted, once an attribute may have been asked for
  abbrev pub refusals : Option LookupAttribute → List Request → ℕ
  refusals a [] = 0
  refusals (some a) (r ∷ rs) = complains r + refusals (some a) rs
  refusals none (r ∷ rs) = refusals (asked r) rs

  -- a query with this attribute and these bounds, and so many errors
  abbrev Holds : Option LookupAttribute → Bounds → ℕ → LookupMiddleware → Type 0
  Holds a b n l =
      (l.lookup.lookup_attributes ≡ as_list a) × (bounds l.lookup ≡ b) × (length l.errs ≡ n)

  -- a middleware with other attributes
  abbrev changed : LookupMiddleware → List LookupAttribute → LookupMiddleware
  changed l attributes = record l { lookup = record l.lookup { lookup_attributes = attributes } }

  by_attribute-none :
      (key value : String) (b : Bounds) (n : ℕ) (l : LookupMiddleware)
      → Holds none b n l
      → Holds (attribute key value) b n (with_handler (lookup_event_by_attribute key value) l)
  unfolding with_handler lookup_event_by_attribute
  by_attribute-none key value b n l h =
      let e = ap (λ xs. with_handler (lookup_event_by_attribute key value) (changed l xs)) h.0 in
      (
        ap (λ m. m.lookup.lookup_attributes) e,
        ap (λ m. bounds m.lookup) e ∙ h.1,
        ap (λ m. length m.errs) e ∙ h.2,
      )

  by_attribute-some :
      (key value : String) (a : LookupAttribute) (b : Bounds) (n : ℕ) (l : LookupMiddleware)
      → Holds (some a) b n l
      → Holds (some a) b (n + 1) (with_handler (lookup_event_by_attribute key value) l)
  unfolding with_handler lookup_event_by_attribute
  by_attribute-some key value a b n l h =
      let e = ap (λ xs. with_handler (lookup_event_by_attribute key value) (changed l xs)) h.0 in
      (
        ap (λ m. m.lookup.lookup_attributes) e,
        ap (λ m. bounds m.lookup) e ∙ h.1,
        ap (λ m. length m.errs) e ∙ length-append l.errs (only_one ∷ []) ∙ ap (λ k. k + 1) h.2,
      )

  by_resource-Holds :
      (id : String) (a : Option LookupAttribute) (b : Bounds) (n : ℕ) (l : LookupMiddleware)
      → Holds a b n l
      → Holds (or_first a (by_resource id ∷ [])) b n (with_resource keys id l)
  unfolding with_handler lookup_event_by_attribute
  by_resource-Holds id none b n l h =
      let e = ap (λ xs. with_resource keys id (changed l xs)) h.0 in
      (
        ap (λ m. m.lookup.lookup_attributes) e,
        ap (λ m. bounds m.lookup) e ∙ h.1,
        ap (λ m. length m.errs) e ∙ h.2,
      )
  by_resource-Holds id (some a) b n l h =
      let e = ap (λ xs. with_resource keys id (changed l xs)) h.0 in
      (
        ap (λ m. m.lookup.lookup_attributes) e,
        ap (λ m. bounds m.lookup) e ∙ h.1,
        ap (λ m. length m.errs) e ∙ h.2,
      )

  calls-Holds :
      (rs : List Request) (a : Option LookupAttribute) (b : Bounds) (n : ℕ) (l : LookupMiddleware)
      → Holds a b n l
      → Holds (or_first a rs) (last_bounds b rs) (n + refusals a rs) (calls rs l)
  unfolding with_handler
  calls-Holds [] none b n l h = same_count _ _ _ h (omega arith)
  calls-Holds [] (some a) b n l h = same_count _ _ _ h (omega arith)
  calls-Holds (start t ∷ rs) none b n l h =
      calls-Holds rs none (some t, b.1, b.2) n (called (start t) l)
        (h.0, λ j. (some t, (h.1 j).1, (h.1 j).2), h.2)
  calls-Holds (start t ∷ rs) (some a) b n l h =
      same_count _ _ _
        (calls-Holds rs (some a) (some t, b.1, b.2) n (called (start t) l)
          (h.0, λ j. (some t, (h.1 j).1, (h.1 j).2), h.2))
        (omega arith)
  calls-Holds (end t ∷ rs) none b n l h =
      calls-Holds rs none (b.0, some t, b.2) n (called (end t) l)
        (h.0, λ j. ((h.1 j).0, some t, (h.1 j).2), h.2)
  calls-Holds (end t ∷ rs) (some a) b n l h =
      same_count _ _ _
        (calls-Holds rs (some a) (b.0, some t, b.2) n (called (end t) l)
          (h.0, λ j. ((h.1 j).0, some t, (h.1 j).2), h.2))
        (omega arith)
  calls-Holds (limit t ∷ rs) none b n l h =
      calls-Holds rs none (b.0, b.1, some t) n (called (limit t) l)
        (h.0, λ j. ((h.1 j).0, (h.1 j).1, some t), h.2)
  calls-Holds (limit t ∷ rs) (some a) b n l h =
      same_count _ _ _
        (calls-Holds rs (some a) (b.0, b.1, some t) n (called (limit t) l)
          (h.0, λ j. ((h.1 j).0, (h.1 j).1, some t), h.2))
        (omega arith)
  calls-Holds (by_event_name v ∷ rs) none b n l h =
      calls-Holds rs (attribute keys.event_name v) b n _
        (by_attribute-none keys.event_name v b n l h)
  calls-Holds (by_event_name v ∷ rs) (some a) b n l h =
      same_count _ _ _
        (calls-Holds rs (some a) b (n + 1) _ (by_attribute-some keys.event_name v a b n l h))
        (omega arith)
  calls-Holds (by_resource_type v ∷ rs) none b n l h =
      calls-Holds rs (attribute keys.resource_type v) b n _
        (by_attribute-none keys.resource_type v b n l h)
  calls-Holds (by_resource_type v ∷ rs) (some a) b n l h =
      same_count _ _ _
        (calls-Holds rs (some a) b (n + 1) _ (by_attribute-some keys.resource_type v a b n l h))
        (omega arith)
  calls-Holds (by_resource_id v ∷ rs) none b n l h =
      calls-Holds rs (attribute keys.resource_name v) b n _
        (by_attribute-none keys.resource_name v b n l h)
  calls-Holds (by_resource_id v ∷ rs) (some a) b n l h =
      same_count _ _ _
        (calls-Holds rs (some a) b (n + 1) _ (by_attribute-some keys.resource_name v a b n l h))
        (omega arith)
  calls-Holds (by_read_only v ∷ rs) none b n l h =
      calls-Holds rs (attribute keys.read_only v) b n _ (by_attribute-none keys.read_only v b n l h)
  calls-Holds (by_read_only v ∷ rs) (some a) b n l h =
      same_count _ _ _
        (calls-Holds rs (some a) b (n + 1) _ (by_attribute-some keys.read_only v a b n l h))
        (omega arith)
  calls-Holds (by_username v ∷ rs) none b n l h =
      calls-Holds rs (attribute keys.username v) b n _ (by_attribute-none keys.username v b n l h)
  calls-Holds (by_username v ∷ rs) (some a) b n l h =
      same_count _ _ _
        (calls-Holds rs (some a) b (n + 1) _ (by_attribute-some keys.username v a b n l h))
        (omega arith)
  calls-Holds (by_resource v ∷ rs) none b n l h =
      calls-Holds rs (attribute keys.resource_name v) b n _ (by_resource-Holds v none b n l h)
  calls-Holds (by_resource v ∷ rs) (some a) b n l h =
      same_count _ _ _ (calls-Holds rs (some a) b n _ (by_resource-Holds v (some a) b n l h))
        (omega arith)

  -- After any calls of its methods, a new LookupMiddleware holds the first attribute that was asked
  -- for and no other, the last start, end and limit that were given, and an error for every later
  -- call that asks for an attribute, but none for a WithResource.
  pub calls-new_lookup_middleware :
      (rs : List Request)
      → ((calls rs new_lookup_middleware).lookup.lookup_attributes ≡ as_list (or_first none rs))
        × (bounds (calls rs new_lookup_middleware).lookup ≡ last_bounds (none, none, none) rs)
        × (length (calls rs new_lookup_middleware).errs ≡ refusals none rs)
  calls-new_lookup_middleware rs =
      same_count _ _ _
        (calls-Holds rs none (none, none, none) 0 new_lookup_middleware (refl, refl, refl))
        (omega arith)

  -- ListEventsByLookup, of a LookupMiddleware that refused an attribute and noted it, answers no
  -- event and an error, and asks nothing of the API.
  list_events_by_lookup-calls :
      {E W : Type 0} (list_events_by_input : LookupEventsInput → W → (List E × Option Error) × W)
      (new_error : Option Error → Error) (rs : List Request) (w : W)
      → 0 < refusals none rs
      → (e : Error) × (list_events_by_lookup list_events_by_input new_error
            (calls rs new_lookup_middleware)
            w
          ≡ (([], some e), w))
  list_events_by_lookup-calls list_events_by_input new_error rs w refused =
      noted_refused list_events_by_input new_error (calls rs new_lookup_middleware) w _ refl
        (omega (arith, refused, (calls-new_lookup_middleware rs).2))

-- ===== src/Examples/Lookups.antt =====
-- Runs of the look-up of events, of AwsBlame and of the discovery of roles.
use awslib.CloudTrail.{
  LookupAttribute, LookupAttributeKeys, LookupEventsInput, new_lookup_middleware,
}
use awslib.CloudTrail.Requests.{
  Request, start, by_event_name, by_resource, by_username, bounds, calls,
  calls-new_lookup_middleware,
}
use awslib.Errors.{Error, Result, ok, fail}
use awslib.Gocollection.{elem, plain}
use awslib.Provider.Discovery.{
  Statement, text, array, text_element, extract_from, contains_action,
  extract_assume_role_arns_from_policy, Iam, discover_assumable_roles,
}
use awslib.Provider.Discovery.Documents.{Some, Names, elem-extract_from}
use awslib.Provider.Discovery.Policies.{
  readable, unreadable, nothing_read, no_page, next_page, discover_assumable_roles-Pages,
}
use awslib.Resources.Blame.{AbstractResource, Event, new_aws_blame, lookup_all}
use awslib.Resources.Blame.Skips.{skipped, lookup_all_iff}
use awslib.Prelude.Int.{ℤ, pos}
use awslib.Prelude.{
  ℕ, suc, String, ◌≡◌, ◌↔◌, refl, true, Option, none, some, List, [], ◌∷◌, length, ltb, All, ◌==◌,
  if◌then◌else◌, inl, inr, string_eq, arith,
}

abbrev keys : LookupAttributeKeys
keys = record {
  event_name = "EventName";
  resource_type = "ResourceType";
  resource_name = "ResourceName";
  read_only = "ReadOnly";
  username = "Username";
}

abbrev three_calls : List Request
three_calls =
    by_event_name "RunInstances" ∷ (by_resource "i-1" ∷ (by_username "eve" ∷ (start (pos 5) ∷ [])))

abbrev run_instances : LookupAttribute
run_instances = record { attribute_key = "EventName"; attribute_value = "RunInstances" }

calls-new_lookup_middleware_example :
    ((calls keys three_calls new_lookup_middleware).lookup.lookup_attributes ≡ run_instances ∷ [])
    × (bounds (calls keys three_calls new_lookup_middleware).lookup ≡ (some (pos 5), none, none))
    × (length (calls keys three_calls new_lookup_middleware).errs ≡ 1)
calls-new_lookup_middleware_example = calls-new_lookup_middleware keys three_calls

abbrev new_error : Option Error → Error
new_error none = record { message = "<nil>" }
new_error (some e) = e

abbrev instance_at : ℤ → AbstractResource
instance_at t = record {
  account_id = "1";
  region = "eu-west-1";
  id = "i-1";
  arn = none;
  created_at = t;
  resource_type = "AWS::EC2::Instance";
}

abbrev get_client : String → String → ℕ → Result ℕ × ℕ
get_client account region w = (ok 0, w)

abbrev trail_events : ℕ → LookupEventsInput → ℕ → (List Event × Option Error) × ℕ
trail_events client q w = (([], none), suc w)

lookup_all_iff_example :
    ((lookup_all
        (λ w. pos 3000000000000000)
        get_client
        trail_events
        new_error
        keys
        plain
        new_aws_blame
        (instance_at (pos 1) ∷ (instance_at (pos 2999999999999999) ∷ []))
        0).0.1
      ≡ none)
    ↔ All
        (λ r.
          skipped
            (λ w. pos 3000000000000000)
            get_client
            trail_events
            new_error
            keys
            plain
            new_aws_blame
            (pos 3000000000000000)
            r
          ≡ true)
        (instance_at (pos 1) ∷ (instance_at (pos 2999999999999999) ∷ []))
lookup_all_iff_example =
    lookup_all_iff (λ w. pos 3000000000000000) get_client trail_events new_error keys plain
      new_aws_blame (instance_at (pos 1) ∷ (instance_at (pos 2999999999999999) ∷ [])) 0

abbrev denied : Statement
denied = record {
  effect = "Deny";
  action = array (text_element "s3:*" ∷ (text_element "sts:AssumeRole" ∷ []));
  resource = text "arn:aws:iam::1:role/r";
}

elem-extract_from_example :
    (elem "arn:aws:iam::1:role/r" (extract_from (denied ∷ [])) ≡ true)
    ↔ Some (Names "arn:aws:iam::1:role/r") (denied ∷ [])
elem-extract_from_example = elem-extract_from "arn:aws:iam::1:role/r" (denied ∷ [])

denied-Names : Some (Names "arn:aws:iam::1:role/r") (denied ∷ [])
denied-Names = inl (inr (inl refl), refl)

denied_extracted : extract_from (denied ∷ []) ≡ "arn:aws:iam::1:role/r" ∷ []
unfolding extract_from contains_action
denied_extracted = refl

-- The world counts the pages: there are two, of a policy each, and the second is not there.
abbrev iam : Iam ℕ
iam = record {
  get_caller_identity = λ w. (ok "arn:aws:sts::1:assumed-role/r/s", w);
  parse = λ t. ok (record { account_id = "1"; resource = "role/r" });
  new_paginator = λ role_name w. 0;
  has_more_pages = λ w. ltb w 2;
  next_page = λ w. (ok ((if ltb w 1 then "policy" else "gone") ∷ []), suc w);
  get_policy = λ policy w.
      (if policy == "gone" then fail (record { message = "NoSuchEntity" }) else ok "v1", w);
  get_policy_version = λ policy version w. (ok "{}", w);
  query_unescape = λ t. ok t;
  unmarshal = λ t. ok (record { version = "1"; statement = denied ∷ [] });
  wrap = λ e. e;
  invalid_role = λ t. record { message = t };
}

discover_assumable_roles-Pages_example :
    discover_assumable_roles iam 2 "r" 7 ≡ some (ok ("arn:aws:iam::1:role/r" ∷ []), 2)
unfolding extract_from contains_action extract_assume_role_arns_from_policy
discover_assumable_roles-Pages_example =
    discover_assumable_roles-Pages iam 2 "r" 7 2 2 (("policy" ∷ []) ∷ (("gone" ∷ []) ∷ []))
      ("arn:aws:iam::1:role/r" ∷ [])
      (next_page 0 1 2 ("policy" ∷ []) (("gone" ∷ []) ∷ []) refl refl
        (next_page 1 2 2 ("gone" ∷ []) [] refl refl (no_page 2 refl)))
      (omega arith)
      (readable "policy" "v1" "{}" "{}" ("gone" ∷ []) []
        (record { version = "1"; statement = denied ∷ [] }) 2 2 2 2 refl refl refl refl
        (unreadable "gone" [] [] (record { message = "NoSuchEntity" }) 2 2 2 refl (nothing_read 2)))

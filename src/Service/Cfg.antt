-- ===== src/Service/Cfg.antt =====
-- service/cfg/resources.go: the resource types. The constants that the lists and the proxies' switch
-- use are the constructors of Kind; the texts of the SDK's constants are a parameter.
pub mod Urls
use Prim.Native.Char.{Char, code}
use Prim.Native.String.{char_at, compare}
use Prim.Native.Nat.{Ordering}
use Prim.Native.String.{◌++◌ as concat}
use awslib.Gocollection.{Gocollection}
use awslib.Prelude.{
  ℕ, ◌+◌, ◌-◌, String, Bool, true, false, Option, none, some, List, [], ◌∷◌, ◌++◌, map, eqb, leb,
  ◌&&◌, ◌==◌, string_eq, if◌then◌else◌,
}

pub data Kind : Type 0 where
  user : Kind
  route53_hosted_zone : Kind
  route53_resource_record : Kind
  route53_domain : Kind
  route53_domain_summary : Kind
  cloud_front_distribution_tenant_summary : Kind
  cloud_front_connection_group : Kind
  athena_data_catalog : Kind
  athena_work_group : Kind
  auto_scaling_group : Kind
  batch_compute_environment : Kind
  batch_job_queue : Kind
  cloud_watch_log_group : Kind
  trail : Kind
  bucket : Kind
  db_instance : Kind
  db_snapshot : Kind
  ecs_cluster : Kind
  ecs_service : Kind
  eks_cluster : Kind
  efs_file_system : Kind
  emr_cluster : Kind
  emr_serverless_application : Kind
  emr_serverless_job_run : Kind
  function : Kind
  glue_database : Kind
  glue_job : Kind
  glue_table : Kind
  instance : Kind
  volume : Kind
  snapshot : Kind
  vpc : Kind
  subnet : Kind
  security_group : Kind
  vpc_endpoint : Kind
  route_table : Kind
  eip : Kind
  load_balancer_v2 : Kind
  queue : Kind
  secret : Kind
  table : Kind
  topic : Kind

-- The constants that neither of them uses.
abbrev pub db_engine_version_type : String
db_engine_version_type = "AWS::RDS::DBEngineVersion"

abbrev pub trail_event_type : String
trail_event_type = "AWS::CloudTrail::Event"

abbrev pub health_event_type : String
health_event_type = "AWS::Health::Event"

abbrev pub cost_and_usage_type : String
cost_and_usage_type = "AWS::CostExplorer::CostAndUsage"

abbrev pub cost_forecast_type : String
cost_forecast_type = "AWS::CostExplorer::CostForecast"

abbrev pub cost_dimension_value_type : String
cost_dimension_value_type = "AWS::CostExplorer::DimensionValue"

abbrev pub cloud_front_distribution_tenant_type : String
cloud_front_distribution_tenant_type = "AWS::CloudFront::DistributionTenant"

-- the texts of the constants; `sdk` gives those of the SDK
abbrev pub text : (Kind → String) → Kind → String
text sdk snapshot = "AWS::EC2::Snapshot"
text sdk emr_serverless_application = "AWS::EMRServerless::Application"
text sdk emr_cluster = "AWS::EMR::Cluster"
text sdk emr_serverless_job_run = "AWS::EMRServerless::JobRun"
text sdk cloud_watch_log_group = "AWS::Logs::LogGroup"
text sdk glue_database = "AWS::Glue::Database"
text sdk glue_table = "AWS::Glue::Table"
text sdk glue_job = "AWS::Glue::Job"
text sdk route53_resource_record = "AWS::Route53::ResourceRecord"
text sdk route53_domain_summary = "AWS::Route53Domains::DomainSummary"
text sdk route53_domain = "AWS::Route53Domains::Domain"
text sdk cloud_front_distribution_tenant_summary = "AWS::CloudFront::DistributionTenantSummary"
text sdk cloud_front_connection_group = "AWS::CloudFront::ConnectionGroup"
text sdk k = sdk k

-- unicode.ToLower, on the code points whose lower case is ASCII
abbrev pub lower_char : Char → Char
lower_char c =
    if leb b'A' (code c) && leb (code c) b'Z'
    then char_at "abcdefghijklmnopqrstuvwxyz" (code c - b'A')
    else if eqb (code c) 0x130
    then char_at "i" 0
    else if eqb (code c) 0x212a
    then char_at "k" 0
    else c

-- ResourceTypeToString
unfoldable pub resource_type_to_string : String → String
resource_type_to_string String.[] = String.[]
resource_type_to_string (String.◌∷◌ c s) = String.◌∷◌ (lower_char c) (resource_type_to_string s)

-- strings.ReplaceAll(s, "::", "_"); the Boolean says that a colon waits for a second one
unfoldable pub replace_colons : Bool → String → String
replace_colons true String.[] = ":"
replace_colons false String.[] = String.[]
replace_colons true (String.◌∷◌ c s) = elim (eqb (code c) b':') [
  | true ↦ concat "_" (replace_colons false s)
  | false ↦ concat ":" (String.◌∷◌ c (replace_colons false s))
]
replace_colons false (String.◌∷◌ c s) = elim (eqb (code c) b':') [
  | true ↦ replace_colons true s
  | false ↦ String.◌∷◌ c (replace_colons false s)
]

unfoldable pub resource_type_to_url : String → String
resource_type_to_url r = replace_colons false (resource_type_to_string r)

unfoldable pub resource_type_sort : String → String → Bool
resource_type_sort s1 s2 = elim (compare s1 s2) [ Ordering.lt ↦ true | _ ↦ false ]

abbrev pub resource_type_list_global : List Kind
resource_type_list_global =
    user
    ∷ (route53_hosted_zone
        ∷ (route53_resource_record
            ∷ (route53_domain
                ∷ (route53_domain_summary
                    ∷ (cloud_front_distribution_tenant_summary
                        ∷ (cloud_front_connection_group ∷ []))))))

abbrev pub resource_type_list_regional : List Kind
resource_type_list_regional =
    athena_data_catalog
    ∷ (athena_work_group
        ∷ (auto_scaling_group
            ∷ (batch_compute_environment
                ∷ (batch_job_queue
                    ∷ (cloud_watch_log_group
                        ∷ (trail
                            ∷ (bucket
                                ∷ (db_instance
                                    ∷ (db_snapshot
                                        ∷ (ecs_cluster
                                            ∷ (ecs_service
                                                ∷ (eks_cluster
                                                    ∷ (efs_file_system
                                                        ∷ (emr_cluster
                                                            ∷ (emr_serverless_application
                                                            ∷ (emr_serverless_job_run
                                                            ∷ (function
                                                            ∷ (glue_database
                                                            ∷ (glue_job
                                                            ∷ (glue_table
                                                            ∷ (instance
                                                            ∷ (volume
                                                            ∷ (snapshot
                                                            ∷ (vpc
                                                            ∷ (subnet
                                                            ∷ (security_group
                                                            ∷ (vpc_endpoint
                                                            ∷ (route_table
                                                            ∷ (eip
                                                            ∷ (load_balancer_v2
                                                            ∷ (queue
                                                            ∷ (secret
                                                            ∷ (table
                                                            ∷ (topic
                                                            ∷ []))))))))))))))))))))))))))))))))))

abbrev pub resource_type_list : List Kind
resource_type_list = resource_type_list_regional ++ resource_type_list_global

-- OrEmpty and IsPresent
abbrev pub or_empty : Option String → String × Bool
or_empty none = ("", false)
or_empty (some r) = (r, true)

unfoldable pub resource_type_from_url : Gocollection → (Kind → String) → String → String × Bool
resource_type_from_url g sdk t =
    or_empty (g.find (map (text sdk) resource_type_list) (λ r. resource_type_to_url r == t))

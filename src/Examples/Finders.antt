-- ===== src/Examples/Finders.antt =====
-- Runs of FindAll and of the lists of types, at repositories that count their calls.
use awslib.Cache.{HandlerInterface, DataCache, read, read_from, write, write_to, get_key}
use awslib.Cache.Key.{invalid}
use awslib.Cache.Keys.{with_cache, account_namespace}
use awslib.Cache.Reads.{IsFaithful}
use awslib.Dict
use awslib.Dict.{Dict}
use awslib.Dict.Laws.{lookup-insert}
use awslib.Errors.{Error}
use awslib.Gocollection.{elem, plain}
use awslib.Proxy.{RepoProxy}
use awslib.Proxy.Dispatch.{not_supported, find_all}
use awslib.Proxy.Dispatch.Missing.{find_all_lacking}
use awslib.Proxy.Dispatch.Types.{find_all-AreOf}
use awslib.Proxy.Finders.{Repositories, Surroundings, find}
use awslib.Proxy.Finders.Again.{find_again}
use awslib.Proxy.Finders.Kinds.{AreOf}
use awslib.Proxy.Finders.Records.{no_zone, next_zone, find_route53_resource_records-Lists}
use awslib.Proxy.Finders.Typed.{find_route53_resource_records}
use awslib.Service.Cfg.{
  user, route53_hosted_zone, route53_resource_record, route53_domain, route53_domain_summary,
  cloud_front_distribution_tenant_summary, cloud_front_connection_group, athena_data_catalog,
  athena_work_group, auto_scaling_group, batch_compute_environment, batch_job_queue,
  cloud_watch_log_group, trail, bucket, db_instance, db_snapshot, ecs_cluster, ecs_service,
  eks_cluster, efs_file_system, emr_cluster, emr_serverless_application, emr_serverless_job_run,
  function, glue_database, glue_job, glue_table, instance, volume, snapshot, vpc, subnet,
  security_group, vpc_endpoint, route_table, eip, load_balancer_v2, queue, secret, table, topic,
  Kind, text, resource_type_list, resource_type_to_string, replace_colons, resource_type_to_url,
  resource_type_from_url,
}
use awslib.Service.Cfg.Urls.{resource_type_from_url_iff}
use awslib.Examples.Keys.{strconv}
use awslib.Prelude.{
  ℕ, suc, String, ◌≡◌, ◌∙◌, ◌≢◌, ◌↔◌, refl, sym, ap, true, not, ◌==◌, ==_refl, if◌then◌else◌,
  Option, none, some, List, [], ◌∷◌, map, All, string_eq, arith,
}

abbrev sdk_type : Kind → String
sdk_type user = "AWS::IAM::User"
sdk_type route53_hosted_zone = "AWS::Route53::HostedZone"
sdk_type athena_data_catalog = "AWS::Athena::DataCatalog"
sdk_type athena_work_group = "AWS::Athena::WorkGroup"
sdk_type auto_scaling_group = "AWS::AutoScaling::AutoScalingGroup"
sdk_type batch_compute_environment = "AWS::Batch::ComputeEnvironment"
sdk_type batch_job_queue = "AWS::Batch::JobQueue"
sdk_type trail = "AWS::CloudTrail::Trail"
sdk_type bucket = "AWS::S3::Bucket"
sdk_type db_instance = "AWS::RDS::DBInstance"
sdk_type db_snapshot = "AWS::RDS::DBSnapshot"
sdk_type ecs_cluster = "AWS::ECS::Cluster"
sdk_type ecs_service = "AWS::ECS::Service"
sdk_type eks_cluster = "AWS::EKS::Cluster"
sdk_type efs_file_system = "AWS::EFS::FileSystem"
sdk_type function = "AWS::Lambda::Function"
sdk_type glue_job = "AWS::Glue::Job"
sdk_type instance = "AWS::EC2::Instance"
sdk_type volume = "AWS::EC2::Volume"
sdk_type vpc = "AWS::EC2::VPC"
sdk_type subnet = "AWS::EC2::Subnet"
sdk_type security_group = "AWS::EC2::SecurityGroup"
sdk_type vpc_endpoint = "AWS::EC2::VPCEndpoint"
sdk_type route_table = "AWS::EC2::RouteTable"
sdk_type eip = "AWS::EC2::EIP"
sdk_type load_balancer_v2 = "AWS::ElasticLoadBalancingV2::LoadBalancer"
sdk_type queue = "AWS::SQS::Queue"
sdk_type secret = "AWS::SecretsManager::Secret"
sdk_type table = "AWS::DynamoDB::Table"
sdk_type topic = "AWS::SNS::Topic"
sdk_type k = ""

resource_type_from_url_iff_example :
    (resource_type_from_url plain sdk_type "aws_ec2_volume" ≡ ("AWS::EC2::Volume", true)) ↔ (
      (elem "AWS::EC2::Volume" (map (text sdk_type) resource_type_list) ≡ true)
      × (resource_type_to_url "AWS::EC2::Volume" ≡ "aws_ec2_volume"))
unfolding resource_type_to_url replace_colons resource_type_to_string
resource_type_from_url_iff_example =
    resource_type_from_url_iff plain sdk_type "aws_ec2_volume" "AWS::EC2::Volume" refl

-- a handler that keeps numbers in a map
abbrev numbers : HandlerInterface (Dict String (List ℕ)) (List ℕ)
numbers = record {
  kind = λ h. "map";
  read = λ h now key. Dict.lookup key h;
  write = λ h now key d. (none, Dict.insert key d h);
}

-- An entity is a number; the world counts the calls.
abbrev counted : ℕ → (List ℕ × Option Error) × ℕ
counted w = ((w ∷ [], none), suc w)

abbrev repositories : Repositories String ℕ (λ k. ℕ)
repositories = record {
  autoscaling_list_auto_scaling_groups_all = λ client. counted;
  batch_list_compute_environment_all = λ client. counted;
  batch_list_job_queue_all = λ client. counted;
  glue_list_database_all = λ client. counted;
  glue_list_jobs_all = λ client. counted;
  glue_list_tables_all = λ client. counted;
  s3_list_buckets_all = λ client. counted;
  rds_list_db_instances_all = λ client. counted;
  rds_list_db_snapshots_all = λ client. counted;
  dynamodb_list_tables_all = λ client. counted;
  ecs_list_clusters_all = λ client. counted;
  ecs_list_services_all = λ client. counted;
  eks_list_clusters_all = λ client. counted;
  emr_list_clusters_latest = λ after client. counted;
  emrserverless_list_applications_active = λ client. counted;
  emrserverless_list_job_runs_all = λ client. counted;
  lambda_list_functions_all = λ client. counted;
  ec2_list_instances_all = λ client. counted;
  cloudwatchlogs_list_log_groups_all = λ client. counted;
  route53_list_hosted_zones_all = λ client. counted;
  route53_list_domains_all = λ client. counted;
  route53_list_domains_details_by_input = λ client. counted;
  route53_list_resource_records = λ hz client. counted;
  cloudfront_list_distribution_tenants_all = λ client. counted;
  cloudfront_list_connection_groups_all = λ client. counted;
  ec2_list_snapshots_all = λ client. counted;
  ec2_list_volumes_all = λ client. counted;
  efs_list_file_systems_all = λ client. counted;
  elb_list_load_balancers_all = λ client. counted;
  secretmanager_list_secrets_all = λ client. counted;
  sqs_list_queues_all = λ client. counted;
  sns_list_topics_all = λ client. counted;
  iam_list_users_all = λ client. counted;
  ec2_list_vpcs_all = λ client. counted;
  ec2_list_subnets_all = λ client. counted;
  ec2_list_security_groups_all = λ client. counted;
  ec2_list_vpc_endpoints_all = λ client. counted;
  ec2_list_route_tables_all = λ client. counted;
  ec2_list_addresses_all = λ client. counted;
}

abbrev around : Surroundings String ℕ (Dict String (List ℕ)) (String × ℕ) (λ k. ℕ)
around = record {
  account = λ client. client;
  region = λ client. "eu-west-1";
  clock = λ w. w;
  memory = λ w. [];
  strconv = strconv;
  handlers = λ k. numbers;
  collection = plain;
  shown_hosted_zone = λ hz. invalid;
  list_domains_input = invalid;
  cast = λ k x. (text sdk_type k, x);
}

abbrev proxy : RepoProxy String (DataCache (Dict String (List ℕ)))
proxy = record { client = "123"; cache = none }

find_all-AreOf_example :
    AreOf sdk_type around
      (λ r. r.0)
      (λ k x. refl)
      "AWS::EC2::Volume"
      ((find_all sdk_type around repositories proxy "AWS::EC2::Volume" 5).0).0
find_all-AreOf_example =
    find_all-AreOf sdk_type around repositories (λ r. r.0) (λ k x. refl) proxy "AWS::EC2::Volume" 5

volumes :
    find_all sdk_type around repositories proxy "AWS::EC2::Volume" 5
    ≡ ((("AWS::EC2::Volume", 5) ∷ [], none), none, 6)
unfolding find_all Dict.lookup find awslib.Proxy.Finders.list_with
    awslib.Proxy.Finders.Typed.find_ec2_volumes
volumes = refl

find_route53_resource_records-Lists_example :
    find_route53_resource_records around repositories "123" none 5
    ≡ ((("AWS::Route53::ResourceRecord", 6) ∷ [], none), none, 7)
find_route53_resource_records-Lists_example =
    find_route53_resource_records-Lists around repositories "123" (5 ∷ [])
      (("AWS::Route53::ResourceRecord", 6) ∷ []) 5 6 7 refl
      (next_zone 5 [] (6 ∷ []) [] 6 7 7 refl (no_zone 7))

-- the constant of a text
abbrev back : String → Kind
back t =
    elim (Dict.lookup t (
      map (λ k. (text sdk_type k, k))
        (user
          ∷ (route53_hosted_zone
              ∷ (route53_resource_record
                  ∷ (route53_domain
                      ∷ (route53_domain_summary
                          ∷ (cloud_front_distribution_tenant_summary
                              ∷ (cloud_front_connection_group
                                  ∷ (athena_data_catalog
                                      ∷ (athena_work_group
                                          ∷ (auto_scaling_group
                                              ∷ (batch_compute_environment
                                                  ∷ (batch_job_queue
                                                      ∷ (cloud_watch_log_group
                                                          ∷ (trail
                                                            ∷ (bucket
                                                            ∷ (db_instance
                                                            ∷ (db_snapshot
                                                            ∷ (ecs_cluster
                                                            ∷ (ecs_service
                                                            ∷ (eks_cluster
                                                            ∷ (efs_file_system
                                                            ∷ (emr_cluster
                                                            ∷ (emr_serverless_application
                                                            ∷ (emr_serverless_job_run
                                                            ∷ (function
                                                            ∷ (glue_database
                                                            ∷ (glue_job
                                                            ∷ (glue_table
                                                            ∷ (instance
                                                            ∷ (volume
                                                            ∷ (snapshot
                                                            ∷ (vpc
                                                            ∷ (subnet
                                                            ∷ (security_group
                                                            ∷ (vpc_endpoint
                                                            ∷ (route_table
                                                            ∷ (eip
                                                            ∷ (load_balancer_v2
                                                            ∷ (queue
                                                            ∷ (secret ∷ (table ∷ (topic ∷ []))))))))
                                                            )))))))))))))))))))))))))))))))))))) [
                                                              | some k ↦ k
                                                              | none ↦ user
                                                            ]

back-text : (k : Kind) → back (text sdk_type k) ≡ k
unfolding Dict.lookup
back-text user = refl
back-text route53_hosted_zone = refl
back-text route53_resource_record = refl
back-text route53_domain = refl
back-text route53_domain_summary = refl
back-text cloud_front_distribution_tenant_summary = refl
back-text cloud_front_connection_group = refl
back-text athena_data_catalog = refl
back-text athena_work_group = refl
back-text auto_scaling_group = refl
back-text batch_compute_environment = refl
back-text batch_job_queue = refl
back-text cloud_watch_log_group = refl
back-text trail = refl
back-text bucket = refl
back-text db_instance = refl
back-text db_snapshot = refl
back-text ecs_cluster = refl
back-text ecs_service = refl
back-text eks_cluster = refl
back-text efs_file_system = refl
back-text emr_cluster = refl
back-text emr_serverless_application = refl
back-text emr_serverless_job_run = refl
back-text function = refl
back-text glue_database = refl
back-text glue_job = refl
back-text glue_table = refl
back-text instance = refl
back-text volume = refl
back-text snapshot = refl
back-text vpc = refl
back-text subnet = refl
back-text security_group = refl
back-text vpc_endpoint = refl
back-text route_table = refl
back-text eip = refl
back-text load_balancer_v2 = refl
back-text queue = refl
back-text secret = refl
back-text table = refl
back-text topic = refl

apart : (j k : Kind) → text sdk_type j ≡ text sdk_type k → j ≡ k
apart j k e = sym (back-text j) ∙ (ap back e ∙ back-text k)

find_all_lacking_example :
    All
      (λ k.
        (elem (text sdk_type k) (map (text sdk_type) resource_type_list) ≡ true)
        × (find_all sdk_type around repositories proxy (text sdk_type k) 5
            ≡ (([], some (not_supported sdk_type around repositories (text sdk_type k))), none, 5)))
      (athena_data_catalog ∷ (athena_work_group ∷ (trail ∷ [])))
find_all_lacking_example = find_all_lacking sdk_type apart around repositories proxy 5

numbers_other :
    (h : Dict String (List ℕ)) (key other : String) (d d' : List ℕ)
    → not (key == other) ≡ true
    → Dict.lookup other (Dict.insert key d h) ≡ some d'
    → Dict.lookup other h ≡ some d'
numbers_other h key other d d' distinct e = ground (arith, lookup-insert key other d h, distinct, e)

abbrev numbers_faithful : IsFaithful numbers
numbers_faithful = record {
  lasts = λ h now later d. true;
  read_write = λ h h' now later key d e fresh.
      ap (λ p. Dict.lookup key p.1) (sym e)
      ∙ (lookup-insert key key d h
          ∙ ap (λ b. if b then some d else Dict.lookup key h) (==_refl key));
  apart = λ h key other. not (key == other);
  read_other = λ h now later key other d d' distinct e. numbers_other h key other d d' distinct e;
}

abbrev empty_cache : DataCache (Dict String (List ℕ))
empty_cache = record { namespace = ""; handlers = [] ∷ [] }

some_handler : empty_cache.handlers ≢ []
some_handler e = cc

find_again_example :
    (dc' : DataCache (Dict String (List ℕ))) × (find around volume "ListVolumesAll" [] counted "123"
        (some empty_cache)
        5
      ≡ ((("AWS::EC2::Volume", 5) ∷ [], none), some dc', 6))
    × (find around volume "ListVolumesAll" [] counted "123" (some dc') 9
        ≡ ((("AWS::EC2::Volume", 5) ∷ [], none), some dc', 9))
unfolding write write_to get_key Dict.lookup Dict.insert read read_from with_cache account_namespace
    awslib.Cache.with_namespace
find_again_example =
    find_again around volume numbers_faithful "ListVolumesAll" counted "123" empty_cache 5 9 6
      (5 ∷ []) some_handler refl refl refl (refl, tt)

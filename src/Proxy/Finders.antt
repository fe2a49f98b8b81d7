-- ===== src/Proxy/Finders.antt =====
-- proxy/helper.go: one function for each resource type. With a cache it lists through the
-- repository's cached twin, otherwise through the repository, and gives every entity as a resource.
-- The repositories are given by their list methods; the entities of a type are a parameter.
pub mod Typed
pub mod Kinds
pub mod Records
pub mod Again
use awslib.Cache.{HandlerInterface, DataCache}
use awslib.Cache.Key.{Value, Strconv, value, nil_pointer}
use awslib.Cache.Key.Canonical.{Heap}
use awslib.Cache.Key.Params.{key_at}
use awslib.Cache.Keys.{with_cache}
use awslib.Cache.Repository.{cached_call}
use awslib.Errors.{Error}
use awslib.Gocollection.{Gocollection}
use awslib.Service.Cfg.{
  user, route53_hosted_zone, route53_resource_record, route53_domain, route53_domain_summary,
  cloud_front_distribution_tenant_summary, cloud_front_connection_group, auto_scaling_group,
  batch_compute_environment, batch_job_queue, cloud_watch_log_group, bucket, db_instance,
  db_snapshot, ecs_cluster, ecs_service, eks_cluster, efs_file_system, emr_cluster,
  emr_serverless_application, emr_serverless_job_run, function, glue_database, glue_job, glue_table,
  instance, volume, snapshot, vpc, subnet, security_group, vpc_endpoint, route_table, eip,
  load_balancer_v2, queue, secret, table, topic, Kind,
}
use awslib.Prelude.{ℕ, String, true, Option, none, some, List, [], ◌∷◌, ◌++◌, map}

-- The list methods that the finders call, by package, of a repository for a client C. A call may
-- change the world W. ListClustersLatest is for clusters created after an instant, and the input of
-- ListDomainsDetailsByInput is the empty one.
pub record Repositories (C W : Type 0) (Item : Kind → Type 0) : Type 0 where
  pub autoscaling_list_auto_scaling_groups_all :
      C → W → (List (Item auto_scaling_group) × Option Error) × W
  pub batch_list_compute_environment_all :
      C → W → (List (Item batch_compute_environment) × Option Error) × W
  pub batch_list_job_queue_all : C → W → (List (Item batch_job_queue) × Option Error) × W
  pub glue_list_database_all : C → W → (List (Item glue_database) × Option Error) × W
  pub glue_list_jobs_all : C → W → (List (Item glue_job) × Option Error) × W
  pub glue_list_tables_all : C → W → (List (Item glue_table) × Option Error) × W
  pub s3_list_buckets_all : C → W → (List (Item bucket) × Option Error) × W
  pub rds_list_db_instances_all : C → W → (List (Item db_instance) × Option Error) × W
  pub rds_list_db_snapshots_all : C → W → (List (Item db_snapshot) × Option Error) × W
  pub dynamodb_list_tables_all : C → W → (List (Item table) × Option Error) × W
  pub ecs_list_clusters_all : C → W → (List (Item ecs_cluster) × Option Error) × W
  pub ecs_list_services_all : C → W → (List (Item ecs_service) × Option Error) × W
  pub eks_list_clusters_all : C → W → (List (Item eks_cluster) × Option Error) × W
  pub emr_list_clusters_latest : Option ℕ → C → W → (List (Item emr_cluster) × Option Error) × W
  pub emrserverless_list_applications_active :
      C → W → (List (Item emr_serverless_application) × Option Error) × W
  pub emrserverless_list_job_runs_all :
      C → W → (List (Item emr_serverless_job_run) × Option Error) × W
  pub lambda_list_functions_all : C → W → (List (Item function) × Option Error) × W
  pub ec2_list_instances_all : C → W → (List (Item instance) × Option Error) × W
  pub cloudwatchlogs_list_log_groups_all :
      C → W → (List (Item cloud_watch_log_group) × Option Error) × W
  pub route53_list_hosted_zones_all : C → W → (List (Item route53_hosted_zone) × Option Error) × W
  pub route53_list_domains_all : C → W → (List (Item route53_domain_summary) × Option Error) × W
  pub route53_list_domains_details_by_input :
      C → W → (List (Item route53_domain) × Option Error) × W
  pub route53_list_resource_records :
      Item route53_hosted_zone → C → W → (List (Item route53_resource_record) × Option Error) × W
  pub cloudfront_list_distribution_tenants_all :
      C → W → (List (Item cloud_front_distribution_tenant_summary) × Option Error) × W
  pub cloudfront_list_connection_groups_all :
      C → W → (List (Item cloud_front_connection_group) × Option Error) × W
  pub ec2_list_snapshots_all : C → W → (List (Item snapshot) × Option Error) × W
  pub ec2_list_volumes_all : C → W → (List (Item volume) × Option Error) × W
  pub efs_list_file_systems_all : C → W → (List (Item efs_file_system) × Option Error) × W
  pub elb_list_load_balancers_all : C → W → (List (Item load_balancer_v2) × Option Error) × W
  pub secretmanager_list_secrets_all : C → W → (List (Item secret) × Option Error) × W
  pub sqs_list_queues_all : C → W → (List (Item queue) × Option Error) × W
  pub sns_list_topics_all : C → W → (List (Item topic) × Option Error) × W
  pub iam_list_users_all : C → W → (List (Item user) × Option Error) × W
  pub ec2_list_vpcs_all : C → W → (List (Item vpc) × Option Error) × W
  pub ec2_list_subnets_all : C → W → (List (Item subnet) × Option Error) × W
  pub ec2_list_security_groups_all : C → W → (List (Item security_group) × Option Error) × W
  pub ec2_list_vpc_endpoints_all : C → W → (List (Item vpc_endpoint) × Option Error) × W
  pub ec2_list_route_tables_all : C → W → (List (Item route_table) × Option Error) × W
  pub ec2_list_addresses_all : C → W → (List (Item eip) × Option Error) × W

-- What the finders see besides: the client's account and region, the clock and the memory, the
-- handlers of a cache at the entities of each type, how `reflect` shows a hosted zone and an empty
-- ListDomainsInput, and `cast`.
pub record Surroundings (C W H R : Type 0) (Item : Kind → Type 0) : Type 1 where
  pub account : C → String
  pub region : C → String
  pub clock : W → ℕ
  pub memory : W → Heap
  pub strconv : Strconv
  pub handlers : (k : Kind) → HandlerInterface H (List (Item k))
  pub collection : Gocollection
  pub shown_hosted_zone : Item route53_hosted_zone → Value
  pub list_domains_input : Value
  pub cast : (k : Kind) → Item k → R

-- (*time.Time)(nil), as reflect shows it
abbrev pub nil_time : Value
nil_time =
    value (record { location = none; can_interface = true; hash = none; marshal_text = none })
      nil_pointer

module _ {C W H R : Type 0} {Item : Kind → Type 0} (e : Surroundings C W H R Item) where
  abbrev pub kept : {A : Type 0} → DataCache H → A × DataCache H × W → A × Option (DataCache H) × W
  kept dc (answer, c, w) =
      (answer, some (record { namespace = dc.namespace; handlers = c.handlers }), w)

  -- the list method, of the repository or of its cached twin
  unfoldable pub list_with :
      (k : Kind)
      → String
      → List Value
      → (W → (List (Item k) × Option Error) × W)
      → C
      → Option (DataCache H)
      → W
      → (List (Item k) × Option Error) × Option (DataCache H) × W
  list_with k method params list client none w = let (answer, w') = list w in (answer, none, w')
  list_with k method params list client (some dc) w = kept dc (
      cached_call (e.handlers k) e.collection (with_cache (e.account client) (e.region client) dc)
        (e.clock w) (e.clock (list w).1) (key_at e.strconv (e.memory w) method params) list w)

  -- the body that the finders share
  unfoldable pub find :
      (k : Kind)
      → String
      → List Value
      → (W → (List (Item k) × Option Error) × W)
      → C
      → Option (DataCache H)
      → W
      → (List R × Option Error) × Option (DataCache H) × W
  find k method params list client dc w =
      let ((items, err), dc', w') = list_with k method params list client dc w in
      ((map (e.cast k) items, err), dc', w')

-- ===== src/Proxy/Dispatch.antt =====
-- proxy/proxy.go: FindAll of a RepoProxy, which has a finder for each of the types of its switch.
pub mod Types
pub mod Missing
use Prim.Native.String.{◌++◌ as concat}
use awslib.Cache.{DataCache}
use awslib.Dict
use awslib.Errors.{Error}
use awslib.Proxy.{RepoProxy}
use awslib.Proxy.Finders.{Repositories, Surroundings}
use awslib.Proxy.Finders.Typed.{
  find_auto_scale_groups, find_batch_compute_environments, find_batch_job_queues,
  find_glue_databases, find_glue_jobs, find_glue_tables, find_s3_buckets, find_db_instances,
  find_db_snapshots, find_dynamodb_tables, find_ecs_clusters, find_ecs_services, find_eks_clusters,
  find_emr_clusters, find_emr_serverless_applications, find_emr_serverless_job_runs,
  find_lambda_functions, find_ec2_instances, find_cloud_watch_log_groups, find_route53_hosted_zones,
  find_route53_domain_summaries, find_route53_domains, find_route53_resource_records,
  find_cloud_front_distribution_tenants, find_cloud_front_connection_groups, find_ec2_snapshots,
  find_ec2_volumes, find_efs_file_systems, find_load_balancers, find_secret_manager_secrets,
  find_sqs_queues, find_sns_topics, find_iam_users, find_ec2_vpcs, find_ec2_subnets,
  find_ec2_security_groups, find_ec2_vpc_endpoints, find_ec2_route_tables, find_ec2_addresses,
}
use awslib.Service.Cfg.{
  user, route53_hosted_zone, route53_resource_record, route53_domain, route53_domain_summary,
  cloud_front_distribution_tenant_summary, cloud_front_connection_group, auto_scaling_group,
  batch_compute_environment, batch_job_queue, cloud_watch_log_group, bucket, db_instance,
  db_snapshot, ecs_cluster, ecs_service, eks_cluster, efs_file_system, emr_cluster,
  emr_serverless_application, emr_serverless_job_run, function, glue_database, glue_job, glue_table,
  instance, volume, snapshot, vpc, subnet, security_group, vpc_endpoint, route_table, eip,
  load_balancer_v2, queue, secret, table, topic, Kind, text, resource_type_to_string,
}
use awslib.Prelude.{String, Option, none, some, List, [], ◌∷◌, map, string_eq}

-- a function of proxy/helper.go
abbrev pub Finder : (C W H R : Type 0) → Type 0
Finder C W H R = C → Option (DataCache H) → W → (List R × Option Error) × Option (DataCache H) × W

module _ {C W H R : Type 0} {Item : Kind → Type 0} (sdk : Kind → String)
    (e : Surroundings C W H R Item) (repos : Repositories C W Item) where
  -- the switch, in its order
  abbrev pub cases : List (Kind × Finder C W H R)
  cases =
      (auto_scaling_group, find_auto_scale_groups e repos)
      ∷ ((batch_compute_environment, find_batch_compute_environments e repos)
          ∷ ((batch_job_queue, find_batch_job_queues e repos)
              ∷ ((glue_database, find_glue_databases e repos)
                  ∷ ((glue_job, find_glue_jobs e repos)
                      ∷ ((glue_table, find_glue_tables e repos)
                          ∷ ((bucket, find_s3_buckets e repos)
                              ∷ ((db_instance, find_db_instances e repos)
                                  ∷ ((db_snapshot, find_db_snapshots e repos)
                                      ∷ ((table, find_dynamodb_tables e repos)
                                          ∷ ((ecs_cluster, find_ecs_clusters e repos)
                                              ∷ ((ecs_service, find_ecs_services e repos)
                                                  ∷ ((eks_cluster, find_eks_clusters e repos)
                                                      ∷ ((emr_cluster, find_emr_clusters e repos)
                                                          ∷ ((
                                                            emr_serverless_application,
                                                            find_emr_serverless_applications e
                                                            repos,
                                                          )
                                                            ∷ ((
                                                            emr_serverless_job_run,
                                                            find_emr_serverless_job_runs e repos,
                                                            )
                                                            ∷ ((
                                                            function,
                                                            find_lambda_functions e repos,
                                                            )
                                                            ∷ ((
                                                            instance,
                                                            find_ec2_instances e repos,
                                                            )
                                                            ∷ ((
                                                            cloud_watch_log_group,
                                                            find_cloud_watch_log_groups e repos,
                                                            )
                                                            ∷ ((
                                                            route53_hosted_zone,
                                                            find_route53_hosted_zones e repos,
                                                            )
                                                            ∷ ((
                                                            route53_domain_summary,
                                                            find_route53_domain_summaries e repos,
                                                            )
                                                            ∷ ((
                                                            route53_domain,
                                                            find_route53_domains e repos,
                                                            )
                                                            ∷ ((
                                                            route53_resource_record,
                                                            find_route53_resource_records e repos,
                                                            )
                                                            ∷ ((
                                                            cloud_front_distribution_tenant_summary,
                                                            find_cloud_front_distribution_tenants e
                                                            repos,
                                                            )
                                                            ∷ ((
                                                            cloud_front_connection_group,
                                                            find_cloud_front_connection_groups e
                                                            repos,
                                                            )
                                                            ∷ ((
                                                            snapshot,
                                                            find_ec2_snapshots e repos,
                                                            )
                                                            ∷ ((volume, find_ec2_volumes e repos)
                                                            ∷ ((
                                                            efs_file_system,
                                                            find_efs_file_systems e repos,
                                                            )
                                                            ∷ ((
                                                            load_balancer_v2,
                                                            find_load_balancers e repos,
                                                            )
                                                            ∷ ((
                                                            secret,
                                                            find_secret_manager_secrets e repos,
                                                            )
                                                            ∷ ((queue, find_sqs_queues e repos)
                                                            ∷ ((topic, find_sns_topics e repos)
                                                            ∷ ((user, find_iam_users e repos)
                                                            ∷ ((vpc, find_ec2_vpcs e repos)
                                                            ∷ ((subnet, find_ec2_subnets e repos)
                                                            ∷ ((
                                                            security_group,
                                                            find_ec2_security_groups e repos,
                                                            )
                                                            ∷ ((
                                                            vpc_endpoint,
                                                            find_ec2_vpc_endpoints e repos,
                                                            )
                                                            ∷ ((
                                                            route_table,
                                                            find_ec2_route_tables e repos,
                                                            )
                                                            ∷ ((eip, find_ec2_addresses e repos)
                                                            ∷ []))))))))))))))))))))))))))))))))))))))

  abbrev pub worded : List (Kind × Finder C W H R) → List (String × Finder C W H R)
  worded = map (λ kf. (text sdk kf.0, kf.1))

  abbrev pub not_supported : String → Error
  not_supported resource_type = record {
    message =
        concat "resource type " (concat (resource_type_to_string resource_type) " not supported");
  }

  abbrev pub answer_of : String → Option (Finder C W H R) → Finder C W H R
  answer_of resource_type (some finder) client dc w = finder client dc w
  answer_of resource_type none client dc w = (([], some (not_supported resource_type)), dc, w)

  -- RepoProxy.FindAll; a cache that it wrote to is handed on
  unfoldable pub find_all :
      RepoProxy C (DataCache H) → String → W → (List R × Option Error) × Option (DataCache H) × W
  find_all proxy resource_type =
      answer_of resource_type (Dict.lookup resource_type (worded cases)) proxy.client proxy.cache

-- ===== src/Proxy/Dispatch/Types.antt =====
-- proxy/proxy.go: what FindAll answers for a type.
use awslib.Cache.{DataCache}
use awslib.Dict
use awslib.Errors.{Error}
use awslib.Proxy.{RepoProxy}
use awslib.Proxy.Dispatch.{Finder, cases, worded, answer_of, find_all}
use awslib.Cache.Key.{Value}
use awslib.Proxy.Finders.{Repositories, Surroundings, find}
use awslib.Proxy.Finders.Kinds.{AreOf, find-AreOf, find_route53_resource_records-AreOf}
use awslib.Proxy.Finders.Typed.{
  find_auto_scale_groups, find_batch_compute_environments, find_batch_job_queues,
  find_glue_databases, find_glue_jobs, find_glue_tables, find_s3_buckets, find_db_instances,
  find_db_snapshots, find_dynamodb_tables, find_ecs_clusters, find_ecs_services, find_eks_clusters,
  find_emr_clusters, find_emr_serverless_applications, find_emr_serverless_job_runs,
  find_lambda_functions, find_ec2_instances, find_cloud_watch_log_groups, find_route53_hosted_zones,
  find_route53_domain_summaries, find_route53_domains, find_cloud_front_distribution_tenants,
  find_cloud_front_connection_groups, find_ec2_snapshots, find_ec2_volumes, find_efs_file_systems,
  find_load_balancers, find_secret_manager_secrets, find_sqs_queues, find_sns_topics,
  find_iam_users, find_ec2_vpcs, find_ec2_subnets, find_ec2_security_groups, find_ec2_vpc_endpoints,
  find_ec2_route_tables, find_ec2_addresses,
}
use mathlib.Core.Path.{subst}
use awslib.Service.Cfg.{
  Kind, text, auto_scaling_group, batch_compute_environment, batch_job_queue, glue_database,
  glue_job, glue_table, bucket, db_instance, db_snapshot, table, ecs_cluster, ecs_service,
  eks_cluster, emr_cluster, emr_serverless_application, emr_serverless_job_run, function, instance,
  cloud_watch_log_group, route53_hosted_zone, route53_domain_summary, route53_domain,
  cloud_front_distribution_tenant_summary, cloud_front_connection_group, snapshot, volume,
  efs_file_system, load_balancer_v2, secret, queue, topic, user, vpc, subnet, security_group,
  vpc_endpoint, route_table, eip,
}
use awslib.Prelude.{
  String, ◌≡◌, Option, List, [], ◌∷◌, All, ◌==◌, ==_iff, string_eq, Bool-cases, inl, inr,
}

module _ {C W H R : Type 0} {Item : Kind → Type 0} (sdk : Kind → String)
    (e : Surroundings C W H R Item) (repos : Repositories C W Item) (type_of : R → String)
    (typed : (k : Kind) (x : Item k) → type_of (e.cast k x) ≡ text sdk k) where
  -- The finder answers resources of the type only.
  abbrev IsOf : Kind × Finder C W H R → Type 0
  IsOf (k, finder) =
      (client : C) (dc : Option (DataCache H)) (w : W)
      → AreOf sdk e type_of typed (text sdk k) ((finder client dc w).0).0

  each :
      (k : Kind) (method : String) (params : List Value)
      (list : C → W → (List (Item k) × Option Error) × W)
      → IsOf (k, λ client. find e k method params (list client) client)
  each k method params list client dc w = find-AreOf sdk e type_of typed k _ _ _ client dc w

  cases-IsOf : All IsOf (cases sdk e repos)
  unfolding find_auto_scale_groups find_batch_compute_environments find_batch_job_queues
      find_glue_databases find_glue_jobs find_glue_tables find_s3_buckets find_db_instances
      find_db_snapshots find_dynamodb_tables find_ecs_clusters find_ecs_services find_eks_clusters
      find_emr_clusters find_emr_serverless_applications find_emr_serverless_job_runs
      find_lambda_functions find_ec2_instances find_cloud_watch_log_groups find_route53_hosted_zones
      find_route53_domain_summaries find_route53_domains find_cloud_front_distribution_tenants
      find_cloud_front_connection_groups find_ec2_snapshots find_ec2_volumes find_efs_file_systems
      find_load_balancers find_secret_manager_secrets find_sqs_queues find_sns_topics find_iam_users
      find_ec2_vpcs find_ec2_subnets find_ec2_security_groups find_ec2_vpc_endpoints
      find_ec2_route_tables find_ec2_addresses
  cases-IsOf = (
    each auto_scaling_group _ _ _,
    (
      each batch_compute_environment _ _ _,
      (
        each batch_job_queue _ _ _,
        (
          each glue_database _ _ _,
          (
            each glue_job _ _ _,
            (
              each glue_table _ _ _,
              (
                each bucket _ _ _,
                (
                  each db_instance _ _ _,
                  (
                    each db_snapshot _ _ _,
                    (
                      each table _ _ _,
                      (
                        each ecs_cluster _ _ _,
                        (
                          each ecs_service _ _ _,
                          (
                            each eks_cluster _ _ _,
                            (
                              each emr_cluster _ _ _,
                              (
                                each emr_serverless_application _ _ _,
                                (
                                  each emr_serverless_job_run _ _ _,
                                  (
                                    each function _ _ _,
                                    (
                                      each instance _ _ _,
                                      (
                                        each cloud_watch_log_group _ _ _,
                                        (
                                          each route53_hosted_zone _ _ _,
                                          (
                                            each route53_domain_summary _ _ _,
                                            (
                                              each route53_domain _ _ _,
                                              (
                                                find_route53_resource_records-AreOf sdk e type_of
                                                    typed repos,
                                                (
                                                  each cloud_front_distribution_tenant_summary _ _
                                                      _,
                                                  (
                                                    each cloud_front_connection_group _ _ _,
                                                    (
                                                      each snapshot _ _ _,
                                                      (
                                                        each volume _ _ _,
                                                        (
                                                          each efs_file_system _ _ _,
                                                          (
                                                            each load_balancer_v2 _ _ _,
                                                            (
                                                            each secret _ _ _,
                                                            (
                                                            each queue _ _ _,
                                                            (
                                                            each topic _ _ _,
                                                            (
                                                            each user _ _ _,
                                                            (
                                                            each vpc _ _ _,
                                                            (
                                                            each subnet _ _ _,
                                                            (
                                                            each security_group _ _ _,
                                                            (
                                                            each vpc_endpoint _ _ _,
                                                            (
                                                            each route_table _ _ _,
                                                            (each eip _ _ _, tt),
                                                            ),
                                                            ),
                                                            ),
                                                            ),
                                                            ),
                                                            ),
                                                            ),
                                                            ),
                                                            ),
                                                          ),
                                                        ),
                                                      ),
                                                    ),
                                                  ),
                                                ),
                                              ),
                                            ),
                                          ),
                                        ),
                                      ),
                                    ),
                                  ),
                                ),
                              ),
                            ),
                          ),
                        ),
                      ),
                    ),
                  ),
                ),
              ),
            ),
          ),
        ),
      ),
    ),
  )

  answer_of-AreOf :
      (kfs : List (Kind × Finder C W H R)) (t : String) (client : C) (dc : Option (DataCache H))
      (w : W)
      → All IsOf kfs
      → AreOf sdk e type_of typed t
          ((answer_of sdk e repos t (Dict.lookup t (worded sdk e repos kfs)) client dc w).0).0
  unfolding Dict.lookup
  answer_of-AreOf [] t client dc w h = tt
  answer_of-AreOf ((k, finder) ∷ kfs) t client dc w h = elim (Bool-cases (text sdk k == t)) [
    | inl same ↦
        rw (same, Dict.lookup)
          (subst (λ u. AreOf sdk e type_of typed u ((finder client dc w).0).0)
            ((==_iff (text sdk k) t).0 same) (h.0 client dc w))
    | inr other ↦ rw (other, Dict.lookup) (answer_of-AreOf kfs t client dc w h.1)
  ]

  -- Where every entity's GetType is the type that it is listed for, FindAll answers resources of the
  -- type that it is asked for and no others, with a cache or without, whatever the repositories
  -- answer.
  pub find_all-AreOf :
      (proxy : RepoProxy C (DataCache H)) (t : String) (w : W)
      → AreOf sdk e type_of typed t ((find_all sdk e repos proxy t w).0).0
  unfolding find_all
  find_all-AreOf proxy t w =
      answer_of-AreOf (cases sdk e repos) t proxy.client proxy.cache w cases-IsOf

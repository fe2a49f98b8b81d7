-- ===== src/Proxy/Finders/Typed.antt =====
-- proxy/helper.go: the finders, by the types that they list.
use awslib.Cache.{DataCache}
use awslib.Errors.{Error}
use awslib.Proxy.Finders.{Repositories, Surroundings, nil_time, list_with, find}
use awslib.Service.Cfg.{
  user, route53_hosted_zone, route53_resource_record, route53_domain, route53_domain_summary,
  cloud_front_distribution_tenant_summary, cloud_front_connection_group, auto_scaling_group,
  batch_compute_environment, batch_job_queue, cloud_watch_log_group, bucket, db_instance,
  db_snapshot, ecs_cluster, ecs_service, eks_cluster, efs_file_system, emr_cluster,
  emr_serverless_application, emr_serverless_job_run, function, glue_database, glue_job, glue_table,
  instance, volume, snapshot, vpc, subnet, security_group, vpc_endpoint, route_table, eip,
  load_balancer_v2, queue, secret, table, topic, Kind,
}
use awslib.Prelude.{Option, none, some, List, [], ◌∷◌, ◌++◌, map}

module _ {C W H R : Type 0} {Item : Kind → Type 0} (e : Surroundings C W H R Item)
    (repos : Repositories C W Item) where
  unfoldable pub find_auto_scale_groups :
      C → Option (DataCache H) → W → (List R × Option Error) × Option (DataCache H) × W
  find_auto_scale_groups client =
      find e auto_scaling_group "ListAutoScalingGroupsAll" []
        (repos.autoscaling_list_auto_scaling_groups_all client) client

  unfoldable pub find_batch_compute_environments :
      C → Option (DataCache H) → W → (List R × Option Error) × Option (DataCache H) × W
  find_batch_compute_environments client =
      find e batch_compute_environment "ListComputeEnvironmentAll" []
        (repos.batch_list_compute_environment_all client) client

  unfoldable pub find_batch_job_queues :
      C → Option (DataCache H) → W → (List R × Option Error) × Option (DataCache H) × W
  find_batch_job_queues client =
      find e batch_job_queue "ListJobQueueAll" [] (repos.batch_list_job_queue_all client) client

  unfoldable pub find_cloud_watch_log_groups :
      C → Option (DataCache H) → W → (List R × Option Error) × Option (DataCache H) × W
  find_cloud_watch_log_groups client =
      find e cloud_watch_log_group "ListLogGroupsAll" []
        (repos.cloudwatchlogs_list_log_groups_all client) client

  unfoldable pub find_db_instances :
      C → Option (DataCache H) → W → (List R × Option Error) × Option (DataCache H) × W
  find_db_instances client =
      find e db_instance "ListDbInstancesAll" [] (repos.rds_list_db_instances_all client) client

  unfoldable pub find_dynamodb_tables :
      C → Option (DataCache H) → W → (List R × Option Error) × Option (DataCache H) × W
  find_dynamodb_tables client =
      find e table "ListTablesAll" [] (repos.dynamodb_list_tables_all client) client

  unfoldable pub find_db_snapshots :
      C → Option (DataCache H) → W → (List R × Option Error) × Option (DataCache H) × W
  find_db_snapshots client =
      find e db_snapshot "ListDbSnapshotsAll" [] (repos.rds_list_db_snapshots_all client) client

  unfoldable pub find_ec2_snapshots :
      C → Option (DataCache H) → W → (List R × Option Error) × Option (DataCache H) × W
  find_ec2_snapshots client =
      find e snapshot "ListSnapshotsAll" [] (repos.ec2_list_snapshots_all client) client

  unfoldable pub find_ec2_volumes :
      C → Option (DataCache H) → W → (List R × Option Error) × Option (DataCache H) × W
  find_ec2_volumes client =
      find e volume "ListVolumesAll" [] (repos.ec2_list_volumes_all client) client

  unfoldable pub find_ec2_vpcs :
      C → Option (DataCache H) → W → (List R × Option Error) × Option (DataCache H) × W
  find_ec2_vpcs client = find e vpc "ListVpcsAll" [] (repos.ec2_list_vpcs_all client) client

  unfoldable pub find_ec2_subnets :
      C → Option (DataCache H) → W → (List R × Option Error) × Option (DataCache H) × W
  find_ec2_subnets client =
      find e subnet "ListSubnetsAll" [] (repos.ec2_list_subnets_all client) client

  unfoldable pub find_ec2_security_groups :
      C → Option (DataCache H) → W → (List R × Option Error) × Option (DataCache H) × W
  find_ec2_security_groups client =
      find e security_group "ListSecurityGroupsAll" [] (repos.ec2_list_security_groups_all client)
        client

  unfoldable pub find_ec2_vpc_endpoints :
      C → Option (DataCache H) → W → (List R × Option Error) × Option (DataCache H) × W
  find_ec2_vpc_endpoints client =
      find e vpc_endpoint "ListVpcEndpointsAll" [] (repos.ec2_list_vpc_endpoints_all client) client

  unfoldable pub find_ec2_route_tables :
      C → Option (DataCache H) → W → (List R × Option Error) × Option (DataCache H) × W
  find_ec2_route_tables client =
      find e route_table "ListRouteTablesAll" [] (repos.ec2_list_route_tables_all client) client

  unfoldable pub find_ec2_addresses :
      C → Option (DataCache H) → W → (List R × Option Error) × Option (DataCache H) × W
  find_ec2_addresses client =
      find e eip "ListAddressesAll" [] (repos.ec2_list_addresses_all client) client

  unfoldable pub find_ec2_instances :
      C → Option (DataCache H) → W → (List R × Option Error) × Option (DataCache H) × W
  find_ec2_instances client =
      find e instance "ListInstancesAll" [] (repos.ec2_list_instances_all client) client

  unfoldable pub find_ecs_clusters :
      C → Option (DataCache H) → W → (List R × Option Error) × Option (DataCache H) × W
  find_ecs_clusters client =
      find e ecs_cluster "ListClustersAll" [] (repos.ecs_list_clusters_all client) client

  unfoldable pub find_eks_clusters :
      C → Option (DataCache H) → W → (List R × Option Error) × Option (DataCache H) × W
  find_eks_clusters client =
      find e eks_cluster "ListClustersAll" [] (repos.eks_list_clusters_all client) client

  unfoldable pub find_ecs_services :
      C → Option (DataCache H) → W → (List R × Option Error) × Option (DataCache H) × W
  find_ecs_services client =
      find e ecs_service "ListServicesAll" [] (repos.ecs_list_services_all client) client

  unfoldable pub find_efs_file_systems :
      C → Option (DataCache H) → W → (List R × Option Error) × Option (DataCache H) × W
  find_efs_file_systems client =
      find e efs_file_system "ListFileSystemsAll" [] (repos.efs_list_file_systems_all client) client

  unfoldable pub find_emr_clusters :
      C → Option (DataCache H) → W → (List R × Option Error) × Option (DataCache H) × W
  find_emr_clusters client =
      find e emr_cluster "ListClustersLatest" (nil_time ∷ [])
        (repos.emr_list_clusters_latest none client) client

  unfoldable pub find_emr_serverless_applications :
      C → Option (DataCache H) → W → (List R × Option Error) × Option (DataCache H) × W
  find_emr_serverless_applications client =
      find e emr_serverless_application "ListApplicationsActive" []
        (repos.emrserverless_list_applications_active client) client

  unfoldable pub find_emr_serverless_job_runs :
      C → Option (DataCache H) → W → (List R × Option Error) × Option (DataCache H) × W
  find_emr_serverless_job_runs client =
      find e emr_serverless_job_run "ListJobRunsAll" []
        (repos.emrserverless_list_job_runs_all client) client

  unfoldable pub find_glue_databases :
      C → Option (DataCache H) → W → (List R × Option Error) × Option (DataCache H) × W
  find_glue_databases client =
      find e glue_database "ListDatabaseAll" [] (repos.glue_list_database_all client) client

  unfoldable pub find_glue_jobs :
      C → Option (DataCache H) → W → (List R × Option Error) × Option (DataCache H) × W
  find_glue_jobs client = find e glue_job "ListJobsAll" [] (repos.glue_list_jobs_all client) client

  unfoldable pub find_glue_tables :
      C → Option (DataCache H) → W → (List R × Option Error) × Option (DataCache H) × W
  find_glue_tables client =
      find e glue_table "ListTablesAll" [] (repos.glue_list_tables_all client) client

  unfoldable pub find_lambda_functions :
      C → Option (DataCache H) → W → (List R × Option Error) × Option (DataCache H) × W
  find_lambda_functions client =
      find e function "ListFunctionsAll" [] (repos.lambda_list_functions_all client) client

  unfoldable pub find_iam_users :
      C → Option (DataCache H) → W → (List R × Option Error) × Option (DataCache H) × W
  find_iam_users client = find e user "ListUsersAll" [] (repos.iam_list_users_all client) client

  unfoldable pub find_load_balancers :
      C → Option (DataCache H) → W → (List R × Option Error) × Option (DataCache H) × W
  find_load_balancers client =
      find e load_balancer_v2 "ListLoadBalancersAll" [] (repos.elb_list_load_balancers_all client)
        client

  unfoldable pub find_cloud_front_distribution_tenants :
      C → Option (DataCache H) → W → (List R × Option Error) × Option (DataCache H) × W
  find_cloud_front_distribution_tenants client =
      find e cloud_front_distribution_tenant_summary "ListDistributionTenantsAll" []
        (repos.cloudfront_list_distribution_tenants_all client) client

  unfoldable pub find_cloud_front_connection_groups :
      C → Option (DataCache H) → W → (List R × Option Error) × Option (DataCache H) × W
  find_cloud_front_connection_groups client =
      find e cloud_front_connection_group "ListConnectionGroupsAll" []
        (repos.cloudfront_list_connection_groups_all client) client

  unfoldable pub find_route53_hosted_zones :
      C → Option (DataCache H) → W → (List R × Option Error) × Option (DataCache H) × W
  find_route53_hosted_zones client =
      find e route53_hosted_zone "ListHostedZonesAll" []
        (repos.route53_list_hosted_zones_all client) client

  unfoldable pub find_route53_domain_summaries :
      C → Option (DataCache H) → W → (List R × Option Error) × Option (DataCache H) × W
  find_route53_domain_summaries client =
      find e route53_domain_summary "ListDomainsAll" [] (repos.route53_list_domains_all client)
        client

  unfoldable pub find_route53_domains :
      C → Option (DataCache H) → W → (List R × Option Error) × Option (DataCache H) × W
  find_route53_domains client =
      find e route53_domain "ListDomainsDetailsByInput" (e.list_domains_input ∷ [])
        (repos.route53_list_domains_details_by_input client) client

  unfoldable pub find_secret_manager_secrets :
      C → Option (DataCache H) → W → (List R × Option Error) × Option (DataCache H) × W
  find_secret_manager_secrets client =
      find e secret "ListSecretsAll" [] (repos.secretmanager_list_secrets_all client) client

  unfoldable pub find_sqs_queues :
      C → Option (DataCache H) → W → (List R × Option Error) × Option (DataCache H) × W
  find_sqs_queues client = find e queue "ListQueuesAll" [] (repos.sqs_list_queues_all client) client

  unfoldable pub find_sns_topics :
      C → Option (DataCache H) → W → (List R × Option Error) × Option (DataCache H) × W
  find_sns_topics client = find e topic "ListTopicsAll" [] (repos.sns_list_topics_all client) client

  unfoldable pub find_s3_buckets :
      C → Option (DataCache H) → W → (List R × Option Error) × Option (DataCache H) × W
  find_s3_buckets client =
      find e bucket "ListBucketsAll" [] (repos.s3_list_buckets_all client) client

  -- the loop over the hosted zones
  unfoldable pub records_of :
      List (Item route53_hosted_zone)
      → List R
      → C
      → Option (DataCache H)
      → W
      → (List R × Option Error) × Option (DataCache H) × W
  records_of [] all client dc w = ((all, none), dc, w)
  records_of (hz ∷ zones) all client dc w =
      let ((records, err), dc', w') =
        list_with e route53_resource_record "ListResourceRecords" (e.shown_hosted_zone hz ∷ [])
          (repos.route53_list_resource_records hz client) client dc w in
      elim err [
        | some failed ↦ (([], some failed), dc', w')
        | none ↦
            records_of zones (all ++ map (e.cast route53_resource_record) records) client dc' w'
      ]

  unfoldable pub find_route53_resource_records :
      C → Option (DataCache H) → W → (List R × Option Error) × Option (DataCache H) × W
  find_route53_resource_records client dc w =
      let ((zones, err), dc', w') =
        list_with e route53_hosted_zone "ListHostedZonesAll" []
          (repos.route53_list_hosted_zones_all client) client dc w in
      elim err [
        | some failed ↦ (([], some failed), dc', w')
        | none ↦ records_of zones [] client dc' w'
      ]

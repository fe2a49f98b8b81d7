-- ===== src/Lib.antt =====
-- awslib: a Go library that opens AWS clients per account and region, lists resources through
-- service repositories, caches the lists, and queries the Cost Explorer. This development models
-- the parts that carry logic of its own, as functions on explicit states.
--
-- Parts, the code they stand for, and how they meet:
--   Prelude, Dict, Strings, Errors, Gocollection, Exec: numbers, lists, Go's maps as association
--     lists, the parts of `strings` that are used, `error` values, the gocollection module as an
--     interface, and methods that change an object and may fail.
--   Provider: provider/v3. FailureCache is failure_cache.go, Client is client.go and
--     client_builder.go, Pool is client_pool.go. The pool asks its caches and then the builder,
--     and notes a failure in the failure cache. The AWS SDK is the record Aws, over a world of its
--     own; account and region texts are String, instants are numbers of nanoseconds.
--     Frame and Histories of Pool are about requests that follow each other. Discovery is
--     provider/role_discovery.go: Documents is about a policy's document, Policies about the
--     policies of a role, Accounts about the map of roles. Local is provider/client_pool.go.
--   Cache: cache/datacache.go; its Handlers are cache/handlers/memory.go and file.go, over
--     interfaces for encoding/gob, bigcache and the file system; Keys and Repository are what the
--     generated cached_repository.go files do with the cache: WithCache, the methods that answer an
--     error too (mapped to service/ecs/cached_repository.go) and those that do not, which read the
--     cache and never write to it (mapped to service/route53/cached_repository.go).
--   Cache.Key: cache/key.go. Canonical is the walk over a parameter, of what `reflect` shows of it,
--     Hash the hash and its digits, Params the key; Ends, Moved, Alike, Shuffled and Methods are
--     about them.
--   Paging: the loop that follows page tokens, on a bound of calls.
--   CostExplorer: service/costexplorer/filter.go and repository.go. Operators, Filters, Builders and
--     Groups make the parts of a query, Query checks it and makes its filter, Requests sends it
--     through Paging. Selection is the meaning of an expression, Nodes its form, Validity what the
--     checks accept.
--   Resources: resources/provider.go and reader.go as steps of a run that interleave in any way;
--     Observer is resources/observer.go and Collected is resources/middleware/pool.go. Blame is
--     resources/blame.go, which asks CloudTrail for the events around a resource's creation.
--   CloudTrail: service/cloudtrail/lookup_middleware.go, and of events_repository.go what sends a
--     look-up and what caches its events; Requests is about the calls of the middleware. Its Events
--     are the goroutine that fetches the pages, and what ListEventsByInput may answer.
--   Proxy: proxy/proxy_pool.go and proxy/generic.go. Its Finders are proxy/helper.go, over the list
--     methods of the repositories and the cached calls of Cache.Repository; Dispatch is FindAll of
--     proxy/proxy.go.
--   CloudFront: service/cloudfront/errors.go; its Calls are what the repository's methods share,
--     its Tenants are distribution_tenant_repository.go, its Groups connection_group_repository.go,
--     and Deletion is about the sequence of disabling and deleting a tenant, at what Store says of
--     the API.
--   Service: the chunks of service/helper.go, and its Channels, ReadChannels and WriteToChan as
--     steps that interleave; its Cfg is service/cfg/resources.go, the lists of the resource types
--     and their URL forms; Tags is service/ec2/helper.go.
--   Examples: the theorems at concrete inputs.
--
-- Bounds: a paged call takes the most calls it may make; as many as the API has pages are enough.
-- The chunk loop takes the most turns it may make; the slice's length is enough for a size of at
-- least one. The discovery of roles takes the most pages it may ask for; as many as the API serves
-- are enough; the lists of tenants and connection groups likewise. The goroutine that fetches
-- events takes the most turns it may make, and a page that fails takes one; as many as there are
-- pages are enough where none fails. The walk over a parameter takes the most pointers that it may
-- follow in a row; one more than the heap has values is enough, since no address is followed
-- twice on a path. The digits of a number take as many turns as the number. Everything else is by
-- structural recursion.
--
-- Not modelled: metrics, logs and traces; the locks, each method being one step; the texts of
-- formatted errors; cyclic slices and maps as parameters of a key, which the depth limit of the walk
-- cuts; the service repositories that only call the SDK, the registry clients, the
-- command line tools and the code generators.
pub mod Prelude
pub mod Dict
pub mod Strings
pub mod Errors
pub mod Gocollection
pub mod Exec
pub mod Paging
pub mod Provider
pub mod Cache
pub mod CostExplorer
pub mod Resources
pub mod Proxy
pub mod CloudTrail
pub mod CloudFront
pub mod Service
pub mod Examples

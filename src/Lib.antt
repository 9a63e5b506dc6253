-- ===== src/Lib.antt =====
-- external-dns: the core of the program that keeps DNS records equal to what Kubernetes resources ask
-- for. The controller reads the records of a registry and the endpoints of the sources, computes a
-- plan, and hands the changes of the plan to the registry. The TXT registry adds a TXT record with
-- the owner to every record and hands the changes to a provider, possibly behind a cache.
--
-- The parts, and the code that they model:
--
-- - Endpoint (endpoint/endpoint.go, labels.go, domain_filter.go): `Types` has the data, `Targets` the
--   order and the equality of targets (Less, Same, IsLess), `Create` NewEndpoint and
--   NewEndpointWithTTL, `Labels` the text of labels (NewLabelsFromString, SerializePlain, Serialize),
--   `Properties` the provider-specific properties and the With methods, `Owner` IsOwnedBy,
--   FilterEndpointsByOwnerID and RemoveDuplicates, `Validate` CheckEndpoint, `DomainFilter` the domain
--   filters. `Net` is the interface to net/netip, case folding and idna.
-- - Idna (internal/idna/idna.go): NormalizeDNSName.
-- - Plan (plan/plan.go, conflict.go, policy.go): `Types` has changes and the rows of the plan table,
--   `Table` its construction, `Conflict` the resolver PerResource, `Policy` the policies, `Calculate`
--   the computation of the changes.
-- - Registry (registry/mapper/mapper.go, registry/txt/registry.go): `Mapper` ToTXTName and
--   ToEndpointName, `Txt` the state and NewTXTRegistry, `Generate` generateTXTRecordWithFilter,
--   `Records` Records, `Apply` ApplyChanges with its cache.
-- - Registry/Dynamo (registry/dynamodb/registry.go): `Types` the registry and the interface to the
--   table and the provider, `Keys` fromDynamoKey, toDynamoKey and the labels, `Statements` the
--   statements, `Execute` executeStatements, `Read` readLabels, `Records` Records, `Loops`, `Handlers`
--   and `Apply` ApplyChanges with its loops and its error handlers.
-- - Registry/Plain (registry/awssd/registry.go, registry/noop/noop.go, registry/registry.go): the AWS SD
--   and noop registries, and SelectRegistry.
-- - Source (source/endpoints.go, utils.go, wrappers/*.go, endpoint/target_filter.go): `Hostname`
--   EndpointsForHostname and the helpers, `Wrappers` the sources that merge, deduplicate and set TTLs,
--   `TargetFilter`, `Nat64`, and `Wrap` WrapSources, their composition. `Library` is the interface to
--   the address libraries.
-- - Provider (provider/provider.go, zonefinder.go, cached_provider.go, inmemory/inmemory.go):
--   `Difference`, `ZoneFinder`, `Cached`, `InMemory`; `ZoneFilters` (recordfilter.go and
--   zone_*_filter.go) and `Rfc2317` (pkg/rfc2317/arpa.go).
-- - Provider/Aws (provider/aws/aws.go): `Alias` isAWSAlias and canonicalHostedZone, with the table in
--   `CanonicalZones`, `Adjust` AdjustEndpoints, `Change` newChange, `Batch` batchChangeSet, `Zones`
--   suitableZones and changesByZone, `Submit` ApplyChanges and submitChanges, `Hosted` the selection of
--   zones, `Records` the endpoints of record sets.
-- - Controller (controller/controller.go): `Schedule` ScheduleRunOnce, ShouldRunOnce and the start of
--   RunOnce as steps of a relation, `Run` RunOnce and what Run does with its errors.
-- - Prelude: Booleans, equality, association lists, texts and the lemmas on them.
-- - Tests: samples, runs of the code, and the theorems at concrete inputs.
--
-- How the code is represented:
--
-- - A Go string is the list of its bytes, `Text`. ToLower, Fields and TrimSpace are those of ASCII.
-- - A map is an association list that `insert` keeps free of repeated keys. Where the order in which Go
--   visits a map matters to the result, it is a parameter (`Ranges` of Plan.Types): an order that
--   shows a loop no other entries.
-- - A pointer to an endpoint is the endpoint; a method that changes it returns the changed one. The
--   sorting of targets in place, which later comparisons read, is passed on.
-- - nil maps, nil pointers and missing keys are `none`; an error is `none` or a constructor of a result
--   type. A panic and log.Fatalf are `none`, `died` in the TXT registry's Records, `panicked` in the
--   DynamoDB registry, `no_target` in the in-memory client and `fetch_panic` in the sources.
-- - sort.Stable and sort.SliceStable are insertion sort, whose result every stable sort has, and so is
--   sort.Strings. sort.Sort in IsLess is insertion sort too, which Go runs up to 12 targets.
-- - Times are numbers; a mutex makes the code that holds it one step, and RunOnce starts in a step of
--   its own behind ShouldRunOnce. int values are numbers, with the bound that the code checks; a
--   conversion to uint16 wraps around.
-- - Loops are recursion on the list that they range over. Only the loop of executeStatements, which
--   cuts batches off a list, runs on fuel: the number of statements, since a round takes at least one.
-- - Services behind a client (the DynamoDB table, the DNS provider, Route 53) are functions on an
--   abstract state, so that they may answer every call differently.
-- - Where code compares pointers (the queue of failed changes of the AWS provider), a change carries
--   the address of its allocation. Label maps that the DynamoDB registry shares with endpoints are
--   copied.
--
-- Parameters: the netip, idna and case-folding functions (`Net`), the encryption of labels (`Cipher`),
-- the base64 decoder and the matchers of regular expressions (arguments), cmp.Equal (an argument of
-- has_changes), what the wrapped provider, the source and the registry answer (arguments), the AWS
-- client of DynamoDB with its attribute values (`Service`), the client of Route 53 (`Client`), strconv
-- (`Numbers`), the networks and the sorted sets of the sources (`Library`).
--
-- Not modelled: the Kubernetes sources, the DNS providers but for AWS, flags, metrics, events and logging,
-- the JSON form of filters.
pub mod Prelude
pub mod Endpoint
pub mod Idna
pub mod Plan
pub mod Registry
pub mod Provider
pub mod Controller
pub mod Source
pub mod Tests

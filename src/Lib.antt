-- ===== src/Lib.antt =====
-- A verification library for rpc-operator, a Kubernetes operator that runs Redpanda Connect pipelines:
-- each as a pod of its own, or as a stream inside a shared cluster instance, or as a member of a
-- project whose pipelines are joined by routes over NATS.
--
-- The parts, and how they interact. The reconciler of a Pipeline (internal/controller) reads the
-- resource (api/v1alpha1), asks the project's route table for the pipeline's inputs and outputs
-- (internal/projectroute), picks an instance of the cluster (cluster_scheduler.go), renders and
-- rewrites the configuration (internal/render), substitutes secrets (secret_substitution.go) and puts
-- the stream on the instance by its HTTP interface (internal/streams). The outcome is written to the
-- status of the resource, from which the next reconcile starts. The reconciler of a PipelineProject
-- validates the routes, keeps a NATS stream for each of them, and gives the cache resources to the
-- instances.
--
-- Which file models what:
--   Api                  api/v1alpha1/pipeline_types.go; Api/Cluster is pipelinecluster_types.go, and
--                        Api/Conditions holds the condition list of apimachinery, a record of
--                        operations and laws
--   Project/Types        the specification of api/v1alpha1/pipelineproject_types.go
--   Project/Naming, Plan the names, roles and I/O plans of internal/projectroute/projectroute.go
--   Project/Cycle        findCycle of that file: Graph builds the adjacency and the node set, Search is
--                        the depth-first search with its colours and its path
--   Project/Validate     ValidateProject of that file; Valid says what a valid project is
--   Scheduler            internal/controller/cluster_scheduler.go, and readyClusterOrdinals, isPodReady,
--                        loadByOrdinal and clusterPodURL of pipeline_cluster_assign.go
--   Render               internal/render/render.go (Composite, Document) and project_rewrite.go
--                        (ProjectRewrite); Value is Go's decoded JSON
--   Secrets              substituteSecrets of internal/controller/secret_substitution.go
--   Controller           Reconcile and its handlers: Calls is the interface to the API server and the
--                        instances, Status writes statuses, Placement deletes, ensures and reads
--                        streams and fetches secrets, ClusterMode is handleClusterAssigned,
--                        handleProjectAssigned and handleClusterFallback, PodMode the single pod and
--                        handleStopped, Reconcile the entry
--   Controller/Sound     the policy for calls, and that every handler keeps it
--   Streams              internal/streams/client.go, over HTTP requests and replies
--   ProjectController    Reconcile of internal/controller/pipelineproject_controller.go is in Managing, with
--                        its status in Status, its objects in Resources and the watches in Watches. Of
--                        pipelineproject_routes.go, Views is the validation, Calls the interface to the
--                        NATS server, Retention the limits of a stream, Routes the two loops; Caches is
--                        reconcileCacheResources of pipelineproject_caches.go, beside it with
--                        BuildCacheResourceConfig of internal/render/cache_resource.go
--   Web                  internal/api: Sessions is the session store and Oidc the handlers of oidc.go;
--                        Oidc/World is a server with its clock and a provider, in which Oidc/Journey
--                        follows a user from the login to a refresh
--                        Access is auth.go with the allowlist of handlers_namespaces.go, Validate is
--                        validate.go, Distribution is cluster_aggregation.go, Rest the handlers of
--                        pipelines, projects and clusters, and Routes the routes of server.go that join
--                        the gates with these handlers
--   Effects              programs of calls: a program is a call and what follows each reply, so that what
--                        is proved of all replies covers failures and other writers between the calls
--   Fallible             values with an error
--   Prelude              shared names and tests, texts, decimal numbers, quoting, sorting
--
-- State and errors. A reconcile is a program over Call and Reply; the state that the operator keeps
-- is the status that it writes. Errors carry the kind that the code tells apart and a text; the
-- prefixes that fmt.Errorf puts on errors that only the work queue sees are left out. Logging, events
-- and metrics are left out. A map is a list of entries or a function.
--
-- Bounds and fuel. Ordinals are integers with the wrap-around of the conversion to int32. The
-- depth-first search runs on fuel, one unit for a node of the graph: the theorem on it says that this
-- fuel is never used up. The substitution takes the length of the text as fuel, and takes a character
-- or more in each round.
--
-- Parameters, since their code is elsewhere: YAML and JSON (Codec), SHA-256, the Bloblang parser, the
-- condition lists of apimachinery with their documented laws, and the services behind the calls.
--
-- Not modelled: the cluster controller, the NATS manager, the handlers for metrics, connections, logs
-- and the catalog, static files, pod templates, generated code and wiring, which are for the most part
-- input and output around libraries.
mod Prelude
pub mod Fallible
pub mod Api
pub mod Project
pub mod Scheduler
pub mod Render
pub mod Effects
pub mod Secrets
pub mod Controller
pub mod Streams
pub mod ProjectController
pub mod Web

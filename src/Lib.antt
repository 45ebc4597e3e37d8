-- ===== src/Lib.antt =====
-- PP-VPA: a vertical autoscaler for Kubernetes that gives each pod of a Deployment its own
-- resources.
--
-- A node agent on each node samples usage, keeps decaying histograms and watermarks, decides on
-- in-place resizes and queues them as patches. Controllers keep one PodResourceRecommendation
-- (PRR) for each pod of a PerPodVerticalPodAutoscaler (PP-VPA), compute the recommendation for
-- the workload from the histograms that the PRRs carry, scale the Deployment, and evict pods
-- that are anomalous or cannot be resized. A webhook gives new pods the recommended resources.
--
-- Files, and the code that each is about:
-- - Prelude (Tests, Lists, Errors, Names, Tables, Int): shared types and lemmas. `Outcome` is
--   how a Go call ends: a value, an error, or a panic. `Int` has the signed integers and int32.
-- - Float (Order, Fixed): float64 as an interface, `Float`, and the laws of IEEE 754 and of
--   package math that proofs rely on, `Ieee`, named hypotheses of the theorems that use them.
--   NaN is a value that is not `<=` itself, and no law says that a computation is free of it.
--   `Float` also has the longest slice of float64 that make yields, by which New returns or
--   panics. `Fixed` fills both, by numbers in thousandths, so that the theorems can be run.
-- - Clock: package time, with the wrapping of UnixNano.
-- - Histogram (Index, Methods, Percentile, Merging, Codec): internal/recommender/histogram. A
--   histogram is a record; a method returns the new record.
-- - Recommender (Aggregate, Bounds, Recommend, Checkpoint; proofs in Ordering, Chain, Names,
--   Totality): internal/recommender.
-- - Heap (Slice, Up, Down, Laws): container/heap of the Go library, as the patch queue uses it.
-- - Patcher (Queue, Drain, Bag): internal/nodeagent/patcher and Agent.drainPatches of
--   internal/nodeagent/agent.go. The API server is a parameter, `Kubelet`, over a world of any
--   type.
-- - Text (Words, Lines, Numbers): what the parsers use of strings, strconv, bufio.Scanner and
--   fmt.Sscanf, on native texts; a file is a `Reader`, its content and whether reading fails
--   behind it.
-- - Watermark, Ingest, Psi, Oom, Trigger, Cgroup: the packages of these names in
--   internal/nodeagent. Cgroup has filepath.Join and Clean, and os.Stat as a test of paths.
-- - Compat (Capabilities): internal/compat, with the server's answer and the file system as
--   parameters.
-- - NodeAgent: internal/nodeagent/agent.go and checkpointwriter.go. NodeAgent has the agent's
--   state, New, EnsurePod, ForgetPod and PodForUID, over a `Host`, the files at a moment;
--   Sampling has sampleAll; Checkpoints has the writer and writeCheckpoints; Run has a run of
--   the agent as a list of events, each the work of a tick or a call of a method. Registry is
--   the abstract agent, a table of the names of pods; proofs are in Pods, Fresh, Ensure,
--   Written, Restart, Steps and Refinement.
-- - Kube, Api: what the program uses of the Kubernetes object model, and the kinds of
--   api/v1alpha1.
-- - Cluster (Writes, Samples): the client of controller-runtime, a parameter over a cluster of
--   any type that may answer anything; a handler is a function of a session, the cluster and
--   the log of the writes issued so far.
-- - Eviction (Budget, Progress): internal/eviction.
-- - Controller (Prrs, Reaction, Checkpointing; proofs in Garbage, Replicas, Stages, Flow,
--   Whole, Store, Settled, Steady, Dispatch, Stored):
--   perpodverticalpodautoscaler_controller.go, podresourcerecommendation_controller.go and
--   checkpoint_controller.go of internal/controller. The order in which Go ranges over a map is
--   a parameter.
-- - Webhook (Injection): internal/webhook/v1/pod_webhook.go.
-- - Process (Flags, Manager, Boot, Main; proofs in Settings, Plan, Booted, Exits): cmd/main.go
--   and internal/modes. The command line comes split into names and values, the calls of
--   controller-runtime are acts that may fail, and a run of the agent is a list of the events
--   of NodeAgent.
-- Each part's Tests run its code on small inputs.
--
-- Fuel and bounds: a loop over a slice recurses on the list. drainPatches runs on fuel, the
-- length of the queue and one, which is enough since each round that goes on takes a patch off.
-- The heap's loops run on the length of the slice. Counts of replicas are int32 and wrap;
-- UnixNano wraps at 64 bits. A slice longer than make yields is a panic of New, and so of
-- Decode; memory that runs out below that length is left out.
--
-- Mutexes serialise the calls of a method and are left out. gob, base64, JSON, quantities and
-- the scaling of percentages are parameters. A method of the agent runs as one step, since it
-- holds the agent's mutex (drainPatches, which only holds the queue's for each Push and Pop, is
-- one step too, so no Enqueue falls inside it); the ticks and calls come in any order. The text
-- of a file is taken to be valid UTF-8; a line of 65536 bytes or more is the scanner's error.
-- The pressure files that sampleAll reads and discards are left out of it. After a write a
-- handler goes on with the object that it sent, not with the server's answer to it, except
-- where the code reads the object again. The registration of kinds with a scheme is left out.
-- Not modelled: generated code, and the tools of the end-to-end tests.
pub mod Prelude
pub mod Float
pub mod Clock
pub mod Histogram
pub mod Heap
pub mod Kube
pub mod Api
pub mod Patcher
pub mod Watermark
pub mod Text
pub mod Psi
pub mod Oom
pub mod Cgroup
pub mod Compat
pub mod Recommender
pub mod Ingest
pub mod Trigger
pub mod Cluster
pub mod NodeAgent
pub mod Eviction
pub mod Controller
pub mod Webhook
pub mod Process

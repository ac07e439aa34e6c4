-- ===== src/Lib.antt =====
-- Verification library of the node rotation controller, a Kubernetes controller that replaces ageing
-- nodes of Karpenter NodePools within maintenance windows. A pass of the reconciler resolves the
-- policy of a pool, derives the age threshold from it (schedule), and then either drives the
-- rotation in flight (controller, with nodeops and surge) or asks the start gates (decide) and picks
-- the next NodeClaim (selection). All durable state of a rotation is annotations: an anchor on the
-- NodePool and a state on the NodeClaim.
--
-- Files and sources:
--   Annotations        internal/annotations/annotations.go, the keys and the timestamps
--   Selection          internal/selection/selection.go and census.go: triggered, eligible, the pick,
--                      the backoff ladder (Selection/Backoff) and the census (Selection/Census)
--   Decide             internal/decide/decide.go and windowclose.go: StartGate, SurgelessFallback,
--                      WindowEdge (Decide/Window)
--   NodeOps            internal/controller/nodeops.go: freeze, cordon and their undoing
--   Schedule           internal/schedule/schedule.go: Derive and the findings (Schedule/Derive),
--                      floorDiv and ceilDiv (Schedule/Division), float64 (Schedule/Float)
--   Policy             internal/policy/policy.go and internal/crd/crd.go: the policy of a pool, its
--                      defaults, its checks (Policy/Shape says what they mean) and ParseHHMM and
--                      ParseWeekday (Policy/Clock)
--   Window             internal/window/window.go: New and InWindow, OccurrenceBounds (Window/Search),
--                      the weekly cycle (Window/Weekly)
--   Governing          internal/resolve/resolve.go: the one policy that governs a pool (what it collects
--                      in Governing/Reference, the outcome in Governing/Governed)
--   Adapt              internal/adapt/adapt.go: the view of a NodeClaim that Selection reads
--   Surge              internal/surge: the filters on Pods and the census (Surge/Pods), the path of a
--                      surge (Surge/Path), sums of requests (Surge/Quantity), Clamp, WholeNode,
--                      Headroom, PlaceholderName (Surge/Name), placeholderSizing and headroom of
--                      rotation_controller.go (Surge/Sizing), and the placeholder Pod with its node
--                      affinity (Surge/Placeholder)
--   Controller         internal/controller/rotation_controller.go. World: what a pass reads and
--                      writes. Reads: its cached reads. Api: the conditional writes (patchPoolIf,
--                      patchClaimIf, patchNode) and deletes. Anchor: clearAnchor, clearAnchorIf and
--                      markExpired. Ending: completeOrAbort, advanceExpired, abortPendingExpiry and
--                      reapUngovernedRotation. Pending: the later part of advancePending,
--                      createPlaceholder and startForcefulFallback. Failing: failPending and
--                      reapSurgeClaim. Dispatch: advance, advancePending, advanceDraining and
--                      advanceFailed. Resolve: resolve, selInputs and derivedThresholds. Edge:
--                      evaluateWindowEdge. Start: reconcileNodePool and anchorRotation. Windows:
--                      what a pass takes from the schedule. Reconcile: Reconcile and
--                      governingPolicy. Sweep: sweepNodes and sweepClaims of sweep.go; Sweep/Cluster:
--                      anchoredClaims, sweepPlaceholders and the whole Sweep. Watch: the maps and the
--                      filters of the watches. Observe: observe and its helpers. Create:
--                      excludedHostnames and createPlaceholder. Warnings: warnings.go and
--                      transitions.go. PolicyStatus: policystatus.go. Hoare: the
--                      rules for triples over these actions. Walk: what the single calls keep, every
--                      handler keeps. Moves and Series: the anchor over the writes of a pass. Calm:
--                      runs in which every call goes through
--   Sim                internal/sim: the world of the simulator (sim.go), Resolve (resolve.go), the
--                      records of the fleet (Fleet), the clock and the rotation in flight (Loop), the
--                      intervals that are merged (Intervals), the start of a rotation (Start, and
--                      next to the controller's in Start/Decision), the loop (Drive) and Run (Report)
--   Base               numbers, durations, texts and decimals
--   Examples           concrete inputs, and the theorems applied to them
--
-- Choices. A time.Duration is an int64 in nanoseconds whose sums wrap around; a time.Time is the
-- integer number of nanoseconds since the zero time, unbounded, and Sub clamps to an int64. An int
-- is 64 bits wide. Annotations are functions from keys to optional texts, so that a missing map is
-- the empty one. The texts of timestamps are Go's: TimeText holds Parse, Format and Duration.String
-- with the one law that a formatted instant parses back to its second. A pass reads the clock once.
-- A read through the cache is an argument (Cache), so that it may be as stale as it likes; a write
-- acts on the World, and `script` says whether it goes through, fails, or meets a lagging read, one
-- that may show nothing: the last attempt of RetryOnConflict. A call that fails has changed nothing, so that an update whose
-- answer is lost is not among the runs. A pass that re-enters a failed claim has a cache for each
-- turn, and a bound on the turns, of which two are enough. A NodePool's schedule stands in Resolved
-- by its verdict and its occurrence at this instant, and the headroom check by its answer, which
-- Surge/Sizing models. Conditions that only choose the text of a log line, an Event or a warning are
-- left out; the recorder's calls that count outcomes are effects of the World.
--
-- A NodePool's resourceVersion is a number that each write of it raises. A pass holds the pool with
-- the version that it read (PoolView), and `none` is a version that it knows to be old;
-- anchorRotation goes through only where the two are the same. What Kubernetes and Go's library
-- bring stands in records that the definitions take: Formats (time.ParseDuration,
-- time.LoadLocation), Selectors (label selectors), Zones (tzdata's rules), Quantities
-- (resource.Quantity, by the integer that it stands for) and the requests of a Pod. ResourceList is
-- a list of pairs, read by key. Names of placeholders are bytes.
--
-- A search of OccurrenceBounds takes the 10,080 steps of a minute that the source allows, and its
-- bisection 36 halvings, which take a minute down to a nanosecond; the weekly cycle is in natural
-- numbers of nanoseconds, since all of its terms are.
--
-- The simulator's loop takes the number of its steps, of which Run gives it maxSteps, the budget of
-- the source; where they run out the run is partial, as in the source. Its timeline holds the latest
-- event first, until Run sorts the events. The emitter of warnings answers each call with the lines
-- and the Events that it makes; a text stands for the values that it is rendered from, and the same
-- holds of a diagnostic of the simulator. The sweep of placeholders and the repair of pools act on a
-- Cluster of their own, with a script as in World. The status of a RotationPolicy takes Kubernetes'
-- SetStatusCondition and DeepEqual as parameters (Conditions), of which it uses that setting the
-- same condition again changes nothing and that a list of conditions equals itself.
--
-- Not modelled: the Prometheus collectors and the interface of the recorder, the preflight check,
-- the wire format of the simulator (internal/simapi), the generated code of the API types, and the
-- wiring of the manager. The calls that a pass makes of the recorder's gauges and of the emitter of
-- warnings have no effect on it and are left out of its model; Reconcile begins after the sweep of
-- the first pass.
pub mod Adapt
pub mod Annotations
pub mod Base
pub mod Controller
pub mod Decide
pub mod Examples
pub mod Governing
pub mod NodeOps
pub mod Policy
pub mod Schedule
pub mod Selection
pub mod Sim
pub mod Surge
pub mod Window

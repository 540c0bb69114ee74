-- ===== src/Lib.antt =====
-- GridLink: a coordinator places models and jobs on providers' machines, and a gateway routes
-- inference to them. This library models the coordinator, the gateway, and the agent: its side of
-- the stream, the life of the jobs and the models that it runs, the probes of its machine, and the
-- engine that serves a model.
--
-- An agent holds one gRPC stream to the coordinator. `registry` keeps a node for each agent, with
-- the stream to send on; `scheduler` keeps the jobs that an operator sent to a named node;
-- `deployments` keeps the models that should run, places each on a node, and answers the gateway
-- which replicas serve a model. Heartbeats and updates from the agents reach all three through
-- `server`, and two tickers call the registry's reaper and the deployments' reconciler. The
-- gateway's `router` caches the coordinator's answers, its `proxy` forwards an inference request to
-- a replica that the router picks, and its `usage` reporter sends what was used to the
-- coordinator, whose `store` keeps it. On the node, `client` starts a job in `runner` and a model in
-- `deploy`, and forwards their updates to the coordinator; `deploy` downloads the model, starts the
-- agent's own binary as the model's engine, and reads the port that the engine announces; `engine`
-- decodes tokens and streams them to the gateway with the counts that are billed; `gpu` and
-- `sysinfo` say at registration what the machine has.
--
--   Prelude, GoMap        Boolean tests, lists, times, results; Go's `map[string]V` as a list of
--                         entries with lookup laws and the rules for `range`
--   Proto                 contracts/proto/compute/v1/{common,agent}.proto
--   Wire                  the clock, a fresh id and the streams, as a handler finds them
--   Registry              coordinator/internal/registry/registry.go (`Upsert` is `upsert`, `Touch`
--                         is `touch`, and so on); its children prove the invariant of the table,
--                         what each call leaves behind, and how nodes lose their stream
--   Scheduler             coordinator/internal/scheduler/scheduler.go; children on dispatch, updates
--                         and the reconciliation with heartbeats
--   Deployments           coordinator/internal/deployments/deployments.go: State (records and
--                         constants), Selection (`selectNode`), Actions (`Create`, `place`,
--                         `Delete` as `remove`, `OnUpdate`, `OnHeartbeat`), Reconciler, Queries
--                         (`Resolve` and the lists); proofs in Selection.Eligibility, Exclusive,
--                         Creation, Placing, Orphans, Recovery, Queries.{Routing, Models} and Races
--   Server                coordinator/internal/server/server.go: Auth (`checkToken`), Agents (the
--                         parts of `Connect`), Admin (the admin and gateway services), Usage
--                         (`ReportUsage`, `GetUsageSummary`, over the interface `Store`), and
--                         System, in which all of it runs; proofs in System.{Invariant, Bound,
--                         Forks} and Usage.Window
--   Store                 coordinator/internal/store/{store,jsonl}.go; Lines (the file as a reader
--                         finds it), with proofs in Once.
--                         Migrations has `migrate` of store.go, with the database outside
--   Gateway               gateway/internal: Router (router/router.go), Usage (usage/usage.go) and
--                         Proxy (proxy/proxy.go), with their proofs below them, and EndToEnd, which
--                         puts the router over the coordinator
--   Agent                 agent/internal/client/client.go: Client (the tables, the session and its
--                         queue), Backoff, Identity (the node id's file and the turns of `Run`),
--                         Forward (`runJob`, `runDeployment`), and Lost, on an update that is
--                         dropped; Forward.Recorded follows a deployment's updates from Native by
--                         way of the session to Deployments
--   Engine                agent/internal/engine: Stops (`indexAnyStop` of engine.go), Wire, Server
--                         (server.go), Generate (the decode loop of llama_darwin.go); proofs in
--                         Server.{Reading, Agreement, Failure, Metering} and
--                         Generate.{Ending, Emission}; Billing joins the decode loop, the
--                         stream and the gateway's capture
--   Native                agent/internal/deploy: Life (`Start`, `run`), Port (`readEngineAddr`,
--                         `portOf`, and the line that cmd/agent/engine.go prints), Readiness
--                         (`waitReady`), Tail (`tailBuffer`) of native.go; Cache (`modelURL`,
--                         `cacheName`), Download (`downloadModel`), Progress (`progressWriter`) of
--                         download.go
--   Runner                agent/internal/runner/docker.go: Job (`Run`, `run`), Container (`create`),
--                         Pull (`pull`), Logs (`logCoalescer`)
--   Probe                 agent/internal/gpu/detect.go: Smi, Apple, Detect (`detect`, `utilization`,
--                         `cudaVersion`); agent/internal/sysinfo/sysinfo.go: Host
--   Bytes                 a Go string as its bytes, for headers and lines: Search (`strings.Index`),
--                         Fields (`TrimSpace`, `Split`), Decimal (numbers as they are printed),
--                         Utf8 (what `json.Marshal` makes of bytes that are no character)
--
-- A method that changes state takes the state and returns the new one, with its result and the
-- messages that it put on the wire. A pointer into a table is the entry under its key: a write
-- through it shows in the table while the entry is there. A method runs as one step and reads
-- the clock once; where the source lets go of a mutex in the middle, Races shows one overlap.
-- A time is a number of nanoseconds since Go's zero time; a comparison `now.Sub(t) > d` is
-- `t + d < now`, and the saturation of `Sub` after 292 years is not modelled. Go leaves the
-- order of `range` over a map open; here it is the order of the list of entries, and theorems
-- range over all lists.
--
-- What runs beside the code (a process, a download, a container, llama.cpp) is a record or a list
-- of what each call to it answers, in the order in which the code calls, and theorems range over
-- all of them. The life of a job or of a deployment is then the list of the updates and of the
-- calls on the process, as `run` makes them; `deploy` gives up an update that the client does not
-- take within a second, and here the client takes each in time. Loops run over lists, so no
-- definition takes fuel but two: the decode loop counts down from the limit on tokens, as the
-- source does, and the printing of a decimal takes the number and one more, which is more than its
-- digits.
--
-- Not modelled: the Postgres store's queries, which are SQL; the bindings to llama.cpp; Docker, gRPC,
-- HTTP, JSON and the log; the sandbox profile and the engine's command line; the gateway's dialer;
-- and the commands, which parse flags and wire the parts together. Whether a stream takes a message
-- is a parameter of `Wire.Env`, and so is the new id that `uuid.NewString` returns.
pub mod Prelude
pub mod GoMap
pub mod Proto
pub mod Wire
pub mod Agent
pub mod Bytes
pub mod Deployments
pub mod Engine
pub mod Gateway
pub mod Native
pub mod Probe
pub mod Registry
pub mod Runner
pub mod Scheduler
pub mod Server
pub mod Store

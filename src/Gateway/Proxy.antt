-- ===== src/Gateway/Proxy.antt =====
-- gateway/internal/proxy/proxy.go: the inference endpoint. The HTTP transport and the JSON decoder
-- are outside: what they yield is given with each call. Log lines and the texts of errors are left
-- out.
pub mod Retry
pub mod Status
pub mod Auth
pub mod Capture
pub mod Keys
use gridlink.Prelude.{
  ℕ, String, Bool, true, false, ◌||◌, List, [], ◌∷◌, Option, none, some, is_empty, contains,
  if◌then◌else◌, Result, ok, err, ℤ,
}
use gridlink.Deployments.Queries.{Route}
use gridlink.Server.Agents.{Code}
use gridlink.Gateway.Router
use gridlink.Gateway.Router.{
  RouteError, no_replicas, Router, Lookup, pick, pick_excluding, invalidate,
}
use gridlink.Gateway.Usage.{Record}

pub record TokenUsage : Type 0 where
  pub prompt_tokens : ℕ
  pub completion_tokens : ℕ

-- The `error.type` and the HTTP status of an answer that the gateway writes itself.
pub data Refusal : Type 0 where
  bad_request model_not_found unavailable bad_gateway : Refusal

abbrev pub status_of : Refusal → ℕ
status_of bad_request = 400
status_of model_not_found = 404
status_of unavailable = 503
status_of bad_gateway = 502

-- The client has an answer of the replica, or one of the gateway.
pub data Reply : Type 0 where
  answered : Route → Reply
  refused : Refusal → Reply

-- What `ReverseProxy` makes of one attempt: nothing was written and the replica was not reached, or
-- a response was begun, with the usage captured in it, if any, by the time `wait` returns.
pub data Attempt : Type 0 where
  unreachable : Attempt
  responded : Option TokenUsage → Attempt

-- `struct { Model; Stream }`
pub record Peek : Type 0 where
  pub model : String
  pub stream : Bool

-- One request and what the handler finds outside: the body, read and decoded, if it is well
-- formed; a fresh id; the id of the caller's key; the clock; the two attempts; and what the
-- coordinator answers to each of the calls.
pub record Request : Type 0 where
  pub peek : Option Peek
  pub request_id : String
  pub key_id : String
  pub now_ms : ℤ
  pub first_lookup : Lookup
  pub second_lookup : Lookup
  pub deployed : Result Code (List String)
  pub first_attempt : Route → Attempt
  pub second_attempt : Route → Attempt

-- What the handler leaves: the router, the answer, the replicas that were tried, in order, and the
-- records passed to `Usage.Report`.
pub record Outcome : Type 0 where
  pub router : Router
  pub reply : Reply
  pub tried : List Route
  pub reported : List Record

-- `routingError`
unfoldable pub routing_error : Router → Request → String → RouteError → Refusal
unfolding Router.list_models contains
routing_error r req model no_replicas = elim (Router.list_models r req.deployed) [
  | err _ ↦ model_not_found
  | ok names ↦ if contains model names then unavailable else model_not_found
]
routing_error r req model _ = unavailable

-- The record that `forward` reports when it captured a usage.
unfoldable pub records_of : Request → String → Route → Option TokenUsage → List Record
records_of req model rep none = []
records_of req model rep (some u) =
    record {
      request_id = req.request_id;
      model = model;
      node_id = rep.node_id;
      deployment_id = rep.deployment_id;
      api_key_id = req.key_id;
      prompt_tokens = u.prompt_tokens;
      completion_tokens = u.completion_tokens;
      timestamp_unix_ms = req.now_ms;
    }
    ∷ []

-- The second attempt, on a replica of another deployment.
unfoldable pub retry : Request → String → Route → Router → Outcome
unfolding records_of pick_excluding invalidate
retry req model first r =
    let (r', alt) =
      pick_excluding req.second_lookup (invalidate r model) model first.deployment_id in
    elim alt [
      | err _ ↦ record {
        router = r';
        reply = refused bad_gateway;
        tried = first ∷ [];
        reported = [];
      }
      | ok rep ↦ elim (req.second_attempt rep) [
        | unreachable ↦ record {
          router = r';
          reply = refused bad_gateway;
          tried = first ∷ rep ∷ [];
          reported = [];
        }
        | responded u ↦ record {
          router = r';
          reply = answered rep;
          tried = first ∷ rep ∷ [];
          reported = records_of req model rep u;
        }
      ]
    ]

-- `handleInference` for a request that names a model.
unfoldable pub infer : Request → String → Router → Outcome
unfolding retry records_of routing_error pick
infer req model r =
    let (r', picked) = pick req.first_lookup r model in
    elim picked [
      | err e ↦ record {
        router = r';
        reply = refused (routing_error r' req model e);
        tried = [];
        reported = [];
      }
      | ok rep ↦ elim (req.first_attempt rep) [
        | unreachable ↦ retry req model rep r'
        | responded u ↦ record {
          router = r';
          reply = answered rep;
          tried = rep ∷ [];
          reported = records_of req model rep u;
        }
      ]
    ]

-- The rest of `handleInference` with what was decoded of the body.
unfoldable pub handle_peek : Request → Router → Option Peek → Outcome
unfolding infer
handle_peek req r none = record {
  router = r;
  reply = refused bad_request;
  tried = [];
  reported = [];
}
handle_peek req r (some peek) =
    if is_empty peek.model
    then record { router = r; reply = refused bad_request; tried = []; reported = [] }
    else infer req peek.model r

unfoldable pub handle_inference : Request → Router → Outcome
unfolding handle_peek
handle_inference req r = handle_peek req r req.peek

-- `handleModels`: the names that it lists.
unfoldable pub handle_models : Router → Result Code (List String) → Result Refusal (List String)
unfolding Router.list_models
handle_models r deployed = elim (Router.list_models r deployed) [
  | err _ ↦ err unavailable
  | ok names ↦ ok names
]

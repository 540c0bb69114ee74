-- ===== src/Gateway/Tests.antt =====
-- The gateway on concrete requests.
use mathlib.Core.List.{Memᴰ}
use mathlib.Core.Path.{subst}
use gridlink.Prelude.{
  ℕ, String, true, false, ◌≡◌, ◌≢◌, ◌==◌, if◌then◌else◌, ◌↔◌, ◌⊎◌, ◌<◌, ◌+◌, ◌*◌, inl, inr, refl,
  sym, [], ◌∷◌, List, none, some, ok, err, second, collect, pos,
}
use gridlink.GoMap.{values, get, put}
use gridlink.Bytes.{Bytes}
use gridlink.Proto.{NodeStatus, DeploymentState, DeploymentSpec, Engine}
use gridlink.Registry.{Node}
use gridlink.Deployments.State.{Replica}
use gridlink.Deployments.Queries.{Route, resolve, candidates, candidate_of, routes, route_of}
use gridlink.Server.Agents.{Code, Tables}
use gridlink.Server.Admin
use gridlink.Server.Admin.{resolve_model}
use gridlink.Gateway.Router.{
  Lookup, cache_ttl, new, cached, some_ready, refreshed, refresh, replicas, index, choose, pick,
}
use gridlink.Gateway.Router.Freshness
use gridlink.Gateway.Router.Freshness.{History, IsCurrent, step, run}
use gridlink.Gateway.EndToEnd.{IsAnswered, AllAnswered, Serves, pick_serving}
use gridlink.Gateway.Usage
use gridlink.Gateway.Usage.{Record, Reporter, Phase, Event, new_reporter, queue_size}
use gridlink.Gateway.Usage.Conservation.{IsConserved, reported, run-IsConserved}
use gridlink.Gateway.Proxy.{unreachable, responded, Request, handle_inference}
use gridlink.Gateway.Proxy.Retry.{IsFair, handle_inference-IsFair}
use gridlink.Gateway.Proxy.Auth.{with_auth}
use gridlink.Gateway.Proxy.Keys.{keys_from_env, name_all, named, Offers, served-IsListed}
use gridlink.Bytes.Fields.{
  split, trim_space, trim_left, trim_right, keep, is_space, trim_left_from, space_at, wide_at,
  is_white,
}

abbrev mac : Node
mac = record {
  id = "mac";
  hostname = "studio";
  gpu = none;
  system = none;
  last_seen = 0;
  status = NodeStatus.online;
  data_plane_addr = "100.64.0.7";
  send = some 1;
}

abbrev spec : DeploymentSpec
spec = record {
  deployment_id = "d-1";
  served_model_name = "llama";
  min_vram_mb = 0;
  engine = Engine.container (record { model_ref = "meta/llama"; image = "vllm" });
}

abbrev serving : Replica
serving = record {
  deployment_id = "d-1";
  node_id = "mac";
  state = DeploymentState.ready;
  host_port = 8000;
  progress = 100;
  err_text = "";
  placed_at = 0;
  last_update = 0;
}

abbrev tables : Tables
tables = record {
  reg = record { nodes = ("mac", mac) ∷ [] };
  sched = record { jobs = [] };
  deploy = record {
    deploy = ("d-1", record { id = "d-1"; spec = spec; replica = some serving; avoid = [] }) ∷ [];
  };
}

abbrev on_mac : Route
on_mac = record { node_id = "mac"; deployment_id = "d-1"; host = "100.64.0.7"; port = 8000 }

abbrev on_pc : Route
on_pc = record { node_id = "pc"; deployment_id = "d-2"; host = "100.64.0.8"; port = 8001 }

-- A call at a second, answered at once.
abbrev ask : List Route → ℕ → Lookup
ask reps t = record { checked_at = t * second; answer = ok reps; answered_at = t * second }

-- A call that the coordinator does not answer.
abbrev unanswered : ℕ → Lookup
unanswered t = record {
  checked_at = t * second;
  answer = err Code.unavailable;
  answered_at = t * second;
}

abbrev history : History
history = (ask (on_mac ∷ []) 1, "llama", Freshness.picks) ∷ []

resolved : resolve_model tables "llama" ≡ ok (on_mac ∷ [])
unfolding resolve_model resolve candidates candidate_of routes route_of collect get values
resolved = refl

all_answered : AllAnswered (λ _. tables) history
all_answered l model c (Memᴰ.head e) =
    subst (λ x. IsAnswered (λ _. tables) x.0 x.1) (sym e) (inl (sym resolved))
all_answered l model c (Memᴰ.tail m) = elim m [ ]

-- The second pick is answered by the cache, the coordinator being out of reach.
pick_serving_example :
    (t : ℕ) × ((2 * second < t + cache_ttl) ⊎ (t ≡ 2 * second)) × Serves tables "llama" on_mac
unfolding pick run step choose replicas refresh cached some_ready refreshed index new get put
pick_serving_example =
    pick_serving (λ _. tables) history true (unanswered 2) "llama" on_mac all_answered
      (inr (_, refl)) refl

abbrev used : String → Record
used id = record {
  request_id = id;
  model = "llama";
  node_id = "mac";
  deployment_id = "d-1";
  api_key_id = "key-0";
  prompt_tokens = 12;
  completion_tokens = 30;
  timestamp_unix_ms = pos 5;
}

abbrev events : List Event
events =
    Usage.reports (used "req-1")
    ∷ Usage.reports (used "req-2")
    ∷ Usage.drains
    ∷ Usage.closes
    ∷ Usage.stops
    ∷ Usage.drains
    ∷ Usage.drains
    ∷ Usage.reports (used "req-3")
    ∷ []

run-IsConserved_example : IsConserved (reported events) (Usage.run (new_reporter true) events)
run-IsConserved_example = run-IsConserved events

abbrev waiting : Phase → Reporter
waiting phase = record {
  connected = true;
  ch = used "req-1" ∷ [];
  stopped = false;
  phase = phase;
  dropped = 3;
  sent = [];
}

-- The first replica is not reached, the second answers.
abbrev request : Request
request = record {
  peek = some (record { model = "llama"; stream = true });
  request_id = "req-1";
  key_id = "key-0";
  now_ms = pos 5;
  first_lookup = ask (on_mac ∷ on_pc ∷ []) 1;
  second_lookup = ask (on_mac ∷ on_pc ∷ []) 1;
  deployed = ok (Admin.list_models tables true);
  first_attempt = λ _. unreachable;
  second_attempt = λ _. responded (some (record { prompt_tokens = 12; completion_tokens = 30 }));
}

handle_inference-IsFair_example : IsFair request (handle_inference request (new true))
handle_inference-IsFair_example = handle_inference-IsFair request (new true)

-- `bearer k` with the key `k`.
abbrev header : Bytes
header = 98 ∷ 101 ∷ 97 ∷ 114 ∷ 101 ∷ 114 ∷ 32 ∷ 107 ∷ []

-- `k, j`
abbrev api_keys : Bytes
api_keys = 107 ∷ 44 ∷ 32 ∷ 106 ∷ []

abbrev key_id : ℕ → String
key_id n = if n == 0 then "key-0" else "key-1"

has_keys : keys_from_env key_id api_keys ≢ []
unfolding keys_from_env name_all named split trim_space trim_left trim_left_from space_at wide_at
    trim_right keep is_white is_space
has_keys e = absurd (cc)

served-IsListed_example :
    ((id : String) × (with_auth (keys_from_env key_id api_keys) header ≡ ok id))
    ↔ Offers key_id api_keys header
served-IsListed_example = served-IsListed key_id api_keys header has_keys

abbrev stream : List Bytes
stream =
    (100 ∷ 97 ∷ 116 ∷ 97 ∷ 58 ∷ 32 ∷ 49 ∷ [])
    ∷ []
    ∷ (100 ∷ 97 ∷ 116 ∷ 97 ∷ 58 ∷ 32 ∷ 91 ∷ 68 ∷ 79 ∷ 78 ∷ 69 ∷ 93 ∷ [])
    ∷ []

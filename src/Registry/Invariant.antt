-- ===== src/Registry/Invariant.antt =====
-- What holds of the registry between two calls, and what `Upsert` and `Touch` leave in it.
use mathlib.Core.Path.{subst}
use gridlink.Prelude.{
  some_inj, sym, ◌∙◌, String, ◌≡◌, ◌≢◌, none, some, List, [], ◌∷◌, Time, Duration, arith,
  String-cases, Option-cases, inl, inr,
}
use gridlink.GoMap.{get, put, Distinct}
use gridlink.GoMap.Laws.{get-put, put-Distinct, get-map_values, map_values-Distinct}
use gridlink.Proto.{NodeStatus, Register, Heartbeat}
use gridlink.Wire.{Env, Stream}
use gridlink.Registry.{
  Node, Registry, new, node_id_of, upsert, beat, touch, disconnect, mark_disconnected, reap_node,
  reap,
}

-- Of one entry: it carries its key, it has been online, and it has no stream while offline.
pub record IsEntry (k : String) (n : Node) : Type 0 where
  pub keyed : n.id ≡ k
  pub known : n.status ≢ NodeStatus.unspecified
  pub detached : n.status ≡ NodeStatus.offline → n.send ≡ none

pub record IsValid (r : Registry) : Type 0 where
  pub distinct : Distinct r.nodes
  pub entries : (k : String) (n : Node) → get k r.nodes ≡ some n → IsEntry k n

-- One call of a method that writes, as the rest of the coordinator makes it.
pub data Call : Type 0 where
  upserts : Register → Stream → Call
  touches : String → Heartbeat → Call
  disconnects : String → Call
  reaps : Duration → Call

unfoldable pub step : Registry → Env × Call → Registry
step r (env, upserts reg send) = (upsert env r reg send).0
step r (env, touches id hb) = touch env r id hb
step r (env, disconnects id) = mark_disconnected r id
step r (env, reaps interval) = reap env.now interval r

unfoldable pub run : Registry → List (Env × Call) → Registry
run r [] = r
run r (c ∷ cs) = run (step r c) cs

pub new-IsValid : IsValid new
unfolding new get
new-IsValid = record { distinct = tt; entries = λ k n e. absurd (ground arith) }

-- Writing one good entry keeps the table valid.
put-IsValid :
    (r : Registry) (k : String) (n : Node)
    → IsValid r
    → IsEntry k n
    → IsValid (record r { nodes = put k n r.nodes })
put-IsValid r k n v e = record {
  distinct = put-Distinct k n r.nodes v.distinct;
  entries = λ j m h. elim (String-cases k j) [
    | inl (p, t) ↦ ground (arith, get-put k j n r.nodes)
    | inr (p, f) ↦ v.entries j m (ground (arith, get-put k j n r.nodes))
  ];
}

pub upsert-IsValid :
    (env : Env) (r : Registry) (reg : Register) (send : Stream)
    → IsValid r
    → IsValid (upsert env r reg send).0
unfolding upsert
upsert-IsValid env r reg send v =
    put-IsValid r (node_id_of env reg) _ v (elim (Option-cases (get (node_id_of env reg) r.nodes)) [
      | inl e ↦ rw e (ground arith)
      | inr (n, e) ↦ rw e (ground (arith, (v.entries _ n e).keyed))
    ])

pub touch-IsValid :
    (env : Env) (r : Registry) (id : String) (hb : Heartbeat)
    → IsValid r
    → IsValid (touch env r id hb)
unfolding touch
touch-IsValid env r id hb v = elim (Option-cases (get id r.nodes)) [
  | inl e ↦ rw (e, touch) v
  | inr (n, e) ↦
      rw (e, touch) (put-IsValid r id (beat env.now hb n) v (ground (arith, v.entries id n e)))
]

pub mark_disconnected-IsValid :
    (r : Registry) (id : String) → IsValid r → IsValid (mark_disconnected r id)
unfolding mark_disconnected
mark_disconnected-IsValid r id v = elim (Option-cases (get id r.nodes)) [
  | inl e ↦ rw (e, mark_disconnected) v
  | inr (n, e) ↦
      rw (e, mark_disconnected)
        (put-IsValid r id (disconnect n) v (ground (arith, v.entries id n e)))
]

reap_node-IsEntry :
    (now : Time) (i : Duration) (k : String) (n : Node)
    → IsEntry k n
    → IsEntry k (reap_node now i n)
unfolding reap_node
reap_node-IsEntry now i k n e = ground arith

-- What `reap` leaves under a key.
pub get-reap :
    (now : Time) (i : Duration) (r : Registry) (k : String) (n : Node)
    → get k r.nodes ≡ some n
    → get k (reap now i r).nodes ≡ some (reap_node now i n)
unfolding reap
get-reap now i r k n e = ground (arith, get-map_values (reap_node now i) k r.nodes)

pub reap-IsValid : (now : Time) (i : Duration) (r : Registry) → IsValid r → IsValid (reap now i r)
unfolding reap
reap-IsValid now i r v = record {
  distinct = map_values-Distinct (reap_node now i) r.nodes v.distinct;
  entries = λ k m h. elim (Option-cases (get k r.nodes)) [
    | inl e ↦ absurd (ground (arith, get-map_values (reap_node now i) k r.nodes))
    | inr (n, e) ↦
        subst (IsEntry k) (some_inj (sym (get-reap now i r k n e) ∙ h))
          (reap_node-IsEntry now i k n (v.entries k n e))
  ];
}

step-IsValid : (r : Registry) (c : Env × Call) → IsValid r → IsValid (step r c)
unfolding step
step-IsValid r (env, upserts reg send) v = upsert-IsValid env r reg send v
step-IsValid r (env, touches id hb) v = touch-IsValid env r id hb v
step-IsValid r (env, disconnects id) v = mark_disconnected-IsValid r id v
step-IsValid r (env, reaps interval) v = reap-IsValid env.now interval r v

run_from-IsValid : (r : Registry) (cs : List (Env × Call)) → IsValid r → IsValid (run r cs)
unfolding run
run_from-IsValid r [] v = v
run_from-IsValid r (c ∷ cs) v = run_from-IsValid (step r c) cs (step-IsValid r c v)

-- After any sequence of registrations, heartbeats, disconnections and reaper ticks the table has no
-- key twice, every entry carries its key as its node id, every entry has been online at least
-- once, and no OFFLINE entry keeps a stream.
pub run-IsValid : (cs : List (Env × Call)) → IsValid (run new cs)
run-IsValid cs = run_from-IsValid new cs new-IsValid

-- ===== src/Deployments/Orphans/Stops.antt =====
-- The stop messages of `OnHeartbeat`.
use mathlib.Core.List.{Memᴰ}
use gridlink.Prelude.{
  String, true, false, ◌≡◌, inl, inr, refl, sym, ap, ◌∙◌, List, [], ◌∷◌, some, contains, Bool-cases,
  Option-cases, mem-cons_split, mem-append_left, mem-append_right, mem-append_split,
}
use gridlink.GoMap.{values}
use gridlink.Proto.{CoordinatorMessage}
use gridlink.Wire.{Env, Stream, Sent}
use gridlink.Registry.{Node, Registry, get_node}
use gridlink.Deployments.State.{Manager}
use gridlink.Deployments.Actions.{send_stop, wanted_on, stop_orphans, on_heartbeat}
use gridlink.Deployments.Exclusive.{IsValid}
use gridlink.Deployments.Orphans.{IsWanted, stop_sent, send_stop_sent, IsWanted-exact}

-- The message goes down the node's own stream.
abbrev pub IsStopTo : Registry → String → String → Sent → Type 0
IsStopTo reg node id x =
    (n : Node) × (s : Stream) × (get_node reg node ≡ some n)
    × (n.send ≡ some s)
    × (x ≡ stop_sent s id)

send_stop_only :
    (env : Env) (reg : Registry) (node id : String) (x : Sent)
    → Memᴰ x (send_stop env reg node id)
    → IsStopTo reg node id x
unfolding send_stop
send_stop_only env reg node id x h = elim (Option-cases (get_node reg node)) [
  | inl e ↦ absurd (elim (rw (e, send_stop) at h) [ ])
  | inr (n, e) ↦ elim (Option-cases n.send) [
    | inl c ↦ absurd (elim (rw c at (rw (e, send_stop) at h)) [ ])
    | inr (s, c) ↦ elim (Bool-cases (env.sends s (CoordinatorMessage.stop_deployment id))) [
      | inl t ↦ elim (mem-cons_split (rw (send_stop_sent env reg node id n s e c t) at h)) [
        | inl p ↦ (n, s, e, c, p)
        | inr m ↦ absurd (elim m [ ])
      ]
      | inr t ↦ absurd (elim (rw t at (rw c at (rw (e, send_stop) at h))) [ ])
    ]
  ]
]

stop_orphans_only :
    (env : Env) (reg : Registry) (node : String) (wanted ids : List String) (x : Sent)
    → Memᴰ x (stop_orphans env reg node wanted ids)
    → (id : String) × Memᴰ id ids × (contains id wanted ≡ false) × IsStopTo reg node id x
unfolding stop_orphans
stop_orphans_only env reg node wanted [] x h = elim h [ ]
stop_orphans_only env reg node wanted (i ∷ ids) x h = elim (Bool-cases (contains i wanted)) [
  | inl e ↦
      let (id, at, w, to) =
        stop_orphans_only env reg node wanted ids x (rw (e, stop_orphans) at h) in
      (id, Memᴰ.tail at, w, to)
  | inr e ↦
      elim (mem-append_split x (send_stop env reg node i) (stop_orphans env reg node wanted ids)
        (rw (e, stop_orphans) at h)) [
          | inl m ↦ (i, Memᴰ.head refl, e, send_stop_only env reg node i x m)
          | inr m ↦
              let (id, at, w, to) = stop_orphans_only env reg node wanted ids x m in
              (id, Memᴰ.tail at, w, to)
        ]
]

stop_orphans_all :
    (env : Env) (reg : Registry) (node : String) (wanted ids : List String) (id : String) (x : Sent)
    → Memᴰ id ids
    → contains id wanted ≡ false
    → send_stop env reg node id ≡ x ∷ []
    → Memᴰ x (stop_orphans env reg node wanted ids)
unfolding stop_orphans
stop_orphans_all env reg node wanted [] id x h w e = elim h [ ]
stop_orphans_all env reg node wanted (i ∷ ids) id x (Memᴰ.head p) w e =
    let f : contains i wanted ≡ false = ap (λ j. contains j wanted) (sym p) ∙ w in
    rw (f, stop_orphans)
      (mem-append_left x (send_stop env reg node i) (stop_orphans env reg node wanted ids)
        (rw (ap (send_stop env reg node) (sym p) ∙ e) (Memᴰ.head refl)))
stop_orphans_all env reg node wanted (i ∷ ids) id x (Memᴰ.tail h) w e =
    let rest = stop_orphans_all env reg node wanted ids id x h w e in
    elim (Bool-cases (contains i wanted)) [
      | inl f ↦ rw (f, stop_orphans) rest
      | inr f ↦
          rw (f, stop_orphans)
            (mem-append_right x (send_stop env reg node i) (stop_orphans env reg node wanted ids)
              rest)
    ]

-- A heartbeat sends nothing but stop messages down the stream of its node, each for a deployment
-- that the heartbeat lists and that the table does not have on that node.
pub on_heartbeat_stops_only :
    (env : Env) (reg : Registry) (m : Manager) (node : String) (active : List String) (x : Sent)
    → IsValid m
    → Memᴰ x (on_heartbeat env reg m node active).1
    → (id : String) × Memᴰ id active × (¬ IsWanted m node id) × IsStopTo reg node id x
unfolding on_heartbeat
on_heartbeat_stops_only env reg m node active x v h =
    let wanted = wanted_on node (values m.deploy) in
    let (id, at, w, to) = stop_orphans_only env reg node wanted active x h in
    (id, at, λ y. unwanted id w ((IsWanted-exact m node id v).1 y), to)
  where
    unwanted :
        (id : String)
        → contains id (wanted_on node (values m.deploy)) ≡ false
        → contains id (wanted_on node (values m.deploy)) ≡ true
        → ⊥
    unwanted id f t = cc

-- Every deployment that the heartbeat lists and that the table does not have on that node is told to
-- stop, if the node has a stream that takes the message.
pub on_heartbeat_stops_all :
    (env : Env) (reg : Registry) (m : Manager) (node : String) (active : List String) (id : String)
    (n : Node) (s : Stream)
    → IsValid m
    → Memᴰ id active
    → ¬ IsWanted m node id
    → get_node reg node ≡ some n
    → n.send ≡ some s
    → env.sends s (CoordinatorMessage.stop_deployment id) ≡ true
    → Memᴰ (stop_sent s id) (on_heartbeat env reg m node active).1
unfolding on_heartbeat
on_heartbeat_stops_all env reg m node active id n s v at w known live t =
    stop_orphans_all env reg node (wanted_on node (values m.deploy)) active id (stop_sent s id) at
      (elim (Bool-cases (contains id (wanted_on node (values m.deploy)))) [
        | inl e ↦ absurd (w ((IsWanted-exact m node id v).0 e))
        | inr e ↦ e
      ])
      (send_stop_sent env reg node id n s known live t)

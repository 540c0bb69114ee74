-- ===== src/Server/System/Bound/Steps.antt =====
-- The steps of coordinator/internal/server/server.go and the streams that the registry holds.
use gridlink.Prelude.{
  String, ◌≡◌, sym, List, [], ◌∷◌, none, inl, inr, Bool-cases, Option-cases, arith,
}
use gridlink.GoMap.{get}
use gridlink.Proto.{AgentMessage, CoordinatorMessage}
use gridlink.Wire.{Env, Stream}
use gridlink.Registry.{new, node_id_of, upsert}
use gridlink.Server.Agents.{Tables, heartbeat_interval_s, open_session, handle, close_session}
use gridlink.Server.System
use gridlink.Server.System.{
  System, Sessions, Event, start, session_of, end_session, enter, connect, receive, end_stream,
  step, run,
}
use gridlink.Server.System.Bound.{
  IsBound, upsert-IsBound, touch-IsBound, reap-IsBound, session-end_other, session-cons_self,
  session-cons_other, open-IsBound, leave-IsBound,
}

-- The registry of the system holds streams of open sessions only.
abbrev pub IsAttached : System → Type 0
IsAttached c = IsBound c.sessions c.tables.reg

-- The message is not a `Register`.
abbrev pub IsOrdinary : AgentMessage → Type 0
IsOrdinary (AgentMessage.register _) = ⊥
IsOrdinary _ = Unit

-- The event is not a `Register` on a stream that is open.
abbrev pub IsOnce : Event → Type 0
IsOnce (System.receives s m) = IsOrdinary m
IsOnce _ = Unit

abbrev pub NoReregister : List (Env × Event) → Type 0
NoReregister [] = Unit
NoReregister ((env, e) ∷ es) = IsOnce e × NoReregister es

enter-IsAttached :
    (env : Env) (s : Stream) (m : AgentMessage) (c : System)
    → IsAttached c
    → session_of s c.sessions ≡ none
    → IsAttached (enter s c (open_session env s c.tables m).0 (open_session env s c.tables m).1)
unfolding open_session enter node_id_of upsert
enter-IsAttached env s (AgentMessage.register reg) c b e =
    let id = (upsert env c.tables.reg reg s).1 in
    let ss = (s, id) ∷ c.sessions in
    let bound =
      upsert-IsBound ss env c.tables.reg reg s (open-IsBound s id c.sessions c.tables.reg b e)
        (session-cons_self s id c.sessions) in
    elim (Bool-cases (env.sends s (CoordinatorMessage.register_ack id heartbeat_interval_s))) [
      | inl t ↦ rw t bound
      | inr f ↦ rw f (
          leave-IsBound s id ss c.sessions _ bound (session-cons_self s id c.sessions)
            (λ t p. sym (session-cons_other s t id c.sessions p)))
    ]
enter-IsAttached env s (AgentMessage.heartbeat _) c b e = b
enter-IsAttached env s (AgentMessage.job_update _) c b e = b
enter-IsAttached env s (AgentMessage.deployment_update _) c b e = b
enter-IsAttached env s AgentMessage.unset c b e = b

connect-IsAttached :
    (env : Env) (s : Stream) (m : AgentMessage) (c : System)
    → IsAttached c
    → IsAttached (connect env s m c).0
unfolding connect
connect-IsAttached env s m c b = elim (Option-cases (session_of s c.sessions)) [
  | inr (x, e) ↦ rw (e, connect) b
  | inl e ↦ rw (e, connect) (enter-IsAttached env s m c b e)
]

handle-IsBound :
    (env : Env) (s : Stream) (id : String) (ss : Sessions) (t : Tables) (m : AgentMessage)
    → IsOrdinary m
    → IsBound ss t.reg
    → IsBound ss (handle env s id t m).0.reg
unfolding handle
handle-IsBound env s id ss t (AgentMessage.register reg) h b = absurd h
handle-IsBound env s id ss t (AgentMessage.heartbeat hb) h b = touch-IsBound ss env t.reg id hb b
handle-IsBound env s id ss t (AgentMessage.job_update _) h b = b
handle-IsBound env s id ss t (AgentMessage.deployment_update _) h b = b
handle-IsBound env s id ss t AgentMessage.unset h b = b

receive-IsAttached :
    (env : Env) (s : Stream) (m : AgentMessage) (c : System)
    → IsOrdinary m
    → IsAttached c
    → IsAttached (receive env s m c).0
unfolding receive
receive-IsAttached env s m c h b = elim (Option-cases (session_of s c.sessions)) [
  | inl e ↦ rw (e, receive) b
  | inr (id, e) ↦ rw (e, receive) (handle-IsBound env s id c.sessions c.tables m h b)
]

end_stream-IsAttached : (s : Stream) (c : System) → IsAttached c → IsAttached (end_stream s c)
unfolding end_stream close_session
end_stream-IsAttached s c b = elim (Option-cases (session_of s c.sessions)) [
  | inl e ↦ rw (e, end_stream) b
  | inr (id, e) ↦
      rw (e, end_stream)
        (leave-IsBound s id c.sessions (end_session s c.sessions) c.tables.reg b e
          (λ t p. session-end_other s t c.sessions p))
]

step-IsAttached :
    (c : System) (env : Env) (e : Event) → IsOnce e → IsAttached c → IsAttached (step c (env, e)).0
unfolding step
step-IsAttached c env (System.connects s m) h b = connect-IsAttached env s m c b
step-IsAttached c env (System.receives s m) h b = receive-IsAttached env s m c h b
step-IsAttached c env (System.ends s) h b = end_stream-IsAttached s c b
step-IsAttached c env (System.runs_job _ _) h b = b
step-IsAttached c env (System.creates _ _) h b = b
step-IsAttached c env (System.deletes _) h b = b
step-IsAttached c env System.reaps h b = reap-IsBound c.sessions env.now _ c.tables.reg b
step-IsAttached c env System.reconciles h b = b

run_from-IsAttached :
    (c : System) (es : List (Env × Event)) → NoReregister es → IsAttached c → IsAttached (run c es)
unfolding run
run_from-IsAttached c [] h b = b
run_from-IsAttached c ((env, e) ∷ es) h b =
    run_from-IsAttached (step c (env, e)).0 es h.1 (step-IsAttached c env e h.0 b)

-- As long as no agent sends a `Register` on a stream that is open, the registry never holds a
-- stream but that of an open session, under the id which that session has.
pub run-IsAttached : (es : List (Env × Event)) → NoReregister es → IsAttached (run start es)
unfolding start get new
run-IsAttached es h = run_from-IsAttached start es h (λ k n s e q. absurd (ground arith))

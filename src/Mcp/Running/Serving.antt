-- ===== src/Mcp/Running/Serving.antt =====
-- The loop of `Run`: every request is answered, in order.
use bhyve_mcp.Common.{
  state_after, negsuc, String, ◌<>◌, ◌≡◌, ◌≢◌, refl, sym, subst, ◌∙◌, none, some, List, [], ◌∷◌,
  ◌++◌, map, All, arith, Outcome, done, fail, deadlock, ok, err, Yields, ◌⊎◌, inl, inr,
}
use mathlib.Core.List.{append-nil, append_assoc}
use bhyve_mcp.Host.{History, Reply, good}
use bhyve_mcp.Vm.Invariant.{WellFormed}
use bhyve_mcp.Mcp.Types.{Env, Server, ServerWorld, Answer}
use bhyve_mcp.Mcp.Dispatch.{Method, method_of, handle, handle_request}
use bhyve_mcp.Mcp.Present.{IsWhole, Leaves-after, handle-IsWhole}
use bhyve_mcp.Mcp.Requests.{handle-ServerSettles, handle-Hangs}
use bhyve_mcp.Mcp.Settling.MachineRequests.{Hangs}
use bhyve_mcp.Mcp.Running.{
  Request, Response, Input, request, Session, ended, respond, reply_to, answer, serve, run, started,
  ending, initialize,
}
use bhyve_mcp.Mcp.Running.Initializing.{initialize-WellFormed}

-- The response to a request says what `HandleRequest` gave: its answer as the result, or the text of
-- its error with the one code.
abbrev pub Answered : {V I : Type 0} → Outcome (ServerWorld V) Answer → Response I → Type 0
Answered (done answer w) r = (r.result ≡ some answer) × (r.problem ≡ none)
Answered (fail x w) r =
    (r.result ≡ none) × (r.problem ≡ some (record { code = negsuc 31999; message = x }))
Answered deadlock r = ⊥

-- The responses answer the requests, one for one and in their order, and each request meets the server
-- as the one before it has left it.
abbrev pub Answers :
    {V P I : Type 0} → Env V P → ServerWorld V → List (Request I P) → List (Response I) → Type 0
Answers e w [] [] = Unit
Answers e w (q ∷ qs) (r ∷ rs) =
    let o = handle_request e q.method q.params w in
    (r.jsonrpc ≡ "2.0")
    × (r.id ≡ q.id)
    × Answered o r
    × ((u : ServerWorld _) × (state_after o ≡ some u) × Answers e u qs rs)
Answers e w _ _ = ⊥

-- Not the method that may hang.
abbrev pub IsQuiet : {I P : Type 0} → Request I P → Type 0
IsQuiet r = method_of r.method ≢ Method.vm_destroy

Hangs-destroys :
    {V P : Type 0} (e : Env V P) (m : Method) (params : P) (w : ServerWorld V)
    → Hangs e m params w
    → m ≡ Method.vm_destroy
Hangs-destroys e Method.vm_destroy params w d = refl
Hangs-destroys e Method.vm_create params w d = absurd d
Hangs-destroys e Method.vm_start params w d = absurd d
Hangs-destroys e Method.vm_stop params w d = absurd d
Hangs-destroys e Method.vm_state params w d = absurd d
Hangs-destroys e Method.vm_list params w d = absurd d
Hangs-destroys e Method.vm_status params w d = absurd d
Hangs-destroys e Method.disk_create params w d = absurd d
Hangs-destroys e Method.disk_delete params w d = absurd d
Hangs-destroys e Method.disk_resize params w d = absurd d
Hangs-destroys e Method.disk_clone params w d = absurd d
Hangs-destroys e Method.disk_list params w d = absurd d
Hangs-destroys e Method.iso_list params w d = absurd d
Hangs-destroys e Method.iso_delete params w d = absurd d
Hangs-destroys e Method.template_list params w d = absurd d
Hangs-destroys e Method.switch_list params w d = absurd d
Hangs-destroys e Method.switch_create params w d = absurd d
Hangs-destroys e Method.switch_delete params w d = absurd d
Hangs-destroys e Method.host_info params w d = absurd d
Hangs-destroys e Method.unknown params w d = absurd d

module _ {V P I : Type 0} (e : Env V P)
    (write : List (Response I) → Response I → Reply (Unit {0})) where
  module _ (accepts : (sent : List (Response I)) (r : Response I) → write sent r ≡ good tt) where
    -- One turn of the loop writes one response.
    reply_to-Answered :
        (id : I) (o : Outcome (ServerWorld V) Answer) (u : ServerWorld V) (s : Session V I)
        → state_after o ≡ some u
        → (r : Response I) × (reply_to e write id (λ _. o) s
            ≡ done tt (record { world = u; sent = s.sent ++ (r ∷ []) }))
          × (r.jsonrpc ≡ "2.0")
          × (r.id ≡ id)
          × Answered o r
    reply_to-Answered id (done a w) u s f = (
      respond id (ok a),
      ground (arith, accepts s.sent (respond id (ok a))),
      refl,
      refl,
      (refl, refl),
    )
    reply_to-Answered id (fail x w) u s f = (
      respond id (err x),
      ground (arith, accepts s.sent (respond id (err x))),
      refl,
      refl,
      (refl, refl),
    )
    reply_to-Answered id deadlock u s f = cc

    answer-Answered :
        (q : Request I P) (u : ServerWorld V) (s : Session V I)
        → state_after (handle_request e q.method q.params s.world) ≡ some u
        → (r : Response I) × (answer e write q s
            ≡ done tt (record { world = u; sent = s.sent ++ (r ∷ []) }))
          × (r.jsonrpc ≡ "2.0")
          × (r.id ≡ q.id)
          × Answered (handle_request e q.method q.params s.world) r
    unfolding answer
    answer-Answered q u s f =
        reply_to-Answered q.id (handle_request e q.method q.params s.world) u s f

    handle_request-kept :
        (q : Request I P) (w : ServerWorld V)
        → WellFormed w.server.vm_manager
        → IsWhole w.server
        → IsQuiet q
        → (u : ServerWorld V) × (state_after (handle_request e q.method q.params w) ≡ some u)
          × WellFormed u.server.vm_manager
          × IsWhole u.server
    unfolding handle_request
    handle_request-kept q w wf whole n =
        let m = method_of q.method in
        let (u, f, wu) =
          handle-ServerSettles e m q.method q.params w wf whole
            (λ d. n (Hangs-destroys e m q.params w d)) in
        (
          u,
          f,
          wu,
          Leaves-after (λ (t : ServerWorld V). IsWhole t.server) (handle e m q.method q.params w) u
              f (handle-IsWhole e w whole m q.method q.params wf),
        )

    -- The loop over requests none of which is to destroy a machine comes back with no error, once the
    -- input ends, and has answered each request.
    serve-Answers :
        (qs : List (Request I P)) (s : Session V I)
        → WellFormed s.world.server.vm_manager
        → IsWhole s.world.server
        → All IsQuiet qs
        → (t : Session V I) × (new : List (Response I)) × (serve e write (map request qs) s
            ≡ done tt t)
          × (t.sent ≡ s.sent ++ new)
          × Answers e s.world qs new
    unfolding serve
    serve-Answers [] s wf whole quiet = (s, [], refl, sym (append-nil s.sent), tt)
    serve-Answers (q ∷ qs) s wf whole (n, quiet) =
        let (u, f, wu, hu) = handle_request-kept q s.world wf whole n in
        let (r, g, v, i, a) = answer-Answered q u s f in
        let next : Session V I = record { world = u; sent = s.sent ++ (r ∷ []) } in
        let (t, new, k, l, b) = serve-Answers qs next wu hu quiet in
        (
          t,
          r ∷ new,
          ground (arith, g, k),
          l ∙ append_assoc s.sent (r ∷ []) new,
          (v, i, a, (u, f, b)),
        )

    started-Answers :
        (o : Outcome History (Server V)) (qs : List (Request I P))
        → Yields (λ (v : Server V). WellFormed v.vm_manager) o
        → ((v : Server V) (now : History) → o ≡ done v now → IsWhole v)
        → All IsQuiet qs
        → ((x : String) × (past : History) × (o ≡ fail x past)
            × (started e write o (map request qs)
                ≡ ended (some ("failed to initialize: " <> x)) [] past))
          ⊎ ((v : Server V) × (past now : History) × (sent : List (Response I)) × (o ≡ done v past)
              × (started e write o (map request qs) ≡ ended none sent now)
              × Answers e (record { server = v; history = past }) qs sent)
    unfolding started ending
    started-Answers (done v past) qs wf whole quiet =
        let s : Session V I = record { world = record { server = v; history = past }; sent = [] } in
        let (t, new, f, g, a) = serve-Answers qs s wf (whole v past refl) quiet in
        inr (
          v,
          past,
          t.world.history,
          t.sent,
          refl,
          rw f refl,
          subst (Answers e s.world qs) (sym g) a,
        )
    started-Answers (fail x past) qs wf whole quiet = inl (x, past, refl, refl)
    started-Answers deadlock qs wf whole quiet = absurd wf

    -- `Run`, on an output that takes every response, on requests none of which is to destroy a machine,
    -- and when `Initialize` reads no null as a map or as a record, comes to an end when the input does:
    -- it reports the error of `Initialize` with nothing written, or it has no error and has written one
    -- response for each request, in order, with the id of the request and what `HandleRequest` gave for
    -- it: its answer as the result, or its error with the code -32000. Each request meets the server as
    -- the one before it has left it.
    pub run-Answers :
        (qs : List (Request I P)) (past : History)
        → ((v : Server V) (now : History) → initialize e past ≡ done v now → IsWhole v)
        → All IsQuiet qs
        → ((x : String) × (now : History) × (initialize e past ≡ fail x now)
            × (run e write (map request qs) past
                ≡ ended (some ("failed to initialize: " <> x)) [] now))
          ⊎ ((v : Server V) × (start now : History) × (sent : List (Response I)) × (initialize e
                  past
                ≡ done v start)
              × (run e write (map request qs) past ≡ ended none sent now)
              × Answers e (record { server = v; history = start }) qs sent)
    unfolding run
    run-Answers qs past whole quiet =
        started-Answers (initialize e past) qs (initialize-WellFormed e past) whole quiet

  -- On well-formed machines, a request to destroy a machine that runs is never answered, and neither
  -- is any request after it: the loop does not come back.
  pub serve-Hangs :
      (r : Request I P) (rest : List (Input I P)) (s : Session V I)
      → WellFormed s.world.server.vm_manager
      → Hangs e (method_of r.method) r.params s.world
      → serve e write (request r ∷ rest) s ≡ deadlock
  unfolding serve answer handle_request handle
  serve-Hangs r rest s wf d =
      let o = handle-Hangs e (method_of r.method) r.method r.params s.world wf d in
      ground (arith, o)

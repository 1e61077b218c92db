-- ===== src/Mcp/Running.antt =====
-- The methods Initialize and Run.
pub mod Initializing
pub mod Serving
use bhyve_mcp.Common.{
  ℤ, negsuc, String, ◌<>◌, Option, none, some, List, [], ◌∷◌, ◌++◌, Exec, Outcome, done, fail,
  deadlock, Result, ok, err, pure, throw, gets, put, attempt, context, zoom, ◌>>=◌, ◌>>◌,
}
use bhyve_mcp.Host.{Host, History, Reply, good, bad}
use bhyve_mcp.Config.{Config, default_config}
use bhyve_mcp.Store.{Store, StoreWorld, new_store}
use bhyve_mcp.Store.Records.{new_iso_store, new_template_store}
use bhyve_mcp.Vm.Types.{Manager, World, new_manager}
use bhyve_mcp.Vm.Loading.{load_all_vms}
use bhyve_mcp.Mcp.Types.{Env, Server, ServerWorld, Answer}
use bhyve_mcp.Mcp.Dispatch.{handle_request}

-- The machines are loaded into a new manager; an error is only logged.
loaded : Outcome World (Unit {0}) → Outcome History Manager
loaded (done _ w) = done w.manager w.history
loaded (fail _ w) = done w.manager w.history
loaded deadlock = deadlock

-- A step on the state store, which comes back with it.
abbrev stored : {V A : Type 0} → Exec (StoreWorld V) A → Store V → Exec History (A × Store V)
stored m s past = elim (m (record { store = s; history = past })) [
  | done a w ↦ done (a, w.store) w.history
  | fail e w ↦ fail e w.history
  | deadlock ↦ deadlock
]

module _ {V P : Type 0} (e : Env V P) where
  -- The method `Initialize`, which gives the server that its methods then work on.
  unfoldable pub initialize : Exec History (Server V)
  unfolding loaded
  initialize = do
    let c = default_config
    store ← context "failed to initialize state store" (new_store e.host e.json c.paths.state_dir)
    machines ← λ past.
        loaded (load_all_vms e.host e.yaml (record { manager = new_manager c; history = past }))
    isos ←
        context "failed to initialize ISO store"
          (stored (new_iso_store e.isos e.host c.paths.iso_dir) store)
    templates ←
        context "failed to initialize template store"
          (stored (new_template_store e.templates e.host c.paths.template_dir) isos.1)
    pure (record {
      vm_manager = machines;
      disk_manager = record { disk_dir = c.paths.disk_dir; zpool = c.defaults.zpool };
      iso_store = isos.0;
      template_store = templates.0;
      state_store = templates.1;
      config = c;
    })

-- A request, with an `I` for its id.
pub record Request (I P : Type 0) : Type 0 where
  pub id : I
  pub method : String
  pub params : P

pub record Error : Type 0 where
  pub code : ℤ
  pub message : String

pub record Response (I : Type 0) : Type 0 where
  pub jsonrpc : String
  pub id : I
  pub result : Option Answer
  pub problem : Option Error

-- What the decoder reads: requests, up to the end of the input or to a text that is none.
pub data Input (I P : Type 0) : Type 0 where
  request : Request I P → Input I P
  malformed : String → Input I P

-- The state of the loop, with the responses that are written, the last one last.
pub record Session (V I : Type 0) : Type 0 where
  pub world : ServerWorld V
  pub sent : List (Response I)

-- How `Run` comes to an end: the error that it returns, if any, the responses and the calls.
pub data Ending (I : Type 0) : Type 0 where
  ended : Option String → List (Response I) → History → Ending I
  hung : Ending I

-- `-32000`
abbrev pub server_error : ℤ
server_error = negsuc 31999

abbrev pub respond : {I : Type 0} → I → Result Answer → Response I
respond id (ok answer) = record { jsonrpc = "2.0"; id = id; result = some answer; problem = none }
respond id (err message) = record {
  jsonrpc = "2.0";
  id = id;
  result = none;
  problem = some (record { code = server_error; message = message });
}

module _ {V P I : Type 0} (e : Env V P)
    (write : List (Response I) → Response I → Reply (Unit {0})) where
  -- `encoder.Encode(resp)`, whose answer may depend on what was written before.
  abbrev pub encode : Response I → Exec (Session V I) (Unit {0})
  encode r s = elim (write s.sent r) [
    | good _ ↦ done tt (record s { sent = s.sent ++ (r ∷ []) })
    | bad f ↦ fail f.message s
  ]

  abbrev pub on_server : {A : Type 0} → Exec (ServerWorld V) A → Exec (Session V I) A
  on_server = zoom (λ s. s.world) (λ w s. record s { world = w })

  -- What `Run` does with the result of `HandleRequest`.
  abbrev pub reply_to : I → Exec (ServerWorld V) Answer → Exec (Session V I) (Unit {0})
  reply_to id m = do
    result ← attempt (on_server m)
    context "failed to encode response" (encode (respond id result))

  answer : Request I P → Exec (Session V I) (Unit {0})
  answer r = reply_to r.id (handle_request e r.method r.params)

  -- The loop of `Run`.
  unfoldable pub serve : List (Input I P) → Exec (Session V I) (Unit {0})
  unfolding answer
  serve [] = pure tt
  serve (malformed x ∷ _) = throw ("failed to decode request: " <> x)
  serve (request r ∷ rest) = do answer r; serve rest

  ending : Outcome (Session V I) (Unit {0}) → Ending I
  ending (done _ s) = ended none s.sent s.world.history
  ending (fail x s) = ended (some x) s.sent s.world.history
  ending deadlock = hung

  started : Outcome History (Server V) → List (Input I P) → Ending I
  unfolding ending serve
  started (done server past) inputs =
      ending
        (serve inputs (record { world = record { server = server; history = past }; sent = [] }))
  started (fail x past) inputs = ended (some ("failed to initialize: " <> x)) [] past
  started deadlock inputs = hung

  -- The method `Run`, from the calls that the system has seen before.
  unfoldable pub run : List (Input I P) → History → Ending I
  unfolding initialize started
  run inputs past = started (initialize e past) inputs

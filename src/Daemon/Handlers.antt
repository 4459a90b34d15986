-- ===== src/Daemon/Handlers.antt =====
-- src/bpfilter/xlate/cli.c: the requests of the command line tool.
use bpfilter_study.Base.{
  ℕ, List, Option, none, some, true, ◌∷◌, [], if◌then◌else◌, inl, ◌==◌, inr, ◌⊎◌,
}
use bpfilter_study.Daemon.{
  M, NamedChain, run_call, BfProgram, Cgen, HookOpts, error, pure, ◌>>=◌, ◌>>◌, attempt, cli, deref,
  einval, enodev, enoent, allocate, ebusy, eexist, send_fd,
}
use bpfilter_study.Daemon.Codegen.{
  cgen_free, cgen_new, cgen_get_counters, cgen_load, cgen_set, cgen_unload, cgen_update,
  cgen_attach,
}
use bpfilter_study.Daemon.Context.{
  ctx_flush, ctx_get_cgen, ctx_get_cgens_for_front, ctx_set_cgen, ctx_delete_cgen,
}
use bpfilter_study.Daemon.Hookopts.{hookopts_validate}

-- A chain of a ruleset with its hook options, or one that cannot be unpacked.
pub data Item : Type 0 where
  item : NamedChain → Option HookOpts → Item
  broken : ℕ → Item

-- A request after unpacking; `malformed` is one that cannot be unpacked.
pub data Request : Type 0 where
  ruleset_flush ruleset_get unsupported : Request
  ruleset_set : List Item → Request
  chain_set : NamedChain → Option HookOpts → Request
  chain_get chain_prog_fd chain_logs_fd chain_flush : ℕ → Request
  chain_load chain_update : NamedChain → Request
  chain_attach : ℕ → HookOpts → Request
  malformed : ℕ → Request

pub data Reply : Type 0 where
  empty : Reply
  chain_reply : NamedChain → Option HookOpts → List ℕ → Reply
  ruleset_reply : List NamedChain → List (Option HookOpts) → List (List ℕ) → Reply

pub data Response : Type 0 where
  success_response : Reply → Response
  failure_response : ℕ → Response

-- A function that holds a codegen in a variable which is freed when the function fails.
unfoldable pub freeing : {A : Type 0} → Cgen → M A → M A
unfolding cgen_free
freeing cgen m = do r ← attempt m; elim r [ inl a ↦ pure a | inr e ↦ do cgen_free cgen; error e ]

-- The codegen is loaded already; if it cannot be stored it is unloaded.
unfoldable pub insert_or_unload : Cgen → M (Unit {0})
unfolding ctx_set_cgen cgen_unload
insert_or_unload cgen = do
  r ← attempt (ctx_set_cgen cgen)
  elim r [ inl _ ↦ pure tt | inr e ↦ do cgen_unload cgen; error e ]

unfoldable pub set_items : List Item → M (Unit {0})
unfolding cgen_new cgen_set insert_or_unload freeing
set_items [] = pure tt
set_items (broken e ∷ items) = error e
set_items (item chain opts ∷ items) = do
  cgen ← cgen_new cli chain
  freeing cgen (do cgen' ← cgen_set cgen opts; insert_or_unload cgen')
  set_items items

unfoldable pub cli_ruleset_set : List Item → M Reply
unfolding ctx_flush set_items
cli_ruleset_set items = do
  ctx_flush cli
  r ← attempt (set_items items)
  elim r [ inl _ ↦ pure empty | inr e ↦ do ctx_flush cli; error e ]

-- The three lists of `_bf_cli_ruleset_get()`.
unfoldable pub rulesets_of : List Cgen → M Reply
unfolding run_call cgen_get_counters
rulesets_of [] = pure (ruleset_reply [] [] [])
rulesets_of (c ∷ cs) = do
  run_call allocate
  p ← deref c.program
  run_call allocate
  run_call allocate
  counters ← cgen_get_counters c
  run_call allocate
  rest ← rulesets_of cs
  elim rest [
    | ruleset_reply chains opts lists ↦
        pure (ruleset_reply (c.chain ∷ chains) (p.link.hookopts ∷ opts) (counters ∷ lists))
    | other ↦ pure other
  ]

-- The packing, and the response that is made from it, are an allocation each.
unfoldable pub cli_ruleset_get : M Reply
unfolding run_call ctx_get_cgens_for_front rulesets_of
cli_ruleset_get = do
  run_call allocate
  cs ← ctx_get_cgens_for_front cli
  reply ← rulesets_of cs
  run_call allocate
  pure reply

-- The error of the deletion is dropped.
unfoldable pub delete_old : ℕ → M (Unit {0})
unfolding ctx_get_cgen ctx_delete_cgen
delete_old name = do
  old ← ctx_get_cgen name
  elim old [ none ↦ pure tt | some c ↦ do r ← attempt (ctx_delete_cgen c.address true); pure tt ]

unfoldable pub cli_chain_set : NamedChain → Option HookOpts → M Reply
unfolding cgen_new freeing delete_old cgen_set insert_or_unload
cli_chain_set chain opts = do
  cgen ← cgen_new cli chain
  freeing cgen (do delete_old cgen.chain.name; cgen' ← cgen_set cgen opts; insert_or_unload cgen')
  pure empty

abbrev pub or_enoent : Option Cgen → M Cgen
or_enoent none = error enoent
or_enoent (some c) = pure c

unfoldable pub cli_chain_get : ℕ → M Reply
unfolding ctx_get_cgen run_call cgen_get_counters
cli_chain_get name = do
  found ← ctx_get_cgen name
  c ← or_enoent found
  counters ← cgen_get_counters c
  run_call allocate
  p ← deref c.program
  run_call allocate
  pure (chain_reply c.chain p.link.hookopts counters)

abbrev pub fd_or : ℕ → Option ℕ → M ℕ
fd_or e none = error e
fd_or e (some fd) = pure fd

abbrev pub prog_fd_of : Option BfProgram → Option ℕ
prog_fd_of none = none
prog_fd_of (some p) = p.prog_fd

unfoldable pub cli_chain_prog_fd : ℕ → M Reply
unfolding ctx_get_cgen run_call
cli_chain_prog_fd name = do
  found ← ctx_get_cgen name
  c ← or_enoent found
  fd ← fd_or enodev (prog_fd_of c.program)
  run_call (send_fd fd)
  pure empty

-- A descriptor of 0 is taken for none.
abbrev pub log_fd_of : Option BfProgram → Option ℕ
log_fd_of none = none
log_fd_of (some p) = if p.log_fd == 0 then none else some p.log_fd

unfoldable pub cli_chain_logs_fd : ℕ → M Reply
unfolding ctx_get_cgen run_call
cli_chain_logs_fd name = do
  found ← ctx_get_cgen name
  c ← or_enoent found
  fd ← fd_or enoent (log_fd_of c.program)
  run_call (send_fd fd)
  pure empty

unfoldable pub cli_chain_load : NamedChain → M Reply
unfolding ctx_get_cgen cgen_new freeing cgen_load insert_or_unload
cli_chain_load chain = do
  found ← ctx_get_cgen chain.name
  elim found [
    | some _ ↦ error eexist
    | none ↦ do
      cgen ← cgen_new cli chain
      freeing cgen (do cgen' ← cgen_load cgen; insert_or_unload cgen')
      pure empty
  ]

abbrev pub check : Option ℕ → M (Unit {0})
check none = pure tt
check (some e) = error e

unfoldable pub cli_chain_attach : ℕ → HookOpts → M Reply
unfolding ctx_get_cgen hookopts_validate cgen_attach
cli_chain_attach name opts = do
  found ← ctx_get_cgen name
  c ← or_enoent found
  p ← deref c.program
  elim p.link.hookopts [ none ↦ pure tt | some _ ↦ error ebusy ]
  check (hookopts_validate opts c.chain.body.hook)
  cgen_attach c opts
  pure empty

-- Every error of the update is turned into EINVAL.
unfoldable pub cli_chain_update : NamedChain → M Reply
unfolding ctx_get_cgen cgen_update
cli_chain_update chain = do
  found ← ctx_get_cgen chain.name
  c ← or_enoent found
  p ← deref c.program
  elim p.link.hookopts [ some _ ↦ pure tt | none ↦ error einval ]
  r ← attempt (cgen_update c chain)
  elim r [ inl _ ↦ pure empty | inr _ ↦ error einval ]

unfoldable pub cli_chain_flush : ℕ → M Reply
unfolding ctx_get_cgen ctx_delete_cgen
cli_chain_flush name = do
  found ← ctx_get_cgen name
  c ← or_enoent found
  ctx_delete_cgen c.address true
  pure empty

unfoldable pub cli_ruleset_flush : M Reply
unfolding ctx_flush
cli_ruleset_flush = do ctx_flush cli; pure empty

unfoldable pub dispatch : Request → M Reply
dispatch ruleset_flush = cli_ruleset_flush
dispatch (ruleset_set items) = cli_ruleset_set items
dispatch ruleset_get = cli_ruleset_get
dispatch (chain_set chain opts) = cli_chain_set chain opts
dispatch (chain_get name) = cli_chain_get name
dispatch (chain_prog_fd name) = cli_chain_prog_fd name
dispatch (chain_logs_fd name) = cli_chain_logs_fd name
dispatch (chain_load chain) = cli_chain_load chain
dispatch (chain_attach name opts) = cli_chain_attach name opts
dispatch (chain_update chain) = cli_chain_update chain
dispatch (chain_flush name) = cli_chain_flush name
dispatch unsupported = error einval
dispatch (malformed e) = error e

-- A handler without data for the client leaves the response to be made from its status; there is
-- none if this allocation fails.
unfoldable pub respond : Reply ⊎ ℕ → M Response
unfolding run_call
respond (inl empty) = do run_call allocate; pure (success_response empty)
respond (inl reply) = pure (success_response reply)
respond (inr e) = do run_call allocate; pure (failure_response e)

unfoldable pub request_handler : Request → M Response
unfolding dispatch respond
request_handler req = do r ← attempt (dispatch req); respond r

-- ===== src/Daemon/Programs.antt =====
-- src/bpfilter/cgen/prog/link.c, and the functions of src/bpfilter/cgen/program.c by which the
-- daemon handles a program: bf_program_new(), bf_program_attach(), bf_program_pin() and others.
use bpfilter_study.Base.{
  ℕ, List, Option, none, some, ◌++◌, [], suc, ◌∷◌, length, ◌+◌, zero, inl, inr, ◌*◌,
}
use bpfilter_study.Daemon.{
  BfProgram, HookOpts, ask, call, run_call, Link, M, NamedChain, Pinned, counters_pin, crash, pure,
  ◌>>=◌, ◌>>◌, allocate, attempt, detach_link, link_create, link_pin, load_program, pin,
  printer_pin, prog_pin, set_pin, unpin, error, log_pin, open_cgroup, update_link, create_map,
}
use bpfilter_study.Chain.{Hook, hook_to_flavor, cgroup_flavor, nf_flavor}

unfoldable pub link_new : M Link
unfolding run_call
link_new = do run_call allocate; pure (record { hookopts = none; fd = none })

-- bf_link_attach(); an option that is not set holds 0.
abbrev pub value_or_zero : Option ℕ → ℕ
value_or_zero none = 0
value_or_zero (some v) = v

unfoldable pub link_attach : Link → Hook → HookOpts → Option ℕ → M Link
unfolding run_call call
link_attach link hook opts prog_fd = do
  elim (hook_to_flavor hook) [
    | cgroup_flavor ↦ run_call (open_cgroup (value_or_zero opts.cgpath))
    | _ ↦ pure tt
  ]
  fd ← call (link_create prog_fd opts)
  pure (record { hookopts = some opts; fd = some fd })

abbrev pub swapped : HookOpts → HookOpts
swapped o = record o { priorities = elim o.priorities [ none ↦ none | some (a, b) ↦ some (b, a) ] }

abbrev pub link_renew : HookOpts → Option ℕ → M Link
link_renew opts prog_fd = do
  fd ← call (link_create prog_fd opts)
  pure (record { hookopts = some opts; fd = some fd })

-- A netfilter link is created anew with the other priority; `*link->hookopts` is read.
unfoldable pub link_update_nf : Link → Option ℕ → M Link
unfolding call
link_update_nf link prog_fd = elim link.hookopts [
  | none ↦ λ env d. crash
  | some opts ↦ link_renew (swapped opts) prog_fd
]

unfoldable pub link_update : Link → Hook → Option ℕ → M Link
unfolding run_call link_update_nf
link_update link hook prog_fd = elim (hook_to_flavor hook) [
  | nf_flavor ↦ link_update_nf link prog_fd
  | _ ↦ do run_call (update_link link.fd prog_fd); pure link
]

-- A failure of the call is only logged.
unfoldable pub link_detach : Link → M Link
unfolding ask
link_detach link = do a ← ask (detach_link link.fd); pure (record { hookopts = none; fd = none })

abbrev pub set_pins : ℕ → ℕ → List Pinned
set_pins i zero = []
set_pins i (suc n) = set_pin i ∷ set_pins (i + 1) n

unfoldable pub allocate_all : ℕ → M (Unit {0})
unfolding run_call
allocate_all zero = pure tt
allocate_all (suc n) = do run_call allocate; allocate_all n

-- The program itself, its three maps, a map and a list node for each set, the link and the printer
-- are allocated.
unfoldable pub program_new : NamedChain → M BfProgram
unfolding run_call link_new allocate_all
program_new chain = do
  allocate_all (4 + 2 * length chain.body.sets)
  link ← link_new
  run_call allocate
  pure (record {
    name = chain.name;
    hook = chain.body.hook;
    sets = length chain.body.sets;
    link = link;
    prog_fd = none;
    log_fd = 0;
  })

unfoldable pub create_all : ℕ → List Pinned → M (Unit {0})
unfolding run_call
create_all name [] = pure tt
create_all name (x ∷ xs) = do run_call (create_map name x); create_all name xs

unfoldable pub program_load : BfProgram → M BfProgram
unfolding call create_all
program_load p = do
  create_all p.name (set_pins 0 p.sets ++ counters_pin ∷ printer_pin ∷ [])
  log_fd ← call (create_map p.name log_pin)
  fd ← call (load_program p.name)
  pure (record p { prog_fd = some fd; log_fd = log_fd })

unfoldable pub program_attach : BfProgram → HookOpts → M BfProgram
unfolding link_attach
program_attach p opts = do
  link ← link_attach p.link p.hook opts p.prog_fd
  pure (record p { link = link })

unfoldable pub program_detach : BfProgram → M BfProgram
unfolding link_detach
program_detach p = do link ← link_detach p.link; pure (record p { link = link })

unfoldable pub program_unload : BfProgram → M BfProgram
unfolding link_detach
program_unload p = do
  link ← link_detach p.link
  pure (record p { prog_fd = none; link = link; log_fd = 0 })

abbrev pub maps_of : BfProgram → List Pinned
maps_of p = counters_pin ∷ printer_pin ∷ log_pin ∷ set_pins 0 p.sets

abbrev pub link_of : BfProgram → List Pinned
link_of p = elim p.link.hookopts [ none ↦ [] | some _ ↦ link_pin ∷ [] ]

unfoldable pub unpin_all : ℕ → List Pinned → M (Unit {0})
unfolding ask
unpin_all name [] = pure tt
unpin_all name (x ∷ xs) = do a ← ask (unpin name x); unpin_all name xs

unfoldable pub program_unpin : BfProgram → M (Unit {0})
unfolding unpin_all
program_unpin p = unpin_all p.name (maps_of p ++ link_pin ∷ prog_pin ∷ [])

unfoldable pub pin_all : ℕ → List Pinned → M (Unit {0})
unfolding run_call
pin_all name [] = pure tt
pin_all name (x ∷ xs) = do run_call (pin name x); pin_all name xs

-- The first failure unpins everything, and its error is returned.
unfoldable pub program_pin : BfProgram → M (Unit {0})
unfolding pin_all program_unpin
program_pin p = do
  r ← attempt (pin_all p.name (prog_pin ∷ maps_of p ++ link_of p))
  elim r [ inl _ ↦ pure tt | inr e ↦ do program_unpin p; error e ]

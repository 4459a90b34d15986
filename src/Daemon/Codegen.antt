-- ===== src/Daemon/Codegen.antt =====
-- src/bpfilter/cgen/cgen.c: a chain, its program, and the program's life in the kernel.
use bpfilter_study.Base.{
  ℕ, Option, if◌then◌else◌, ◌==◌, List, some, ◌+◌, length, ◌∷◌, [], none, inl, ltb, suc, inr, zero,
}
use bpfilter_study.Daemon.{
  Answer, BfProgram, Cgen, NamedChain, ask, call, run_call, Front, HookOpts, Link, M, done, pure,
  when_persist, ◌>>=◌, ◌>>◌, allocate, attempt, crash, deref, generate, get_cgens, ok, pindir_root,
  remove_pindir, set_ns, client, error, failed, new_address, open_pindir, set_cgens, einval, own,
  lookup_counter, pin, link_pin,
}
use bpfilter_study.Daemon.Programs.{
  program_pin, program_unpin, program_attach, program_new, program_unload, program_detach,
  program_load, link_update,
}
use bpfilter_study.Chain.{chain_validate}

-- `_bf_cgen_get_chain_pindir_fd()`
unfoldable pub chain_pindir : ℕ → M (Unit {0})
unfolding run_call
chain_pindir name = do run_call pindir_root; run_call (open_pindir name)

-- The name is that of the chain; it is `none` if the chain is NULL, and is read all the same.
abbrev pub rmdir_of : Option ℕ → Answer → M (Unit {0})
rmdir_of (some name) (done _) = do a ← ask (remove_pindir name); pure tt
rmdir_of none (done _) = λ env d. crash
rmdir_of name (failed _) = pure tt

-- bf_cgen_free() of an object with the chain, whose program is closed and whose chain is freed
unfoldable pub cgen_free_chain : Option ℕ → M (Unit {0})
unfolding ask
cgen_free_chain name = when_persist (do root ← ask pindir_root; rmdir_of name root)

unfoldable pub cgen_free : Cgen → M (Unit {0})
unfolding cgen_free_chain
cgen_free cgen = cgen_free_chain (some cgen.chain.name)

-- If the chain is invalid the new object, which has no chain yet, is left to the caller, and every
-- caller frees it when it returns the error: this is put here.
unfoldable pub cgen_new : Front → NamedChain → M Cgen
unfolding run_call cgen_free_chain
cgen_new front chain = do
  run_call allocate
  address ← new_address
  if chain_validate chain.body
      then pure (record { address = address; front = front; chain = chain; program = none })
      else (do cgen_free_chain none; error einval)

abbrev pub or_abort : BfProgram → Answer → M BfProgram
or_abort p (done _) env = ok p
or_abort p (failed _) env = λ d. crash

-- The program is attached in the client's namespaces; a failure to switch back aborts.
unfoldable pub attach_in_client : BfProgram → HookOpts → M BfProgram
unfolding run_call ask program_attach
attach_in_client p opts = do
  run_call (set_ns client)
  p' ← program_attach p opts
  back ← ask (set_ns own)
  or_abort p' back

abbrev pub attach_if : BfProgram → Option HookOpts → M BfProgram
attach_if p none = pure p
attach_if p (some opts) = attach_in_client p opts

unfoldable pub cgen_set : Cgen → Option HookOpts → M Cgen
unfolding run_call chain_pindir program_new program_load attach_in_client program_pin
cgen_set cgen opts = do
  when_persist (chain_pindir cgen.chain.name)
  p ← program_new cgen.chain
  run_call (generate cgen.chain.name)
  p' ← program_load p
  p'' ← attach_if p' opts
  when_persist (program_pin p'')
  pure (record cgen { program = some p'' })

unfoldable pub cgen_load : Cgen → M Cgen
unfolding run_call chain_pindir program_new program_load program_pin
cgen_load cgen = do
  when_persist (chain_pindir cgen.chain.name)
  p ← program_new cgen.chain
  run_call (generate cgen.chain.name)
  p' ← program_load p
  when_persist (program_pin p')
  pure (record cgen { program = some p' })

-- A write to the object at an address.
abbrev pub replace : ℕ → (Cgen → Cgen) → List Cgen → List Cgen
replace a f [] = []
replace a f (c ∷ cs) = (if c.address == a then f c else c) ∷ replace a f cs

abbrev pub with_program : BfProgram → Cgen → Cgen
with_program p c = record c { program = some p }

unfoldable pub set_program : ℕ → BfProgram → M (Unit {0})
set_program a p = do cs ← get_cgens; set_cgens (replace a (with_program p) cs)

unfoldable pub cgen_attach : Cgen → HookOpts → M (Unit {0})
unfolding run_call ask chain_pindir program_attach program_detach set_program
cgen_attach cgen opts = do
  when_persist (chain_pindir cgen.chain.name)
  run_call (set_ns client)
  p ← deref cgen.program
  p' ← program_attach p opts
  set_program cgen.address p'
  back ← ask (set_ns own)
  p'' ← or_abort p' back
  when_persist (do
    r ← attempt (run_call (pin cgen.chain.name link_pin))
    elim r [
      | inl _ ↦ pure tt
      | inr e ↦ do p ← program_detach p''; set_program cgen.address p; error e
    ])

abbrev pub with_chain : NamedChain → BfProgram → Cgen → Cgen
with_chain chain p c = record c { chain = chain; program = some p }

-- The old link, updated, passes to the new program; an error of the last pin is ignored.
unfoldable pub finish_update : Cgen → NamedChain → BfProgram → Link → M (Unit {0})
unfolding program_pin
finish_update cgen chain p link = do
  when_persist (do r ← attempt (program_pin (record p { link = link })); pure tt)
  cs ← get_cgens
  set_cgens (replace cgen.address (with_chain chain (record p { link = link })) cs)

unfoldable pub cgen_update : Cgen → NamedChain → M (Unit {0})
unfolding run_call chain_pindir program_new program_load program_unpin link_update program_pin
    finish_update
cgen_update cgen chain = do
  when_persist (chain_pindir chain.name)
  p ← program_new chain
  run_call (generate chain.name)
  p' ← program_load p
  old ← deref cgen.program
  when_persist (program_unpin old)
  r ← attempt (link_update old.link cgen.chain.body.hook p'.prog_fd)
  elim r [
    | inl link ↦ finish_update cgen chain p' link
    | inr e ↦ do when_persist (do s ← attempt (program_pin old); pure tt); error e
  ]

abbrev pub unload_program : Cgen → M (Unit {0})
unload_program cgen = do
  p ← deref cgen.program
  program_unpin p
  p' ← program_unload p
  set_program cgen.address p'

-- Without the pin directory nothing is unloaded.
unfoldable pub cgen_unload : Cgen → M (Unit {0})
unfolding chain_pindir program_unpin program_unload set_program
cgen_unload cgen = do
  r ← attempt (chain_pindir cgen.chain.name)
  elim r [ inl _ ↦ unload_program cgen | inr e ↦ pure tt ]

-- enum bf_counter_type; `below` is any other negative number.
pub data CounterType : Type 0 where
  policy errors below : CounterType
  rule : ℕ → CounterType

-- The position of a counter in the counters map.
unfoldable pub counter_position : ℕ → CounterType → Option ℕ
counter_position rules policy = some rules
counter_position rules errors = some (rules + 1)
counter_position rules below = none
counter_position rules (rule i) = if ltb i rules then some i else none

unfoldable pub cgen_get_counter : Cgen → CounterType → M ℕ
unfolding call counter_position
cgen_get_counter cgen idx = elim (counter_position (length cgen.chain.body.rules) idx) [
  | none ↦ error einval
  | some i ↦ do p ← deref cgen.program; call (lookup_counter p.name i)
]

unfoldable pub counter_of : ℕ → ℕ → CounterType
counter_of rules i = if i == rules then policy else if i == rules + 1 then errors else rule i

-- `left` rounds of the loop are to come, the first of them at `i`.
unfoldable pub counters_from : Cgen → ℕ → ℕ → M (List ℕ)
unfolding run_call cgen_get_counter counter_of
counters_from cgen zero i = pure []
counters_from cgen (suc left) i = do
  run_call allocate
  c ← cgen_get_counter cgen (counter_of (length cgen.chain.body.rules) i)
  run_call allocate
  cs ← counters_from cgen left (i + 1)
  pure (c ∷ cs)

unfoldable pub cgen_get_counters : Cgen → M (List ℕ)
unfolding counters_from
cgen_get_counters cgen = counters_from cgen (length cgen.chain.body.rules + 2) 0

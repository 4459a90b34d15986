-- ===== src/Daemon/Steady.antt =====
-- The daemon's functions that leave the codegens alone: all that creates, loads, attaches, pins and
-- reads a program.
use bpfilter_study.Base.{
  ℕ, zero, suc, Option, some, none, List, [], ◌∷◌, inl, inr, ◌⊎◌, ◌+◌, length, ◌++◌, ◌*◌,
}
use bpfilter_study.Daemon.{
  done, failed, Cgen, NamedChain, BfProgram, Answer, Link, HookOpts, Pinned, crash, run_call, ◌>>◌,
  error, open_cgroup, pure, update_link, einval, ◌>>=◌, deref, call, lookup_counter, detach_link,
  prog_pin, link_pin, allocate, counters_pin, create_map, printer_pin, log_pin, load_program,
}
use bpfilter_study.Chain.{
  Hook, Flavor, tc_flavor, nf_flavor, xdp_flavor, cgroup_flavor, hook_to_flavor,
}
use bpfilter_study.Daemon.Rules.{
  Steady, Steady->>=, pure-Steady, when_persist-Steady, ask-Steady, call-Steady, run_call-Steady,
  error-Steady, attempt-Steady, deref-Steady, crash-Steady,
}
use bpfilter_study.Daemon.Codegen.{
  attach_in_client, cgen_free, cgen_free_chain, cgen_get_counter, cgen_get_counters, chain_pindir,
  counters_from, CounterType, counter_position, attach_if, or_abort, rmdir_of,
}
use bpfilter_study.Daemon.Programs.{
  link_attach, link_detach, link_update, link_update_nf, pin_all, program_attach, program_detach,
  program_load, program_new, program_pin, program_unload, program_unpin, unpin_all, link_new,
  link_renew, value_or_zero, swapped, maps_of, link_of, allocate_all, create_all, set_pins,
}

pub chain_pindir-Steady : (name : ℕ) → Steady (chain_pindir name)
unfolding chain_pindir
chain_pindir-Steady name = Steady->>= (run_call-Steady _) (λ _. run_call-Steady _)

rmdir_of-Steady : (name : Option ℕ) (a : Answer) → Steady (rmdir_of name a)
rmdir_of-Steady none (done v) = crash-Steady
rmdir_of-Steady (some name) (done v) = Steady->>= (ask-Steady _) (λ _. pure-Steady tt)
rmdir_of-Steady name (failed e) = pure-Steady tt

pub cgen_free_chain-Steady : (name : Option ℕ) → Steady (cgen_free_chain name)
unfolding cgen_free_chain
cgen_free_chain-Steady name = when_persist-Steady (Steady->>= (ask-Steady _) (rmdir_of-Steady name))

pub cgen_free-Steady : (c : Cgen) → Steady (cgen_free c)
unfolding cgen_free
cgen_free-Steady c = cgen_free_chain-Steady (some c.chain.name)

allocate_all-Steady : (n : ℕ) → Steady (allocate_all n)
unfolding allocate_all
allocate_all-Steady zero = pure-Steady tt
allocate_all-Steady (suc n) = Steady->>= (run_call-Steady allocate) (λ _. allocate_all-Steady n)

pub program_new-Steady : (chain : NamedChain) → Steady (program_new chain)
unfolding program_new link_new
program_new-Steady chain = Steady->>= (allocate_all-Steady (4 + 2 * length chain.body.sets)) (λ _.
    Steady->>= (Steady->>= (run_call-Steady allocate) (λ _. pure-Steady _))
      (λ _. Steady->>= (run_call-Steady allocate) (λ _. pure-Steady _)))

create_all-Steady : (name : ℕ) (l : List Pinned) → Steady (create_all name l)
unfolding create_all
create_all-Steady name [] = pure-Steady tt
create_all-Steady name (x ∷ xs) =
    Steady->>= (run_call-Steady (create_map name x)) (λ _. create_all-Steady name xs)

pub program_load-Steady : (p : BfProgram) → Steady (program_load p)
unfolding program_load
program_load-Steady p =
    Steady->>= (create_all-Steady p.name (set_pins 0 p.sets ++ counters_pin ∷ printer_pin ∷ []))
      (λ _. Steady->>= (call-Steady (create_map p.name log_pin)) (λ log_fd.
        Steady->>= (call-Steady (load_program p.name))
          (λ fd. pure-Steady (record p { prog_fd = some fd; log_fd = log_fd }))))

link_attach-Steady :
    (l : Link) (h : Hook) (o : HookOpts) (fd : Option ℕ) → Steady (link_attach l h o fd)
unfolding link_attach
link_attach-Steady l h o fd =
    Steady->>= (before (hook_to_flavor h)) (λ _. Steady->>= (call-Steady _) (λ _. pure-Steady _))
  where
    before :
        (f : Flavor)
        → Steady (elim f [
          | cgroup_flavor ↦ run_call (open_cgroup (value_or_zero o.cgpath))
          | _ ↦ pure tt
        ])
    before cgroup_flavor = run_call-Steady _
    before tc_flavor = pure-Steady tt
    before nf_flavor = pure-Steady tt
    before xdp_flavor = pure-Steady tt

pub program_attach-Steady : (p : BfProgram) (o : HookOpts) → Steady (program_attach p o)
unfolding program_attach
program_attach-Steady p o =
    Steady->>= (link_attach-Steady p.link p.hook o p.prog_fd) (λ _. pure-Steady _)

link_detach-Steady : (l : Link) → Steady (link_detach l)
unfolding link_detach
link_detach-Steady l =
    Steady->>= (ask-Steady (detach_link l.fd))
      (λ _. pure-Steady (record { hookopts = none; fd = none }))

pub program_detach-Steady : (p : BfProgram) → Steady (program_detach p)
unfolding program_detach
program_detach-Steady p =
    Steady->>= (link_detach-Steady p.link) (λ l. pure-Steady (record p { link = l }))

pub program_unload-Steady : (p : BfProgram) → Steady (program_unload p)
unfolding program_unload
program_unload-Steady p =
    Steady->>= (link_detach-Steady p.link)
      (λ l. pure-Steady (record p { prog_fd = none; link = l; log_fd = 0 }))

link_update_nf-Steady : (l : Link) (fd : Option ℕ) → Steady (link_update_nf l fd)
unfolding link_update_nf
link_update_nf-Steady l fd = by_opts l.hookopts
  where
    by_opts :
        (o : Option HookOpts)
        → Steady (elim o [ none ↦ (λ env d. crash) | some opts ↦ link_renew (swapped opts) fd ])
    by_opts none = crash-Steady
    by_opts (some o) = Steady->>= (call-Steady _) (λ _. pure-Steady _)

pub link_update-Steady : (l : Link) (h : Hook) (fd : Option ℕ) → Steady (link_update l h fd)
unfolding link_update
link_update-Steady l h fd = by_flavor (hook_to_flavor h)
  where
    by_flavor :
        (f : Flavor)
        → Steady (elim f [
          | nf_flavor ↦ link_update_nf l fd
          | _ ↦ (do run_call (update_link l.fd fd); pure l)
        ])
    by_flavor nf_flavor = link_update_nf-Steady l fd
    by_flavor tc_flavor = Steady->>= (run_call-Steady _) (λ _. pure-Steady l)
    by_flavor xdp_flavor = Steady->>= (run_call-Steady _) (λ _. pure-Steady l)
    by_flavor cgroup_flavor = Steady->>= (run_call-Steady _) (λ _. pure-Steady l)

unpin_all-Steady : (name : ℕ) (l : List Pinned) → Steady (unpin_all name l)
unfolding unpin_all
unpin_all-Steady name [] = pure-Steady tt
unpin_all-Steady name (x ∷ xs) = Steady->>= (ask-Steady _) (λ _. unpin_all-Steady name xs)

pub program_unpin-Steady : (p : BfProgram) → Steady (program_unpin p)
unfolding program_unpin
program_unpin-Steady p = unpin_all-Steady p.name (maps_of p ++ link_pin ∷ prog_pin ∷ [])

pin_all-Steady : (name : ℕ) (l : List Pinned) → Steady (pin_all name l)
unfolding pin_all
pin_all-Steady name [] = pure-Steady tt
pin_all-Steady name (x ∷ xs) = Steady->>= (run_call-Steady _) (λ _. pin_all-Steady name xs)

pub program_pin-Steady : (p : BfProgram) → Steady (program_pin p)
unfolding program_pin
program_pin-Steady p =
    Steady->>= (attempt-Steady (pin_all-Steady p.name (prog_pin ∷ maps_of p ++ link_of p)))
      by_result
  where
    by_result :
        (r : Unit {0} ⊎ ℕ)
        → Steady (elim r [ inl _ ↦ pure tt | inr e ↦ (do program_unpin p; error e) ])
    by_result (inl u) = pure-Steady tt
    by_result (inr e) = Steady->>= (program_unpin-Steady p) (λ _. error-Steady e)

pub or_abort-Steady : (p : BfProgram) (a : Answer) → Steady (or_abort p a)
or_abort-Steady p (done v) = pure-Steady p
or_abort-Steady p (failed e) = crash-Steady

pub attach_in_client-Steady : (p : BfProgram) (o : HookOpts) → Steady (attach_in_client p o)
unfolding attach_in_client
attach_in_client-Steady p o = Steady->>= (run_call-Steady _) (λ _.
    Steady->>= (program_attach-Steady p o) (λ p'. Steady->>= (ask-Steady _) (or_abort-Steady p')))

pub attach_if-Steady : (p : BfProgram) (o : Option HookOpts) → Steady (attach_if p o)
attach_if-Steady p none = pure-Steady p
attach_if-Steady p (some o) = attach_in_client-Steady p o

pub cgen_get_counter-Steady : (c : Cgen) (t : CounterType) → Steady (cgen_get_counter c t)
unfolding cgen_get_counter
cgen_get_counter-Steady c t = by_position (counter_position (length c.chain.body.rules) t)
  where
    by_position :
        (i : Option ℕ)
        → Steady {A = ℕ} (elim i [
          | none ↦ error einval
          | some i ↦ (do p ← deref c.program; call (lookup_counter p.name i))
        ])
    by_position none = error-Steady einval
    by_position (some i) = Steady->>= (deref-Steady c.program) (λ p. call-Steady _)

counters_from-Steady : (c : Cgen) (left i : ℕ) → Steady (counters_from c left i)
unfolding counters_from
counters_from-Steady c zero i = pure-Steady []
counters_from-Steady c (suc left) i = Steady->>= (run_call-Steady _) (λ _.
    Steady->>= (cgen_get_counter-Steady c _) (λ _.
      Steady->>= (run_call-Steady _)
        (λ _. Steady->>= (counters_from-Steady c left (i + 1)) (λ _. pure-Steady _))))

pub cgen_get_counters-Steady : (c : Cgen) → Steady (cgen_get_counters c)
unfolding cgen_get_counters
cgen_get_counters-Steady c = counters_from-Steady c _ 0

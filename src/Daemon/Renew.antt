-- ===== src/Daemon/Renew.antt =====
-- What bf_cgen_update() of src/bpfilter/cgen/cgen.c makes of a program and of the stored codegens.
use bpfilter_study.Daemon.{
  Env, Link, NamedChain, BfProgram, HookOpts, M, attempt, crash, load_program, ◌>>◌, Run, run_call,
  update_link, pure, call, link_create, counters_pin, printer_pin, create_map, log_pin, allocate,
  caught, Cgen,
}
use bpfilter_study.Daemon.Programs.{
  link_update, program_load, program_new, link_update_nf, swapped, link_renew, create_all, set_pins,
  allocate_all, link_new,
}
use bpfilter_study.Daemon.Known.{
  Gives, Gives-then, Gives->>=, pure-Gives, Answered, call-Gives, crashes, Yields, yields, stops,
}
use bpfilter_study.Base.{
  Option, ℕ, ◌≡◌, length, none, some, ◌⊎◌, inl, refl, inr, ◌++◌, ◌∷◌, [], ◌+◌, ◌*◌, List, ◌≢◌, Bool,
  ◌==◌, if◌then◌else◌, ==_iff, ap, arith, true, false,
}
use bpfilter_study.Chain.{
  Hook, Flavor, nf_flavor, hook_to_flavor, tc_flavor, xdp_flavor, cgroup_flavor,
}
use mathlib.Core.Path.{subst}
use bpfilter_study.Daemon.Codegen.{replace, with_chain}

-- A netfilter link is made anew with the other priority; any other link passes on as it is.
pub data Relinked (old : Link) : Link → Type 0 where
  same_link : Relinked old old
  renewed :
      {link : Link} {opts : HookOpts}
      → old.hookopts ≡ some opts
      → link.hookopts ≡ some (swapped opts)
      → Relinked old link

-- The program is one of the chain, which the system has loaded, with the old program's link.
pub record IsNew (env : Env) (chain : NamedChain) (old p : BfProgram) : Type 0 where
  pub name : p.name ≡ chain.name
  pub hook : p.hook ≡ chain.body.hook
  pub sets : p.sets ≡ length chain.body.sets
  pub loaded : (v : ℕ) × Answered env (load_program chain.name) v × (p.prog_fd ≡ some v)
  pub link : Relinked old.link p.link

-- What a program is before its link is set.
pub record Loaded (env : Env) (chain : NamedChain) (p : BfProgram) : Type 0 where
  pub name : p.name ≡ chain.name
  pub hook : p.hook ≡ chain.body.hook
  pub sets : p.sets ≡ length chain.body.sets
  pub loaded : (v : ℕ) × Answered env (load_program chain.name) v × (p.prog_fd ≡ some v)

pub record Blank (chain : NamedChain) (p : BfProgram) : Type 0 where
  pub name : p.name ≡ chain.name
  pub hook : p.hook ≡ chain.body.hook
  pub sets : p.sets ≡ length chain.body.sets

pub program_new-Gives :
    (env : Env) (chain : NamedChain) → Gives env (program_new chain) (Blank chain)
unfolding program_new
program_new-Gives env chain = Gives-then (allocate_all (4 + 2 * length chain.body.sets)) (λ _.
    Gives-then link_new (λ _.
      Gives-then (run_call allocate)
        (λ _. pure-Gives (record { name = refl; hook = refl; sets = refl }))))

pub program_load-Gives :
    (env : Env) (chain : NamedChain) (p : BfProgram)
    → Blank chain p
    → Gives env (program_load p) (Loaded env chain)
unfolding program_load
program_load-Gives env chain p b =
    Gives-then (create_all p.name (set_pins 0 p.sets ++ counters_pin ∷ printer_pin ∷ [])) (λ _.
      Gives-then (call (create_map p.name log_pin)) (λ _.
        Gives->>= (call-Gives (load_program p.name)) (λ fd a. pure-Gives (record {
          name = b.name;
          hook = b.hook;
          sets = b.sets;
          loaded = (fd, subst (λ n. Answered env (load_program n) fd) b.name a, refl);
        }))))

link_update_nf-Gives :
    (env : Env) (link : Link) (fd : Option ℕ) (o : Option HookOpts)
    → link.hookopts ≡ o
    → Gives env {A = Link}
        (elim o [ none ↦ λ env d. crash | some opts ↦ link_renew (swapped opts) fd ])
        (Relinked link)
link_update_nf-Gives env link fd none e = record { run = λ d. crashes }
link_update_nf-Gives env link fd (some opts) e =
    Gives-then (call (link_create fd (swapped opts))) (λ _. pure-Gives (renewed e refl))

pub link_update-Gives :
    (env : Env) (link : Link) (h : Hook) (fd : Option ℕ)
    → Gives env (link_update link h fd) (Relinked link)
unfolding link_update link_update_nf
link_update-Gives env link h fd = by_flavor (hook_to_flavor h)
  where
    by_flavor :
        (fl : Flavor)
        → Gives env {A = Link}
            (elim fl [
              | nf_flavor ↦ link_update_nf link fd
              | _ ↦ (do run_call (update_link link.fd fd); pure link)
            ])
            (Relinked link)
    by_flavor nf_flavor = link_update_nf-Gives env link fd link.hookopts refl
    by_flavor tc_flavor = Gives-then (run_call (update_link link.fd fd)) (λ _. pure-Gives same_link)
    by_flavor xdp_flavor =
        Gives-then (run_call (update_link link.fd fd)) (λ _. pure-Gives same_link)
    by_flavor cgroup_flavor =
        Gives-then (run_call (update_link link.fd fd)) (λ _. pure-Gives same_link)

-- What is known of a result if it is not an error.
abbrev pub OnResult : {A : Type 0} → (A → Type 0) → A ⊎ ℕ → Type 0
OnResult K (inl a) = K a
OnResult K (inr e) = Unit {0}

pub attempt-Gives :
    {env : Env} {A : Type 0} {m : M A} {K : A → Type 0}
    → Gives env m K
    → Gives env (attempt m) (OnResult K)
attempt-Gives {A} {K} g = record { run = λ d. caught_Yields (g.run d) }
  where
    caught_Yields : {r : Run A} → Yields K r → Yields (OnResult K) (caught r)
    caught_Yields (yields j) = yields j
    caught_Yields stops = yields tt
    caught_Yields crashes = crashes

-- The codegens at an address have got the chain and the program, and no other has changed.
pub data Changed (a : ℕ) (chain : NamedChain) (p : BfProgram) : List Cgen → List Cgen → Type 0 where
  at_end : Changed a chain p [] []
  this_one :
      {c d : Cgen} {cs ds : List Cgen}
      → c.address ≡ a
      → d ≡ record { address = a; front = c.front; chain = chain; program = some p }
      → Changed a chain p cs ds
      → Changed a chain p (c ∷ cs) (d ∷ ds)
  another_one :
      {c : Cgen} {cs ds : List Cgen}
      → c.address ≢ a
      → Changed a chain p cs ds
      → Changed a chain p (c ∷ cs) (c ∷ ds)

pub replace-Changed :
    (a : ℕ) (chain : NamedChain) (p : BfProgram) (cs : List Cgen)
    → Changed a chain p cs (replace a (with_chain chain p) cs)
replace-Changed a chain p [] = at_end
replace-Changed a chain p (c ∷ cs) = by_address (c.address == a) refl (replace-Changed a chain p cs)
  where
    by_address :
        {ds : List Cgen} (b : Bool)
        → (c.address == a) ≡ b
        → Changed a chain p cs ds
        → Changed a chain p (c ∷ cs) ((if b then with_chain chain p c else c) ∷ ds)
    by_address true e rest =
        let same : c.address ≡ a = (==_iff c.address a).0 e in
        this_one same
          (ap (λ x. record { address = x; front = c.front; chain = chain; program = some p }) same)
          rest
    by_address false e rest = another_one (ground arith) rest

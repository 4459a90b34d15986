-- ===== src/Daemon/Update.antt =====
-- `chain update`: all or nothing on the stored codegens.
use bpfilter_study.Base.{ℕ, ◌≡◌, refl, sym, Option, none, some, List, inl, inr, ◌⊎◌}
use bpfilter_study.Daemon.{
  Cgen, BfProgram, NamedChain, Link, pure, ◌>>◌, error, when_persist, einval, ◌>>=◌, attempt,
  HookOpts, deref, generate, enoent, Env, Daemon,
}
use bpfilter_study.Daemon.Handlers.{Reply, empty, cli_chain_update, or_enoent}
use bpfilter_study.Daemon.Rules.{
  Does, Store, Steady-then, when_persist-Steady, Steady->>=, attempt-Steady, Does-pure, Does-error,
  pure-Steady, Does-get, Does-set, Steady, error-Steady, run_call-Steady, deref-Steady,
  After-weaken,
}
use bpfilter_study.Daemon.Valid.{Valid, Valid-chain, find_cgen-Named}
use bpfilter_study.Daemon.Codegen.{cgen_update, finish_update, replace, with_chain}
use bpfilter_study.Daemon.Context.{ctx_get_cgen, find_cgen}
use bpfilter_study.Daemon.Steady.{
  program_pin-Steady, chain_pindir-Steady, program_new-Steady, program_load-Steady,
  program_unpin-Steady, link_update-Steady,
}
use bpfilter_study.Daemon.Programs.{program_pin}
use bpfilter_study.Daemon.Known.{
  DoesIn, DoesIn-Does, In-then, DoesIn->>=, Known-then, DoesIn-attempt, deref-Gives,
}
use bpfilter_study.Daemon.Renew.{
  IsNew, Loaded, Relinked, program_new-Gives, program_load-Gives, attempt-Gives, link_update-Gives,
  OnResult, Changed,
}

abbrev pub At : List Cgen → ℕ → Store
At cs n l k = (l ≡ cs) × (k ≡ n)

-- The object at an address has got a chain and a new program, as the code replaces it.
abbrev Replaced : Env → Cgen → NamedChain → List Cgen → ℕ → Store
Replaced env c chain cs n l k =
    (old : BfProgram) × (p : BfProgram) × (c.program ≡ some old)
    × IsNew env chain old p
    × (l ≡ replace c.address (with_chain chain p) cs)
    × (k ≡ n)

module _ (env : Env) (cs : List Cgen) (n : ℕ) (c : Cgen) (chain : NamedChain) where
  finish_update-Does :
      (old p : BfProgram) (link : Link)
      → c.program ≡ some old
      → IsNew env chain old (record p { link = link })
      → Does (At cs n) (finish_update c chain p link) (λ _. Replaced env c chain cs n) (At cs n)
  unfolding finish_update
  finish_update-Does old p link eo new =
      Steady-then (λ _ _ x. x)
        (when_persist-Steady (
          Steady->>= (attempt-Steady (program_pin-Steady (record p { link = link })))
            (λ _. pure-Steady tt)))
        (λ _. Does-get (λ l.
          Does-set (replace c.address (with_chain chain (record p { link = link })) l)
            (λ k m x. (old, record p { link = link }, eo, new, rw (sym x.1, x.0.0) refl, x.0.1))))

  cgen_update-DoesIn :
      DoesIn env (At cs n) (cgen_update c chain) (λ _. Replaced env c chain cs n) (At cs n)
  unfolding cgen_update
  cgen_update-DoesIn =
      In-then (λ _ _ x. x) (when_persist-Steady (chain_pindir-Steady chain.name))
        (λ _.
          Known-then (λ _ _ x. x) (program_new-Steady chain) (program_new-Gives env chain)
            (λ p b.
              In-then (λ _ _ x. x) (run_call-Steady (generate chain.name))
                (λ _.
                  Known-then (λ _ _ x. x) (program_load-Steady p) (program_load-Gives env chain p b)
                    (λ p l.
                      Known-then (λ _ _ x. x) (deref-Steady c.program) (deref-Gives c.program)
                        (λ old eo.
                          In-then (λ _ _ x. x) (when_persist-Steady (program_unpin-Steady old))
                            (λ _.
                              Known-then (λ _ _ x. x)
                                (attempt-Steady
                                  (link_update-Steady old.link c.chain.body.hook p.prog_fd))
                                (attempt-Gives
                                  (link_update-Gives env old.link c.chain.body.hook p.prog_fd))
                                (by_result p old l eo)))))))
    where
      by_result :
          (p old : BfProgram)
          → Loaded env chain p
          → c.program ≡ some old
          → (r : Link ⊎ ℕ) → OnResult (Relinked old.link) r
          → DoesIn env {A = Unit {0}}
              (At cs n)
              (elim r [
                | inl link ↦ finish_update c chain p link
                | inr e ↦ (do when_persist (do s ← attempt (program_pin old); pure tt); error e)
              ])
              (λ _. Replaced env c chain cs n)
              (At cs n)
      by_result p old l eo (inl link) rel = DoesIn-Does (
          finish_update-Does old p link eo
            (record { name = l.name; hook = l.hook; sets = l.sets; loaded = l.loaded; link = rel }))
      by_result p old l eo (inr e) rel = DoesIn-Does (
          Steady-then (λ _ _ x. x)
            (when_persist-Steady
              (Steady->>= (attempt-Steady (program_pin-Steady old)) (λ _. pure-Steady tt)))
            (λ _. Does-error e (λ _ _ x. x)))

-- The codegen that the name leads to, replaced.
abbrev Done : Env → NamedChain → List Cgen → ℕ → Store
Done env chain cs n l k =
    (c : Cgen) × (find_cgen chain.name cs ≡ some c) × Replaced env c chain cs n l k

update-DoesIn :
    (env : Env) (chain : NamedChain) (cs : List Cgen) (n : ℕ)
    → DoesIn env (At cs n) (cli_chain_update chain) (λ _. Done env chain cs n) (At cs n)
unfolding cli_chain_update ctx_get_cgen
update-DoesIn env chain cs n = record {
  run = λ d x. (by_found (find_cgen chain.name d.cgens) (rw (x.0) refl)).run d x;
}
  where
    by_result :
        (c : Cgen)
        → find_cgen chain.name cs ≡ some c
        → (r : Unit {0} ⊎ ℕ)
        → Does {A = Reply}
            (elim r [ inl a ↦ Replaced env c chain cs n | inr e ↦ At cs n ])
            (elim r [ inl _ ↦ pure empty | inr _ ↦ error einval ])
            (λ _. Done env chain cs n)
            (At cs n)
    by_result c e (inl a) = Does-pure empty (λ _ _ x. (c, e, x))
    by_result c e (inr f) = Does-error einval (λ _ _ x. x)

    linked :
        (o : Option HookOpts)
        → Steady {A = Unit {0}} (elim o [ some _ ↦ pure tt | none ↦ error einval ])
    linked none = error-Steady einval
    linked (some o) = pure-Steady tt

    by_found :
        (o : Option Cgen)
        → find_cgen chain.name cs ≡ o
        → DoesIn env {A = Reply}
            (At cs n)
            (do
              c ← or_enoent o
              p ← deref c.program
              elim p.link.hookopts [ some _ ↦ pure tt | none ↦ error einval ]
              r ← attempt (cgen_update c chain)
              elim r [ inl _ ↦ pure empty | inr _ ↦ error einval ])
            (λ _. Done env chain cs n)
            (At cs n)
    by_found none e = DoesIn-Does (Does-error enoent (λ _ _ x. x))
    by_found (some c) e =
        In-then (λ _ _ x. x) (deref-Steady c.program)
          (λ p.
            In-then (λ _ _ x. x) (linked p.link.hookopts)
              (λ _.
                DoesIn->>= (DoesIn-attempt (cgen_update-DoesIn env cs n c chain))
                  (λ r. DoesIn-Does (by_result c e r))))

Done-Valid :
    (env : Env) (chain : NamedChain) (cs : List Cgen) (n : ℕ) (l : List Cgen) (k : ℕ)
    → Valid cs n
    → Done env chain cs n l k
    → Valid l k
Done-Valid env chain cs n l k v (c, found, (old, p, eo, new, e, f)) =
    rw (e, f) (Valid-chain c.address p chain cs n (find_cgen-Named chain.name cs n v found) v)

pub chain_update-Does :
    (chain : NamedChain) → Does Valid (cli_chain_update chain) (λ _. Valid) Valid
chain_update-Does chain = record {
  run = λ env d v.
      After-weaken (λ _ l k x. Done-Valid env chain d.cgens d.fresh l k v x)
        (λ l k x. rw (x.0, x.1) v) ((update-DoesIn env chain d.cgens d.fresh).run d (refl, refl));
}

-- What `chain update` makes of the stored codegens: the one that the name leads to has got the new
-- chain and a new program, and all others are the same.
abbrev pub Updated : Env → NamedChain → List Cgen → ℕ → Store
Updated env chain cs n l k =
    (c : Cgen) × (old : BfProgram) × (p : BfProgram) × (find_cgen chain.name cs ≡ some c)
    × (c.program ≡ some old)
    × IsNew env chain old p
    × Changed c.address chain p cs l
    × (k ≡ n)

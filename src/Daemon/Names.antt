-- ===== src/Daemon/Names.antt =====
-- Every request of src/bpfilter/xlate/cli.c keeps the stored codegens valid.
use bpfilter_study.Base.{ℕ, Option, none, some, List, [], ◌∷◌, inl, inr, ◌⊎◌}
use bpfilter_study.Daemon.{
  Cgen, NamedChain, HookOpts, cli, pure, error, ◌>>◌, eexist, ◌>>=◌, Env, Daemon,
}
use bpfilter_study.Daemon.Handlers.{
  item, broken, Item, Reply, empty, cli_chain_load, cli_chain_set, cli_ruleset_set, set_items,
  freeing, insert_or_unload,
}
use bpfilter_study.Daemon.Rules.{
  Does, Does-pure, Does->>=, Does-error, cases_Does, Does-before, Does-attempt, Does-weaken,
  Does-get, After,
}
use bpfilter_study.Daemon.Context.{ctx_get_cgen, find_cgen, ctx_flush}
use bpfilter_study.Daemon.Valid.{Valid}
use bpfilter_study.Daemon.Requests.{Holds, freeing-Does, delete_old-Does, insert_new-Does}
use bpfilter_study.Daemon.Stored.{
  cgen_new-Does, ctx_flush-Does, Valid-Survives, cgen_set-Does, Pending-Survives, cgen_load-Does,
}
use bpfilter_study.Daemon.Codegen.{cgen_new, cgen_load}

pub chain_set-Does :
    (chain : NamedChain) (opts : Option HookOpts)
    → Does Valid (cli_chain_set chain opts) (λ _. Holds chain) Valid
unfolding cli_chain_set
chain_set-Does chain opts = Does->>= (cgen_new-Does cli chain) (λ c.
    Does->>=
      (cases_Does (λ cs n x.
        Does-before (λ l k y. rw (y.0, y.1) x.1)
          (Does-weaken (λ _ _ _ q. q) (λ _ _ s. s.0)
            (freeing-Does c (
              Does->>= (delete_old-Does (Pending-Survives c.address) c.chain.name)
                (λ _. Does->>= (cgen_set-Does c opts) (λ c'. insert_new-Does c c' chain x.0)))))))
      (λ _. Does-pure empty (λ _ _ h. h)))

pub chain_load-Does :
    (chain : NamedChain) → Does Valid (cli_chain_load chain) (λ _. Holds chain) Valid
unfolding cli_chain_load ctx_get_cgen
chain_load-Does chain =
    Does-get (λ cs. Does-before (λ _ _ x. x.0) (by_found (find_cgen chain.name cs)))
  where
    by_found :
        (o : Option Cgen)
        → Does {A = Reply} Valid
            (elim o [
              | some _ ↦ error eexist
              | none ↦ (do
                cgen ← cgen_new cli chain
                freeing cgen (do cgen' ← cgen_load cgen; insert_or_unload cgen')
                pure empty)
            ])
            (λ _. Holds chain)
            Valid
    by_found (some c) = Does-error eexist (λ _ _ v. v)
    by_found none = Does->>= (cgen_new-Does cli chain) (λ c.
        Does->>=
          (cases_Does (λ cs n x.
            Does-before (λ l k y. rw (y.0, y.1) x.1)
              (Does-weaken (λ _ _ _ q. q) (λ _ _ s. s.0)
                (freeing-Does c
                  (Does->>= (cgen_load-Does c) (λ c'. insert_new-Does c c' chain x.0))))))
          (λ _. Does-pure empty (λ _ _ h. h)))

set_items-Does : (items : List Item) → Does Valid (set_items items) (λ _. Valid) Valid
unfolding set_items
set_items-Does [] = Does-pure tt (λ _ _ v. v)
set_items-Does (broken e ∷ items) = Does-error e (λ _ _ v. v)
set_items-Does (item chain opts ∷ items) = Does->>= (cgen_new-Does cli chain) (λ c.
    Does->>=
      (cases_Does (λ cs n x.
        Does-before (λ l k y. rw (y.0, y.1) x.1)
          (Does-weaken (λ _ _ _ q. q.0) (λ _ _ s. s.0)
            (freeing-Does c
              (Does->>= (cgen_set-Does c opts) (λ c'. insert_new-Does c c' chain x.0))))))
      (λ _. set_items-Does items))

pub ruleset_set-Does : (items : List Item) → Does Valid (cli_ruleset_set items) (λ _. Valid) Valid
unfolding cli_ruleset_set
ruleset_set-Does items =
    Does->>= (ctx_flush-Does Valid-Survives cli)
      (λ _. Does->>= (Does-attempt (set_items-Does items)) by_result)
  where
    by_result :
        (r : Unit {0} ⊎ ℕ)
        → Does {A = Reply}
            (elim r [ inl a ↦ Valid | inr e ↦ Valid ])
            (elim r [ inl _ ↦ pure empty | inr e ↦ (do ctx_flush cli; error e) ])
            (λ _. Valid)
            Valid
    by_result (inl a) = Does-pure empty (λ _ _ v. v)
    by_result (inr e) =
        Does->>= (ctx_flush-Does Valid-Survives cli) (λ _. Does-error e (λ _ _ v. v))

-- In a valid daemon, bpfilter's `chain set` leaves, unless it crashes, a valid daemon; after a success
-- the name of the chain leads to a codegen that holds this chain and a program.
pub cli_chain_set-Holds :
    (chain : NamedChain) (opts : Option HookOpts) (env : Env) (d : Daemon)
    → Valid d.cgens d.fresh
    → After (λ _. Holds chain) Valid (cli_chain_set chain opts env d)
cli_chain_set-Holds chain opts env d v = (chain_set-Does chain opts).run env d v

-- In a valid daemon, bpfilter's `chain load` leaves, unless it crashes, a valid daemon; after a
-- success the name of the chain leads to a codegen that holds this chain and a program.
pub cli_chain_load-Holds :
    (chain : NamedChain) (env : Env) (d : Daemon)
    → Valid d.cgens d.fresh
    → After (λ _. Holds chain) Valid (cli_chain_load chain env d)
cli_chain_load-Holds chain env d v = (chain_load-Does chain).run env d v

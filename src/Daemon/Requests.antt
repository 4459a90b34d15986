-- ===== src/Daemon/Requests.antt =====
-- The requests of src/bpfilter/xlate/cli.c on the stored codegens: every request keeps them valid,
-- and what a chain's name leads to afterwards.
use bpfilter_study.Base.{ℕ, ◌≡◌, refl, sym, Option, none, some, List, inl, inr, true, ◌⊎◌}
use bpfilter_study.Daemon.{Cgen, NamedChain, M, pure, ◌>>=◌, ◌>>◌, attempt, error}
use bpfilter_study.Daemon.Handlers.{delete_old, freeing, insert_or_unload}
use bpfilter_study.Daemon.Rules.{
  Does, Store, Does-before, Does-weaken, cases_Does, Does-pure, Does->>=, Steady-then, Does-attempt,
  Does-error, Does-get,
}
use bpfilter_study.Daemon.Valid.{HasProgram, Valid}
use bpfilter_study.Daemon.Stored.{
  Found, Loaded, Pending, Survives, cgen_unload-Does, Pending-Survives, ctx_delete_cgen-Does,
  ctx_set_cgen-Does,
}
use bpfilter_study.Daemon.Context.{ctx_get_cgen, find_cgen, ctx_delete_cgen}
use mathlib.Core.Path.{subst}
use bpfilter_study.Daemon.Codegen.{cgen_free, cgen_unload, with_program}
use bpfilter_study.Daemon.Steady.{cgen_free-Steady}

pub freeing-Does :
    {A : Type 0} {P S : Store} (c : Cgen) {m : M A} {Q : A → Store}
    → Does P m Q S
    → Does P (freeing c m) Q S
unfolding freeing
freeing-Does {A} {P} {S} c {m} {Q} x = Does->>= (Does-attempt x) by_result
  where
    by_result :
        (r : A ⊎ ℕ)
        → Does {A = A}
            (elim r [ inl a ↦ Q a | inr e ↦ S ])
            (elim r [ inl a ↦ pure a | inr e ↦ (do cgen_free c; error e) ])
            Q
            S
    by_result (inl a) = Does-pure a (λ _ _ q. q)
    by_result (inr e) =
        Steady-then (λ _ _ s. s) (cgen_free-Steady c) (λ _. Does-error e (λ _ _ s. s))

pub insert_or_unload-Does :
    (c : Cgen)
    → HasProgram c
    → Does (Pending c.address) (insert_or_unload c) (λ _. Found c) (Pending c.address)
unfolding insert_or_unload
insert_or_unload-Does c p = Does->>= (Does-attempt (ctx_set_cgen-Does c p)) by_result
  where
    by_result :
        (r : Unit {0} ⊎ ℕ)
        → Does {A = Unit {0}}
            (elim r [ inl a ↦ Found c | inr e ↦ Pending c.address ])
            (elim r [ inl _ ↦ pure tt | inr e ↦ (do cgen_unload c; error e) ])
            (λ _. Found c)
            (Pending c.address)
    by_result (inl a) = Does-pure tt (λ _ _ q. q)
    by_result (inr e) =
        Does->>= (cgen_unload-Does (Pending-Survives c.address) c) (λ _. Does-error e (λ _ _ s. s))

-- The name of a chain leads to a codegen with this chain and a program.
abbrev pub Holds : NamedChain → Store
Holds chain cs n =
    Valid cs n
    × ((c : Cgen) × (c.chain ≡ chain) × HasProgram c × (find_cgen chain.name cs ≡ some c))

Found-Holds :
    (c : Cgen) (chain : NamedChain) (cs : List Cgen) (n : ℕ)
    → c.chain ≡ chain
    → HasProgram c
    → Found c cs n
    → Holds chain cs n
Found-Holds c chain cs n e p f =
    (f.0, (c, e, p, subst (λ (ch : NamedChain). find_cgen ch.name cs ≡ some c) e f.1))

pub insert_new-Does :
    (c c' : Cgen) (chain : NamedChain)
    → c.chain ≡ chain
    → Does
        (λ cs n. Loaded c c' × Pending c.address cs n)
        (insert_or_unload c')
        (λ _. Holds chain)
        (Pending c.address)
insert_new-Does c c' chain e = cases_Does (λ cs n x. by_loaded cs n x.0 x.1)
  where
    by_loaded :
        (cs : List Cgen) (n : ℕ)
        → Loaded c c'
        → Pending c.address cs n
        → Does
            (λ l k. (l ≡ cs) × (k ≡ n))
            (insert_or_unload c')
            (λ _. Holds chain)
            (Pending c.address)
    by_loaded cs n (p, q) x =
        subst
          (λ c'.
            Does (λ l k. (l ≡ cs) × (k ≡ n)) (insert_or_unload c') (λ _. Holds chain)
              (Pending c.address))
          (sym q)
          (Does-before (λ l k y. rw (y.0, y.1) x)
            (Does-weaken (λ _ l k f. Found-Holds (with_program p c) chain l k e (p, refl) f)
              (λ _ _ s. s) (insert_or_unload-Does (with_program p c) (p, refl))))

pub delete_old-Does : {P : Store} (s : Survives P) (name : ℕ) → Does P (delete_old name) (λ _. P) P
unfolding delete_old ctx_get_cgen
delete_old-Does {P} s name =
    Does-get (λ cs. Does-before (λ _ _ x. x.0) (by_found (find_cgen name cs)))
  where
    by_found :
        (o : Option Cgen)
        → Does {A = Unit {0}} P
            (elim o [
              | none ↦ pure tt
              | some c ↦ (do r ← attempt (ctx_delete_cgen c.address true); pure tt)
            ])
            (λ _. P)
            P
    by_found none = Does-pure tt (λ _ _ x. x)
    by_found (some c) = Does->>= (Does-attempt (ctx_delete_cgen-Does s c.address true)) by_result
      where
        by_result :
            (r : Unit {0} ⊎ ℕ) → Does (elim r [ inl a ↦ P | inr e ↦ P ]) (pure tt) (λ _. P) P
        by_result (inl a) = Does-pure tt (λ _ _ x. x)
        by_result (inr e) = Does-pure tt (λ _ _ x. x)

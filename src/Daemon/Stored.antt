-- ===== src/Daemon/Stored.antt =====
-- The functions of src/bpfilter/cgen/cgen.c and src/bpfilter/ctx.c on the stored codegens.
use bpfilter_study.Base.{
  ℕ, ◌<◌, ◌≡◌, refl, Option, none, some, List, [], ◌∷◌, ◌++◌, arith, inl, inr, Bool, true, false,
  if◌then◌else◌, ◌⊎◌,
}
use bpfilter_study.Daemon.{
  Cgen, BfProgram, NamedChain, HookOpts, Front, error, eexist, enoent, pure, ◌>>◌, run_call,
  allocate, einval, set_cgens, generate, new_address,
}
use bpfilter_study.Daemon.Rules.{
  Store, Does, Does-get, Does-pure, Steady-then, Does->>=, Does-before, Does-set, deref-Steady,
  when_persist-Steady, Does-error, attempt-Steady, Steady-Does, run_call-Steady, after_ok,
}
use bpfilter_study.Daemon.Valid.{
  Valid, Valid-program, AddressFree, HasProgram, Valid-without, program-AddressFree,
  without-AddressFree, find_cgen-none, Valid-append, Valid-fresh, find_cgen-append,
  fresh-AddressFree,
}
use bpfilter_study.Daemon.Codegen.{
  cgen_load, cgen_new, cgen_set, with_program, cgen_unload, replace, set_program, unload_program,
  cgen_free_chain,
}
use bpfilter_study.Daemon.Context.{
  ctx_set_cgen, ctx_delete_cgen, ctx_flush, find_cgen, flush_cgens, drop_cgen, unload_if, without,
  same_front, cgen_at,
}
use bpfilter_study.Daemon.Steady.{
  chain_pindir-Steady, program_unpin-Steady, program_new-Steady, program_unload-Steady,
  cgen_free-Steady, cgen_free_chain-Steady, program_load-Steady, attach_if-Steady,
  program_pin-Steady,
}
use mathlib.Core.Path.{subst}
use bpfilter_study.Chain.{chain_validate}

-- A property that survives the writes of an unloading and a removal.
pub record Survives (P : Store) : Type 0 where
  pub unloaded :
      (a : ℕ) (p : BfProgram) (cs : List Cgen) (n : ℕ)
      → P cs n
      → P (replace a (with_program p) cs) n
  pub removed : (a : ℕ) (cs : List Cgen) (n : ℕ) → P cs n → P (without a cs) n

pub Valid-Survives : Survives Valid
Valid-Survives = record { unloaded = Valid-program; removed = Valid-without }

-- A codegen that is not stored yet.
abbrev pub Pending : ℕ → Store
Pending a cs n = Valid cs n × (a < n) × AddressFree a cs

pub Pending-Survives : (a : ℕ) → Survives (Pending a)
Pending-Survives a = record {
  unloaded = λ b p cs n x. (Valid-program b p cs n x.0, x.1, program-AddressFree b p a cs x.2);
  removed = λ b cs n x. (Valid-without b cs n x.0, x.1, without-AddressFree b a cs x.2);
}

module _ {P : Store} (s : Survives P) where
  pub set_program-Does : (a : ℕ) (p : BfProgram) → Does P (set_program a p) (λ _. P) P
  unfolding set_program
  set_program-Does a p = Does-get (λ cs.
      Does-set (replace a (with_program p) cs)
        (λ l n x. s.unloaded a p cs n (subst (λ l. P l n) x.1 x.0)))

  unload_program-Does : (c : Cgen) → Does P (unload_program c) (λ _. P) P
  unload_program-Does c =
      Steady-then (λ _ _ x. x) (deref-Steady c.program)
        (λ p.
          Steady-then (λ _ _ x. x) (program_unpin-Steady p)
            (λ _.
              Steady-then (λ _ _ x. x) (program_unload-Steady p)
                (λ p'. set_program-Does c.address p')))

  pub cgen_unload-Does : (c : Cgen) → Does P (cgen_unload c) (λ _. P) P
  unfolding cgen_unload
  cgen_unload-Does c =
      Steady-then (λ _ _ x. x) (attempt-Steady (chain_pindir-Steady c.chain.name)) by_result
    where
      by_result :
          (r : Unit {0} ⊎ ℕ)
          → Does P (elim r [ inl _ ↦ unload_program c | inr e ↦ pure tt ]) (λ _. P) P
      by_result (inl u) = unload_program-Does c
      by_result (inr e) = Does-pure tt (λ _ _ x. x)

  unload_if-Does : (unload : Bool) (c : Cgen) → Does P (unload_if unload c) (λ _. P) P
  unload_if-Does true c = cgen_unload-Does c
  unload_if-Does false c = Does-pure tt (λ _ _ x. x)

  drop_cgen-Does : (c : Cgen) → Does P (drop_cgen c) (λ _. P) P
  drop_cgen-Does c = Does-get (λ cs.
      Does->>=
        (Does-set {S = P} (without c.address cs)
          (λ l n x. s.removed c.address cs n (subst (λ l. P l n) x.1 x.0)))
        (λ _. Steady-Does (λ _ _ x. x) (cgen_free-Steady c)))

  pub ctx_delete_cgen-Does : (a : ℕ) (unload : Bool) → Does P (ctx_delete_cgen a unload) (λ _. P) P
  unfolding ctx_delete_cgen
  ctx_delete_cgen-Does a unload = Does-get (λ cs. by_found (cgen_at a cs) (λ l n x. x.0))
    where
      by_found :
          {T : Store} (c : Option Cgen)
          → ((l : List Cgen) (n : ℕ) → T l n → P l n)
          → Does {A = Unit {0}} T
              (elim c [ none ↦ error enoent | some c ↦ (do unload_if unload c; drop_cgen c) ])
              (λ _. P)
              P
      by_found none f = Does-error enoent f
      by_found (some c) f =
          Does-before f (Does->>= (unload_if-Does unload c) (λ _. drop_cgen-Does c))

  flush_cgens-Does : (front : Front) (cs : List Cgen) → Does P (flush_cgens front cs) (λ _. P) P
  unfolding flush_cgens
  flush_cgens-Does front [] = Does-pure tt (λ _ _ x. x)
  flush_cgens-Does front (c ∷ cs) =
      Does->>= (one (same_front c.front front)) (λ _. flush_cgens-Does front cs)
    where
      one : (b : Bool) → Does P (if b then (do cgen_unload c; drop_cgen c) else pure tt) (λ _. P) P
      one true = Does->>= (cgen_unload-Does c) (λ _. drop_cgen-Does c)
      one false = Does-pure tt (λ _ _ x. x)

  pub ctx_flush-Does : (front : Front) → Does P (ctx_flush front) (λ _. P) P
  unfolding ctx_flush
  ctx_flush-Does front = Does-get (λ cs. Does-before (λ l n x. x.0) (flush_cgens-Does front cs))

new_address-Does : {S : Store} → Does Valid new_address Pending S
new_address-Does = record {
  run = λ env d v.
      after_ok (Valid-fresh d.cgens d.fresh v, omega arith, fresh-AddressFree d.cgens d.fresh v);
}

-- A new codegen stands for its chain, under an address that no stored codegen has.
pub cgen_new-Does :
    (front : Front) (chain : NamedChain)
    → Does Valid (cgen_new front chain) (λ c cs n. (c.chain ≡ chain) × Pending c.address cs n) Valid
unfolding cgen_new
cgen_new-Does front chain =
    Steady-then (λ _ _ x. x) (run_call-Steady allocate)
      (λ _. Does->>= new_address-Does (λ a. by_valid a (chain_validate chain.body)))
  where
    by_valid :
        (a : ℕ) (b : Bool)
        → Does {A = Cgen}
            (Pending a)
            (if b
              then pure (record { address = a; front = front; chain = chain; program = none })
              else (do cgen_free_chain none; error einval))
            (λ c cs n. (c.chain ≡ chain) × Pending c.address cs n)
            Valid
    by_valid a true = Does-pure _ (λ _ _ x. (refl, x))
    by_valid a false =
        Steady-then (λ _ _ x. x.0) (cgen_free_chain-Steady none)
          (λ _. Does-error einval (λ _ _ x. x.0))

-- A codegen and the same one with a program.
abbrev pub Loaded : Cgen → Cgen → Type 0
Loaded c c' = (p : BfProgram) × (c' ≡ with_program p c)

pub cgen_set-Does :
    {P : Store} (c : Cgen) (opts : Option HookOpts)
    → Does P (cgen_set c opts) (λ c' cs n. Loaded c c' × P cs n) P
unfolding cgen_set
cgen_set-Does c opts =
    Steady-then (λ _ _ x. x) (when_persist-Steady (chain_pindir-Steady c.chain.name))
      (λ _.
        Steady-then (λ _ _ x. x) (program_new-Steady c.chain)
          (λ p.
            Steady-then (λ _ _ x. x) (run_call-Steady (generate c.chain.name))
              (λ _.
                Steady-then (λ _ _ x. x) (program_load-Steady p)
                  (λ p.
                    Steady-then (λ _ _ x. x) (attach_if-Steady p opts)
                      (λ p.
                        Steady-then (λ _ _ x. x) (when_persist-Steady (program_pin-Steady p))
                          (λ _. Does-pure (with_program p c) (λ _ _ x. ((p, refl), x))))))))

pub cgen_load-Does :
    {P : Store} (c : Cgen) → Does P (cgen_load c) (λ c' cs n. Loaded c c' × P cs n) P
unfolding cgen_load
cgen_load-Does c =
    Steady-then (λ _ _ x. x) (when_persist-Steady (chain_pindir-Steady c.chain.name))
      (λ _.
        Steady-then (λ _ _ x. x) (program_new-Steady c.chain)
          (λ p.
            Steady-then (λ _ _ x. x) (run_call-Steady (generate c.chain.name))
              (λ _.
                Steady-then (λ _ _ x. x) (program_load-Steady p)
                  (λ p.
                    Steady-then (λ _ _ x. x) (when_persist-Steady (program_pin-Steady p))
                      (λ _. Does-pure (with_program p c) (λ _ _ x. ((p, refl), x)))))))

-- What holds once a codegen is stored: its name leads to it.
abbrev pub Found : Cgen → Store
Found c cs n = Valid cs n × (find_cgen c.chain.name cs ≡ some c)

pub ctx_set_cgen-Does :
    (c : Cgen)
    → HasProgram c
    → Does (Pending c.address) (ctx_set_cgen c) (λ _. Found c) (Pending c.address)
unfolding ctx_set_cgen
ctx_set_cgen-Does c p = Does-get (λ cs. by_found cs (find_cgen c.chain.name cs) refl)
  where
    by_found :
        (cs : List Cgen) (o : Option Cgen)
        → find_cgen c.chain.name cs ≡ o
        → Does
            (λ l n. Pending c.address l n × (l ≡ cs))
            (elim o [
              | some _ ↦ error eexist
              | none ↦ (do run_call allocate; set_cgens (cs ++ c ∷ []))
            ])
            (λ _. Found c)
            (Pending c.address)
    by_found cs (some o) e = Does-error eexist (λ _ _ x. x.0)
    by_found cs none e =
        let free = find_cgen-none c.chain.name cs e in
        Steady-then (λ _ _ x. x.0) (run_call-Steady allocate)
          (λ _. Does-set (cs ++ c ∷ []) (λ l n x.
            let pending : Pending c.address cs n = subst (λ l. Pending c.address l n) x.1 x.0 in
            (Valid-append cs n c pending.0 pending.1 pending.2 free p, find_cgen-append cs c free)))

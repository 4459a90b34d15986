-- ===== src/Daemon/Flush.antt =====
-- `chain flush`: the name of the chain leads to nothing any more.
use bpfilter_study.Base.{
  ℕ, ◌≡◌, ◌≢◌, refl, sym, Option, none, some, List, [], ◌∷◌, arith, ◌==◌, Bool-cases, inl, inr,
  true, ap, false,
}
use bpfilter_study.Daemon.{Cgen, BfProgram, error, ◌>>=◌, enoent, ◌>>◌, pure, Env, Daemon}
use bpfilter_study.Daemon.Handlers.{Reply, empty, cli_chain_flush, or_enoent}
use bpfilter_study.Daemon.Valid.{AddressFree, NameFree, Valid, Valid-program, Valid-without}
use bpfilter_study.Daemon.Rules.{
  Does, Store, Does-get, Does->>=, Does-set, Steady-Does, Does-error, Does-before, Does-pure,
  Does-weaken, After,
}
use bpfilter_study.Daemon.Stored.{Survives, cgen_unload-Does}
use bpfilter_study.Daemon.Context.{
  cgen_at, ctx_delete_cgen, find_cgen, without, ctx_get_cgen, drop_cgen, unload_if,
}
use bpfilter_study.Daemon.Codegen.{replace, with_program}
use mathlib.Core.Path.{subst}
use bpfilter_study.Daemon.Steady.{cgen_free-Steady}

-- Only the object at the address has the name.
abbrev Alone : ℕ → ℕ → List Cgen → Type 0
Alone a name [] = Unit
Alone a name (c ∷ cs) = (c.chain.name ≡ name → c.address ≡ a) × Alone a name cs

NameFree-Alone : (a name : ℕ) (cs : List Cgen) → NameFree name cs → Alone a name cs
NameFree-Alone a name [] f = tt
NameFree-Alone a name (c ∷ cs) f = (λ e. absurd (f.0 e), NameFree-Alone a name cs f.1)

Alone-NameFree :
    (a name : ℕ) (cs : List Cgen) → AddressFree a cs → Alone a name cs → NameFree name cs
Alone-NameFree a name [] f l = tt
Alone-NameFree a name (c ∷ cs) f l = (λ e. f.0 (l.0 e), Alone-NameFree a name cs f.1 l.1)

find_cgen-Alone :
    (name : ℕ) (cs : List Cgen) (n : ℕ) {c : Cgen}
    → Valid cs n
    → find_cgen name cs ≡ some c
    → Alone c.address name cs
unfolding find_cgen
find_cgen-Alone name [] n v e = tt
find_cgen-Alone name (x ∷ cs) n {c} v e = elim (Bool-cases (x.chain.name == name)) [
  | inl h ↦
      let same : x ≡ c = ground arith in
      (
        λ _. ap (λ (y : Cgen). y.address) same,
        NameFree-Alone c.address name cs (subst (λ m. NameFree m cs) (find_cgen-same h) v.2),
      )
  | inr h ↦ (λ q. ground arith, find_cgen-Alone name cs n v.4 (rw h at e))
]
  where
    find_cgen-same : (x.chain.name == name) ≡ true → x.chain.name ≡ name
    find_cgen-same h = ground arith

abbrev Only : ℕ → ℕ → Store
Only a name cs n = Valid cs n × Alone a name cs

program-Alone :
    (a name b : ℕ) (p : BfProgram) (cs : List Cgen)
    → Alone a name cs
    → Alone a name (replace b (with_program p) cs)
program-Alone a name b p [] l = tt
program-Alone a name b p (c ∷ cs) l = elim (Bool-cases (c.address == b)) [
  | inl h ↦ rw h (l.0, program-Alone a name b p cs l.1)
  | inr h ↦ rw h (l.0, program-Alone a name b p cs l.1)
]

without-Alone : (a name b : ℕ) (cs : List Cgen) → Alone a name cs → Alone a name (without b cs)
unfolding without
without-Alone a name b [] l = tt
without-Alone a name b (c ∷ cs) l = elim (Bool-cases (c.address == b)) [
  | inl h ↦ rw h l.1
  | inr h ↦ rw h (l.0, without-Alone a name b cs l.1)
]

Only-Survives : (a name : ℕ) → Survives (Only a name)
Only-Survives a name = record {
  unloaded = λ b p cs n x. (Valid-program b p cs n x.0, program-Alone a name b p cs x.1);
  removed = λ b cs n x. (Valid-without b cs n x.0, without-Alone a name b cs x.1);
}

without-NameFree :
    (a name : ℕ) (cs : List Cgen) (n : ℕ) → Only a name cs n → NameFree name (without a cs)
unfolding without
without-NameFree a name [] n x = tt
without-NameFree a name (c ∷ cs) n (v, l) = elim (Bool-cases (c.address == a)) [
  | inl h ↦ rw h (Alone-NameFree a name cs (subst (λ b. AddressFree b cs) (same h) v.1) l.1)
  | inr h ↦ rw h (λ e. other h (l.0 e), without-NameFree a name cs n (v.4, l.1))
]
  where
    same : (c.address == a) ≡ true → c.address ≡ a
    same h = ground arith

    other : (c.address == a) ≡ false → c.address ≢ a
    other h e = ground arith

-- The name is not used.
abbrev pub Gone : ℕ → Store
Gone name cs n = Valid cs n × NameFree name cs

drop_cgen-Gone :
    (c : Cgen) (name : ℕ) → Does (Only c.address name) (drop_cgen c) (λ _. Gone name) Valid
drop_cgen-Gone c name = Does-get (λ cs.
    Does->>= {Q = λ _. Gone name}
      (Does-set (without c.address cs) (λ l n x.
        let only : Only c.address name cs n = subst (λ l. Only c.address name l n) x.1 x.0 in
        (Valid-without c.address cs n only.0, without-NameFree c.address name cs n only)))
      (λ _. Steady-Does (λ _ _ x. x.0) (cgen_free-Steady c)))

cgen_at-address : (a : ℕ) (cs : List Cgen) {c : Cgen} → cgen_at a cs ≡ some c → c.address ≡ a
unfolding cgen_at
cgen_at-address a [] e = absurd (cc)
cgen_at-address a (x ∷ cs) {c} e = elim (Bool-cases (x.address == a)) [
  | inl h ↦ ground arith
  | inr h ↦ cgen_at-address a cs (rw h at e)
]

delete-Gone : (a name : ℕ) → Does (Only a name) (ctx_delete_cgen a true) (λ _. Gone name) Valid
unfolding ctx_delete_cgen
delete-Gone a name = Does-get (λ cs. by_found cs (cgen_at a cs) refl)
  where
    by_found :
        (cs : List Cgen) (o : Option Cgen)
        → cgen_at a cs ≡ o
        → Does {A = Unit {0}}
            (λ l n. Only a name l n × (l ≡ cs))
            (elim o [ none ↦ error enoent | some c ↦ (do unload_if true c; drop_cgen c) ])
            (λ _. Gone name)
            Valid
    by_found cs none e = Does-error enoent (λ _ _ x. x.0.0)
    by_found cs (some c) e =
        Does-before (λ l n x. subst (λ b. Only b name l n) (sym (cgen_at-address a cs e)) x.0)
          (Does->>=
            (Does-weaken (λ _ _ _ q. q) (λ _ _ s. s.0)
              (cgen_unload-Does (Only-Survives c.address name) c))
            (λ _. drop_cgen-Gone c name))

pub chain_flush-Does : (name : ℕ) → Does Valid (cli_chain_flush name) (λ _. Gone name) Valid
unfolding cli_chain_flush ctx_get_cgen
chain_flush-Does name = Does-get (λ cs. by_found cs (find_cgen name cs) refl)
  where
    by_found :
        (cs : List Cgen) (o : Option Cgen)
        → find_cgen name cs ≡ o
        → Does {A = Reply}
            (λ l n. Valid l n × (l ≡ cs))
            (do c ← or_enoent o; ctx_delete_cgen c.address true; pure empty)
            (λ _. Gone name)
            Valid
    by_found cs none e = Does-error enoent (λ _ _ x. x.0)
    by_found cs (some c) e =
        Does-before (λ l n x. (x.0, find_cgen-Alone name l n {c = c} x.0 (rw (x.1) e)))
          (Does->>= (delete-Gone c.address name) (λ _. Does-pure empty (λ _ _ g. g)))

-- In a valid daemon, bpfilter's `chain flush` leaves, unless it crashes, a valid daemon; after a
-- success the name of the chain leads to no codegen.
pub cli_chain_flush-Gone :
    (name : ℕ) (env : Env) (d : Daemon)
    → Valid d.cgens d.fresh
    → After (λ _. Gone name) Valid (cli_chain_flush name env d)
cli_chain_flush-Gone name env d v = (chain_flush-Does name).run env d v

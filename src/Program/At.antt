-- ===== src/Program/At.antt =====
-- Generators that read the flavor of the program: their code for a program that starts from `p`.
use bpfilter_study.Base.{List, ◌++◌, sym, ap}
use bpfilter_study.Program.{Env, Program, M, ◌>>◌}
use bpfilter_study.Chain.{Flavor}
use bpfilter_study.Fixup.{Cell}
use bpfilter_study.Program.Extends.{Extends, Emits-Extends, Extends->>}
use bpfilter_study.Program.Emits.{IsSized, Emits, Returns, Appends}
use mathlib.Core.Path.{subst}
use mathlib.Core.List.{append_assoc}

abbrev pub EmitsAt : (env : Env) → Program → {A : Type 0} → M A → List Cell → Type 0
EmitsAt env p m ds = (cs : List Cell) → Extends env p cs m (cs ++ ds)

module _ {env : Env} {p : Program} where
  pub at_of_Emits :
      {A : Type 0} {m : M A} {ds : List Cell} → IsSized p → Emits env m ds → EmitsAt env p m ds
  at_of_Emits {ds} s e = λ cs. Emits-Extends cs ds s e

  pub at_then :
      {A : Type 0} {m : M (Unit {0})} {k : M A} (ds es : List Cell)
      → EmitsAt env p m ds
      → EmitsAt env p k es
      → EmitsAt env p (m >> k) (ds ++ es)
  at_then {m} {k} ds es a b = λ cs.
      subst (λ l. Extends env p cs (m >> k) l) (append_assoc cs ds es)
        (Extends->> (a cs) (b (cs ++ ds)))

  -- A generator that looks at the flavor.
  pub at_flavor :
      {A : Type 0} (f : Flavor → M A) {ds : List Cell}
      → EmitsAt env p (f p.flavor) ds
      → EmitsAt env p (λ env q. f q.flavor env q) ds
  at_flavor f {ds} h = λ cs. record {
    run = λ q a.
        subst (λ l. Returns (Appends p (cs ++ ds)) (f l env q))
          (sym (ap (λ (w : Program). w.flavor) a.same)) ((h cs).run q a);
  }

-- ===== src/Cgen/Rule/Chain.antt =====
-- What the code of all rules of a chain does.
use bpfilter_study.Base.{
  List, Bool, true, ◌≡◌, ◌∷◌, [], ◌&&◌, some, leb, none, false, length, ℕ, ◌++◌, ◌≤◌, Option, arith,
  not, ap, ◌+◌, ◌∙◌, refl, sym,
}
use bpfilter_study.Program.{Env, Program, M, Result, ◌>>◌, with_result}
use bpfilter_study.Chain.{Flavor, Rule, rule_mark_is_set}
use bpfilter_study.Machine.{Kernel, Outcome, fell, Machine, exec, exited}
use bpfilter_study.Machine.Decides.{View, view}
use bpfilter_study.Fixup.{Cell, Fixup, jmp_next_rule, FixupType, same_type}
use bpfilter_study.Cgen.Rule.Matchers.{all_match, all_supported, room, generate_matchers-Implements}
use bpfilter_study.Cgen.Rule.{program_generate_rules, generate_matchers, program_generate_rule}
use bpfilter_study.Cgen.Rule.Meaning.{rule_cells, rule-Extends, rule-decides}
use bpfilter_study.Cgen.Rule.Actions.{RuleDone, passed, returned, continued}
use bpfilter_study.Cgen.Rule.Correct.{verdict_value, can_mark, action_cells}
use bpfilter_study.Machine.Seq.{and_then, exec-append}
use mathlib.Core.Path.{subst}
use bpfilter_study.Program.Emits.{
  Appends, IsAmple, IsSized, Returns, returns, Appends-nil, Appends-trans, fixups_at,
  Appends-IsSized,
}
use bpfilter_study.Cgen.Implements.{Implements}
use bpfilter_study.Cgen.Resolve.Correct.{lacks}
use mathlib.Core.Bool.{and-eq-true_iff}
use bpfilter_study.Machine.Link.{resolve}
use bpfilter_study.Cgen.Rule.Effects.{Acts, Kept, Acts-Kept}

-- What the rules may do to a packet: one that matches performs its actions, and with a terminal
-- verdict returns the verdict's value; with `continue` the next rules meet the state that the actions
-- leave. One that does not match passes on the state; behind the last rule the code goes on.
pub data RulesDone (k : Kernel) (fl : Flavor) : View → List Rule → Outcome → Type 0 where
  at_end : {m : Machine} → RulesDone k fl (view m) [] (fell 0 m)
  returns_value :
      {v : View} {r : Rule} {rs : List Rule} {at by m : Machine}
      → all_match r.matchers v ≡ true
      → view at ≡ v
      → Acts k r at by
      → verdict_value fl r.verdict ≡ some (m.reg 0)
      → m.mem ≡ by.mem
      → RulesDone k fl v (r ∷ rs) (exited m)
  goes_on :
      {v : View} {r : Rule} {rs : List Rule} {at by : Machine} {o : Outcome}
      → all_match r.matchers v ≡ true
      → view at ≡ v
      → Acts k r at by
      → verdict_value fl r.verdict ≡ none
      → Kept v (view by)
      → RulesDone k fl (view by) rs o
      → RulesDone k fl v (r ∷ rs) o
  passes :
      {v : View} {r : Rule} {rs : List Rule} {o : Outcome}
      → all_match r.matchers v ≡ false
      → RulesDone k fl v rs o
      → RulesDone k fl v (r ∷ rs) o

-- The generator, run with no jump to a next rule pending, appends the cells and leaves none.
pub record Linked (p : Program) (cs : List Cell) (p' : Program) : Type 0 where
  pub appends : Appends p cs p'
  pub clean : lacks jmp_next_rule p'.fixups ≡ true

pub record Links (env : Env) (fl : Flavor) (m : M (Unit {0})) (cs : List Cell) : Type 0 where
  pub run :
      (p : Program)
      → IsSized p
      → lacks jmp_next_rule p.fixups ≡ true
      → p.flavor ≡ fl
      → Returns (Linked p cs) (m env p)

-- The code of the rules of a chain, in a program of the flavor.
pub record RulesCode (env : Env) (k : Kernel) (fl : Flavor) (rs : List Rule) : Type 0 where
  pub cells : List Cell
  pub emits : Links env fl (program_generate_rules rs) cells
  pub decides : (m : Machine) → RulesDone k fl (view m) rs (exec k cells 0 m)

-- The rules that the proofs cover, for a flavor.
abbrev pub rules_supported : Flavor → List Rule → Bool
rules_supported fl [] = true
rules_supported fl (r ∷ rs) =
    all_supported r.matchers
    && (can_mark fl (rule_mark_is_set r) && (leb (length r.matchers) 4000 && rules_supported fl rs))

then-done :
    (fl : Flavor) (k : Kernel) (v : View) (r : Rule) (rs : List Rule) (ds : List Cell) (b : Bool)
    (o : Outcome)
    → all_match r.matchers v ≡ b
    → RuleDone k fl r v b o
    → ((m : Machine) → RulesDone k fl (view m) rs (exec k ds 0 m))
    → RulesDone k fl v (r ∷ rs) (and_then o (exec k ds))
then-done fl k v r rs ds b o e (passed {m} q) h =
    passes e (subst (λ w. RulesDone k fl w rs (exec k ds 0 m)) q (h m))
then-done fl k v r rs ds b o e (returned s a q n) h = returns_value e s a q n
then-done fl k v r rs ds b o e (continued {m} s a q) h =
    goes_on e s a q (subst (λ w. Kept w (view m)) s (Acts-Kept a)) (h m)

lacks-append :
    (fs gs : List Fixup)
    → lacks jmp_next_rule fs ≡ true
    → lacks jmp_next_rule gs ≡ true
    → lacks jmp_next_rule (fs ++ gs) ≡ true
lacks-append [] gs hf hg = hg
lacks-append (f ∷ fs) gs hf hg =
    let both =
      (and-eq-true_iff (not (same_type jmp_next_rule f.type)) (lacks jmp_next_rule fs)).0 hf in
    rw (both.0) (lacks-append fs gs both.1 hg)

-- Resolved code has no jump pending.
lacks-resolve : (b : ℕ) (cs : List Cell) → lacks jmp_next_rule (fixups_at b (resolve cs)) ≡ true
unfolding same_type
lacks-resolve b [] = refl
lacks-resolve b (c ∷ cs) = of_pending c.pending (lacks-resolve (b + 1) cs)
  where
    of_pending :
        (o : Option (FixupType × ℕ))
        → lacks jmp_next_rule (fixups_at (b + 1) (resolve cs)) ≡ true
        → lacks jmp_next_rule (fixups_at b (resolve (record { insn = c.insn; pending = o } ∷ cs)))
          ≡ true
    of_pending none h = h
    of_pending (some (jmp_next_rule, a)) h = h
    of_pending (some (_, a)) h = h

with_clean :
    (p : Program) (cs : List Cell) {r : Result (Unit {0} × Program)}
    → lacks jmp_next_rule p.fixups ≡ true
    → Returns (Appends p (resolve cs)) r
    → Returns (Linked p (resolve cs)) r
with_clean p cs h (returns a) = returns (record {
  appends = a;
  clean = rw (a.fixups) (lacks-append p.fixups _ h (lacks-resolve p.img_size cs));
})

rule-Links :
    {env : Env} {k : Kernel} (fl : Flavor) (r : Rule)
    (i : Implements env k (room r.matchers) (generate_matchers r.matchers) (all_match r.matchers))
    → IsAmple env
    → can_mark fl (rule_mark_is_set r) ≡ true
    → length r.matchers ≤ 4000
    → Links env fl (program_generate_rule r) (rule_cells i.cells fl r)
rule-Links {env} {k} fl r i ample hm hl = record {
  run = λ p s h e.
      let hm' : can_mark p.flavor (rule_mark_is_set r) ≡ true = rw e hm in
      subst (λ l. Returns (Linked p (rule_cells i.cells l r)) (program_generate_rule r env p)) e
        (with_clean p (i.cells ++ action_cells p.flavor r) h
          ((rule-Extends r i hl p ample s h hm').run p (Appends-nil p)));
}

Linked-trans :
    {p q : Program} {cs ds : List Cell} {r : Result (Unit {0} × Program)}
    → Linked p cs q
    → Returns (Linked q ds) r
    → Returns (Linked p (cs ++ ds)) r
Linked-trans a (returns b) =
    returns (record { appends = Appends-trans a.appends b.appends; clean = b.clean })

then-Returns :
    {env : Env} {fl : Flavor} (k : M (Unit {0})) (ds : List Cell) (p : Program) (cs : List Cell)
    (r : Result (Unit {0} × Program))
    → IsSized p
    → p.flavor ≡ fl
    → Returns (Linked p cs) r
    → Links env fl k ds
    → Returns (Linked p (cs ++ ds)) (with_result r (λ a. k env))
then-Returns k ds p cs r s e (returns {p = q} a) next = Linked-trans a (
    next.run q (Appends-IsSized s a.appends) a.clean
      (ap (λ (w : Program). w.flavor) a.appends.same ∙ e))

Links->> :
    {env : Env} {fl : Flavor} {m k : M (Unit {0})} {cs ds : List Cell}
    → Links env fl m cs
    → Links env fl k ds
    → Links env fl (m >> k) (cs ++ ds)
Links->> {env} {m} {k} {cs} {ds} a b = record {
  run = λ p s h e. then-Returns k ds p cs (m env p) s e (a.run p s h e) b;
}

-- The code of a chain's rules does what the rules say, in their order: a rule that the packet does
-- not match leaves the state to the next; a rule that it matches performs its actions, which write
-- the mark and call the log and counters stubs, and returns the value of a terminal verdict, or with
-- `continue` leaves to the next the state that the actions make, whose protocols and frame are the
-- same; behind the last rule the code falls through. The
-- rules have supported matchers, at most 4000 each, and set a mark only if the flavor can. The
-- program has no jump to a next rule pending, and there is memory enough.
pub program_generate_rules-RulesCode :
    {env : Env} (k : Kernel) (fl : Flavor) (rs : List Rule)
    → IsAmple env
    → rules_supported fl rs ≡ true
    → RulesCode env k fl rs
unfolding program_generate_rules exec
program_generate_rules-RulesCode k fl [] ample h = record {
  cells = [];
  emits = record { run = λ p s h e. returns (record { appends = Appends-nil p; clean = h }) };
  decides = λ m. at_end;
}
program_generate_rules-RulesCode {env} k fl (r ∷ rs) ample h =
    let a = (and-eq-true_iff (all_supported r.matchers) _).0 h in
    let b = (and-eq-true_iff (can_mark fl (rule_mark_is_set r)) _).0 a.1 in
    let c = (and-eq-true_iff (leb (length r.matchers) 4000) (rules_supported fl rs)).0 b.1 in
    let few : length r.matchers ≤ 4000 = ground arith in
    let i = generate_matchers-Implements k ample r.matchers a.0 in
    let rest = program_generate_rules-RulesCode {env = env} k fl rs ample c.1 in
    record {
      cells = rule_cells i.cells fl r ++ rest.cells;
      emits = Links->> (rule-Links fl r i ample b.0 few) rest.emits;
      decides = λ m.
          subst (λ o. RulesDone k fl (view m) (r ∷ rs) o)
            (sym (exec-append k (rule_cells i.cells fl r) rest.cells 0 m))
            (then-done fl k (view m) r rs rest.cells _ _ refl (rule-decides r i few fl m)
              rest.decides);
    }

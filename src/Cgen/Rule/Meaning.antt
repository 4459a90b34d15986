-- ===== src/Cgen/Rule/Meaning.antt =====
-- What a rule's code does to a packet.
use bpfilter_study.Base.{
  List, ◌++◌, ◌≡◌, [], true, ◌<◌, length, ◌≤◌, arith, ◌∙◌, length-append, ap, sym,
}
use bpfilter_study.Program.{Env, Program}
use bpfilter_study.Machine.{Kernel, exec, Machine}
use bpfilter_study.Machine.Decides.{view}
use bpfilter_study.Chain.{Rule, rule_mark_is_set, Flavor}
use bpfilter_study.Fixup.{Cell, jmp_next_rule}
use bpfilter_study.Cgen.Rule.Correct.{action_cells, can_mark, actions-EmitsAt}
use bpfilter_study.Program.Extends.{Extends, Extends->>}
use bpfilter_study.Machine.Seq.{exec-append}
use bpfilter_study.Cgen.Rule.{program_generate_rule, generate_matchers}
use bpfilter_study.Cgen.Rule.Matchers.{
  all_match, room, all_supported, generate_matchers-Implements, room_eq,
}
use bpfilter_study.Program.Emits.{IsAmple, IsSized}
use bpfilter_study.Machine.Link.{close, are_open, are_open-append, resolve, exec-resolve}
use bpfilter_study.Cgen.Implements.{Implements}
use bpfilter_study.Cgen.Resolve.Correct.{lacks, program_fixup-Extends}
use mathlib.Core.Path.{subst}
use bpfilter_study.Program.At.{at_of_Emits}
use bpfilter_study.Cgen.Rule.Actions.{RuleDone, actions-linked, actions-short, rule-done}

-- The code that the generator appends for a rule to the program `p`.
pub record RuleCode (env : Env) (k : Kernel) (p : Program) (r : Rule) : Type 0 where
  pub cells : List Cell
  pub emits : Extends env p [] (program_generate_rule r) cells
  pub decides :
      (m : Machine)
      → RuleDone k p.flavor r (view m) (all_match r.matchers (view m)) (exec k cells 0 m)

-- The rule's code: the matchers' code and the actions, with the jumps resolved.
abbrev pub rule_cells : List Cell → Flavor → Rule → List Cell
rule_cells cs fl r = resolve (cs ++ action_cells fl r)

module _ {env : Env} {k : Kernel} (r : Rule)
    (i : Implements env k (room r.matchers) (generate_matchers r.matchers) (all_match r.matchers))
    (few : length r.matchers ≤ 4000) where
  linked : (fl : Flavor) → are_open (i.cells ++ action_cells fl r) ≡ true
  linked fl = are_open-append i.cells (action_cells fl r) i.linked (actions-linked fl r)

  short : (fl : Flavor) → length (i.cells ++ action_cells fl r) < 32767
  short fl = omega (
    arith,
    i.short,
    few,
    room_eq r.matchers,
    actions-short fl r,
    length-append {0} i.cells (action_cells fl r),
  )

  pub rule-Extends :
      (p : Program)
      → IsAmple env
      → IsSized p
      → lacks jmp_next_rule p.fixups ≡ true
      → can_mark p.flavor (rule_mark_is_set r) ≡ true
      → Extends env p [] (program_generate_rule r) (rule_cells i.cells p.flavor r)
  unfolding program_generate_rule
  rule-Extends p ample s h hm =
      let cs = i.cells ++ action_cells p.flavor r in
      Extends->> (at_of_Emits s i.emits []) (
        Extends->> (actions-EmitsAt ample s r hm i.cells)
          (program_fixup-Extends cs s h (linked p.flavor) (short p.flavor)))

  pub rule-decides :
      (fl : Flavor) (m : Machine)
      → RuleDone k fl r
          (view m)
          (all_match r.matchers (view m))
          (exec k (rule_cells i.cells fl r) 0 m)
  rule-decides fl m =
      let acts = action_cells fl r in
      let e =
        exec-resolve k (i.cells ++ acts) 0 m (linked fl) (omega (arith, short fl))
        ∙ ap close (exec-append k i.cells acts 0 m) in
      subst (λ o. RuleDone k fl r (view m) (all_match r.matchers (view m)) o) (sym e)
        (rule-done k fl r (view m) _ _ (i.decides m))

-- The code of a rule, its jumps resolved, does what the rule says: on the packets that all matchers
-- match it writes the mark, calls the log stub and calls the counters stub, each if the rule has it,
-- with the rule's arguments; then it returns the value of a terminal verdict, or goes on behind the
-- rule with `continue`. It passes on all other packets with the state that the matchers share
-- unchanged. The rule has supported matchers, at most 4000, and sets a mark only if the
-- flavor can; the program has no jump to a next rule pending, and there is memory enough.
pub program_generate_rule-RuleCode :
    {env : Env} (k : Kernel) (p : Program) (r : Rule)
    → IsAmple env
    → IsSized p
    → lacks jmp_next_rule p.fixups ≡ true
    → all_supported r.matchers ≡ true
    → can_mark p.flavor (rule_mark_is_set r) ≡ true
    → length r.matchers ≤ 4000
    → RuleCode env k p r
program_generate_rule-RuleCode k p r ample s h hs hm hl =
    let i = generate_matchers-Implements k ample r.matchers hs in
    record {
      cells = rule_cells i.cells p.flavor r;
      emits = rule-Extends r i hl p ample s h hm;
      decides = rule-decides r i hl p.flavor;
    }

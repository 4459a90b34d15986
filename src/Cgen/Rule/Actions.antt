-- ===== src/Cgen/Rule/Actions.antt =====
-- What the code behind a rule's matchers does to a packet.
use bpfilter_study.Base.{
  ℕ, List, Option, Bool, ◌++◌, ◌≡◌, ◌==◌, false, refl, some, true, none, ◌<◌, length, ◌^◌, ◌≤◌,
  arith, sext32, ◌∙◌, length-append, s32, ap, sym, if◌then◌else◌,
}
use bpfilter_study.Machine.{Kernel, exec, alu64, Machine, fell, Outcome, exited}
use bpfilter_study.Machine.Decides.{View, view, Decided, matched, unmatched}
use bpfilter_study.Chain.{
  Rule, rule_mark_is_set, Flavor, Verdict, continue, accept, drop, tc_flavor, nf_flavor, xdp_flavor,
  cgroup_flavor,
}
use bpfilter_study.Fixup.{Cell}
use bpfilter_study.Cgen.Rule.Correct.{
  counter_cells, log_cells, mark_cells, verdict_value, action_cells, verdict_cells,
}
use bpfilter_study.Machine.Seq.{and_then}
use bpfilter_study.Machine.Link.{close, are_open, are_open-append}
use mathlib.Core.Path.{subst}
use bpfilter_study.Cgen.Rule.Effects.{
  Acts, mark-Straight, log-Straight, counter-Straight, Straight-then, acts,
}

-- What the code of a rule may do to a packet that it matches or not: pass on the packet with the
-- state that matchers share; perform the rule's actions and return the verdict's value; or perform
-- them and go on behind the rule.
pub data RuleDone (k : Kernel) (fl : Flavor) (r : Rule) (v : View) : Bool → Outcome → Type 0 where
  passed : {m : Machine} → view m ≡ v → RuleDone k fl r v false (fell 0 m)
  returned :
      {at by m : Machine}
      → view at ≡ v
      → Acts k r at by
      → verdict_value fl r.verdict ≡ some (m.reg 0)
      → m.mem ≡ by.mem
      → RuleDone k fl r v true (exited m)
  continued :
      {at m : Machine}
      → view at ≡ v
      → Acts k r at m
      → verdict_value fl r.verdict ≡ none
      → RuleDone k fl r v true (fell 0 m)

abbrev IsSmall : Option ℕ → Type 0
IsSmall (some x) = x < 2 ^ 31
IsSmall none = Unit {0}

value-IsSmall : (fl : Flavor) (v : Verdict) → IsSmall (verdict_value fl v)
value-IsSmall fl continue = tt
value-IsSmall tc_flavor accept = omega arith
value-IsSmall tc_flavor drop = omega arith
value-IsSmall nf_flavor accept = omega arith
value-IsSmall nf_flavor drop = omega arith
value-IsSmall xdp_flavor accept = omega arith
value-IsSmall xdp_flavor drop = omega arith
value-IsSmall cgroup_flavor accept = omega arith
value-IsSmall cgroup_flavor drop = omega arith

verdict-done :
    (k : Kernel) (fl : Flavor) (r : Rule) (v : View) (at m : Machine) (value : Option ℕ)
    → verdict_value fl r.verdict ≡ value
    → IsSmall value
    → view at ≡ v
    → Acts k r at m
    → RuleDone k fl r v true (close (exec k (verdict_cells value) 0 m))
unfolding exec alu64
verdict-done k fl r v at m none e h same done = continued same done e
verdict-done k fl r v at m (some x) e h same done =
    let small : sext32 (s32 x) ≡ x = ground arith in
    returned same done (e ∙ ap some (sym small)) refl

actions-done :
    (k : Kernel) (fl : Flavor) (r : Rule) (v : View) (m : Machine)
    → view m ≡ v
    → RuleDone k fl r v true (close (exec k (action_cells fl r) 0 m))
actions-done k fl r v m same =
    let value = verdict_value fl r.verdict in
    let mark = mark-Straight k r in
    let log = log-Straight k r in
    let counter = counter-Straight k r in
    let e =
      Straight-then k (mark_cells r) (log_cells r ++ (counter_cells r ++ verdict_cells value)) mark
        m
      ∙ Straight-then k (log_cells r) (counter_cells r ++ verdict_cells value) log (mark.end m)
      ∙ Straight-then k (counter_cells r) (verdict_cells value) counter (log.end (mark.end m)) in
    subst (λ o. RuleDone k fl r v true (close o)) (sym e)
      (verdict-done k fl r v m (counter.end (log.end (mark.end m))) value refl
        (value-IsSmall fl r.verdict) same
        (acts (mark.does m) (log.does (mark.end m)) (counter.does (log.end (mark.end m)))))

-- The matchers' code, then the actions.
pub rule-done :
    (k : Kernel) (fl : Flavor) (r : Rule) (v : View) (b : Bool) (o : Outcome)
    → Decided v b o
    → RuleDone k fl r v b (close (and_then o (exec k (action_cells fl r))))
rule-done k fl r v b o (matched {m} e) = actions-done k fl r v m e
rule-done k fl r v b o (unmatched e) = passed e

open_if :
    (b : Bool) (cs ds : List Cell)
    → are_open cs ≡ true
    → are_open ds ≡ true
    → are_open (if b then cs else ds) ≡ true
open_if true cs ds hc hd = hc
open_if false cs ds hc hd = hd

value_open : (o : Option ℕ) → are_open (verdict_cells o) ≡ true
value_open none = refl
value_open (some x) = refl

pub actions-linked : (fl : Flavor) (r : Rule) → are_open (action_cells fl r) ≡ true
actions-linked fl r =
    are_open-append (mark_cells r) _ (open_if (rule_mark_is_set r) _ _ refl refl) (
      are_open-append (log_cells r) _ (open_if (r.log == 0) _ _ refl refl) (
        are_open-append (counter_cells r) _ (open_if r.counters _ _ refl refl)
          (value_open (verdict_value fl r.verdict))))

length-if :
    (b : Bool) (cs ds : List Cell) (n : ℕ)
    → length cs ≤ n
    → length ds ≤ n
    → length (if b then cs else ds) ≤ n
length-if true cs ds n hc hd = hc
length-if false cs ds n hc hd = hd

length-verdict_cells : (o : Option ℕ) → length (verdict_cells o) ≤ 2
length-verdict_cells none = omega arith
length-verdict_cells (some x) = omega arith

pub actions-short : (fl : Flavor) (r : Rule) → length (action_cells fl r) ≤ 18
actions-short fl r =
    let value = verdict_value fl r.verdict in
    let lm : length (mark_cells r) ≤ 3 =
      length-if (rule_mark_is_set r) _ _ 3 (omega arith) (omega arith) in
    let ll : length (log_cells r) ≤ 7 = length-if (r.log == 0) _ _ 7 (omega arith) (omega arith) in
    let lc : length (counter_cells r) ≤ 6 =
      length-if r.counters _ _ 6 (omega arith) (omega arith) in
    omega (
      arith,
      lm,
      ll,
      lc,
      length-verdict_cells value,
      length-append {0} (mark_cells r) (log_cells r ++ (counter_cells r ++ verdict_cells value)),
      length-append {0} (log_cells r) (counter_cells r ++ verdict_cells value),
      length-append {0} (counter_cells r) (verdict_cells value),
    )

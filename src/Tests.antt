-- ===== src/Tests.antt =====
-- Runs of the theorems at concrete inputs.
mod Lists
mod Requests
mod Sets
mod Buffers
use bpfilter_study.Base.{
  ℕ, Bool, get_elem?, ◌≤◌, refl, true, ◌∷◌, ◌≡◌, [], ap, false, ◌^◌, arith, not, none, some, List,
  ◌-◌,
}
use bpfilter_study.Printer.Packed.{printer_total_size-IsPacked, one_more, none_left}
use bpfilter_study.Chain.{
  Chain, Rule, chain_validate, rule_mark_get, rule_mark_is_set, chain_new, hook_to_flavor, no_flags,
  rule_mark_set, xdp_flavor, xdp, accept, continue, drop, filled_chain, rules_features,
}
use bpfilter_study.Program.Capacity.{round_next_power_of_2-le}
use bpfilter_study.Program.{Env, PrinterMsg, Program, round_next_power_of_2, ok}
use bpfilter_study.Cgen.Implements.{Implements}
use bpfilter_study.Program.Emits.{IsAmple}
use bpfilter_study.Machine.{Kernel, Machine, Reply}
use bpfilter_study.Matcher.{
  Matcher, icmp_type, ip4_snet, meta_l3_proto, tcp_dport, udp_dport, op_eq, op_ne, op_range,
  ip6_nexthdr, meta_iface,
}
use bpfilter_study.Cgen.Rule.Meaning.{RuleCode, program_generate_rule-RuleCode}
use bpfilter_study.Cgen.Rule.Chain.{RulesCode, rules_supported, program_generate_rules-RulesCode}
use bpfilter_study.Chain.Features.{
  marks_supported, rule_mark_get-set, chain_validate-marks_supported, chain_new-index,
}
use bpfilter_study.Printer.{printer_total_size}
use bpfilter_study.Insn.{jmp_imm_insn, jne, jmp_a_insn}
use bpfilter_study.Cgen.Rule.{generate_matchers}
use bpfilter_study.Cgen.Icmp.{matcher_generate_icmp}
use bpfilter_study.Cgen.Ip4.{matcher_generate_ip4, ip4_prefix_to_mask}
use bpfilter_study.Cgen.Meta.{matcher_generate_meta, matcher_generate_meta_iface}
use bpfilter_study.Cgen.Tcp.{matcher_generate_tcp}
use bpfilter_study.Cgen.Udp.{matcher_generate_udp}
use bpfilter_study.Cgen.Rule.Matchers.{all_match, generate_matchers-Implements}
use bpfilter_study.Cgen.Icmp.Correct.{icmp_test, matcher_generate_icmp-Implements}
use bpfilter_study.Cgen.Ip4.Correct.{matcher_generate_ip4-Implements}
use bpfilter_study.Cgen.Ip4.Code.{ip4_test}
use bpfilter_study.Cgen.Meta.Correct.{proto_test, matcher_generate_meta-Implements}
use bpfilter_study.Cgen.Tcp.Correct.{tcp_test, matcher_generate_tcp-Implements}
use bpfilter_study.Cgen.Udp.Correct.{udp_test, matcher_generate_udp-Implements}
use bpfilter_study.Program.Extends.{Extends}
use bpfilter_study.Cgen.Ip4.Prefix.{network_value, ip4_prefix_to_mask-network_value}
use bpfilter_study.Fixup.{Cell, jmp_next_rule}
use bpfilter_study.Cgen.Resolve.{program_fixup}
use bpfilter_study.Machine.Decides.{to_next}
use bpfilter_study.Machine.Link.{resolve}
use bpfilter_study.Cgen.Resolve.Correct.{program_fixup-Extends}
use bpfilter_study.Cgen.Ip6.{matcher_generate_ip6}
use bpfilter_study.Cgen.Ip6.Correct.{nexthdr_test, matcher_generate_ip6-Implements}
use bpfilter_study.Cgen.Meta.Iface.{iface_test, matcher_generate_meta_iface-Implements}

abbrev ample_env : Env
ample_env = record {
  alloc = λ n. true;
  verbose = false;
  btf_id = λ s. ok 1;
  btf_field_off = λ s f. ok 8;
  elfstub = λ n. none;
}

abbrev reply : Machine → Reply
reply m = record { reg = m.reg; mem = m.mem }

abbrev quiet_kernel : Kernel
quiet_kernel = record {
  helper = λ n m. reply m;
  kfunc = λ n m. reply m;
  subprog = λ n m. reply m;
  stub = λ n m. reply m;
  fd_address = λ n. n;
  map_address = λ t n. n;
}

abbrev from_ten : Matcher
from_ten = record { type = ip4_snet; op = op_eq; payload = 8 ∷ 0 ∷ 0 ∷ 0 ∷ 10 ∷ 0 ∷ 0 ∷ 0 ∷ [] }

abbrev to_ports : Matcher
to_ports = record { type = tcp_dport; op = op_range; payload = 80 ∷ 0 ∷ 90 ∷ 0 ∷ [] }

abbrev not_dns : Matcher
not_dns = record { type = udp_dport; op = op_ne; payload = 0 ∷ 53 ∷ [] }

abbrev echo : Matcher
echo = record { type = icmp_type; op = op_eq; payload = 8 ∷ [] }

abbrev over_ip : Matcher
over_ip = record { type = meta_l3_proto; op = op_eq; payload = 0 ∷ 8 ∷ [] }

abbrev web_rule : Rule
web_rule = record {
  index = 0;
  matchers = from_ten ∷ to_ports ∷ [];
  log = 1;
  mark = 0;
  counters = true;
  verdict = drop;
}

abbrev count_rule : Rule
count_rule = record web_rule { matchers = over_ip ∷ not_dns ∷ echo ∷ []; verdict = continue }

abbrev small_chain : Chain
small_chain = record {
  flags = no_flags;
  hook = xdp;
  policy = accept;
  sets = [];
  rules = web_rule ∷ count_rule ∷ [];
}

abbrev new_program : Program
new_program = record {
  flavor = xdp_flavor;
  printer = [];
  cmap_fd = 3;
  pmap_fd = 4;
  lmap_fd = 5;
  sets = [];
  elfstubs_location = λ n. 0;
  img_null = true;
  img = [];
  img_size = 0;
  img_cap = 0;
  fixups = [];
  chain = small_chain;
}

ample : IsAmple ample_env
ample n = refl

matcher_generate_ip4-Implements_example :
    Implements ample_env quiet_kernel 8 (matcher_generate_ip4 from_ten) (ip4_test from_ten)
matcher_generate_ip4-Implements_example =
    matcher_generate_ip4-Implements quiet_kernel from_ten ample refl

matcher_generate_tcp-Implements_example :
    Implements ample_env quiet_kernel 8 (matcher_generate_tcp to_ports) (tcp_test to_ports)
matcher_generate_tcp-Implements_example =
    matcher_generate_tcp-Implements quiet_kernel to_ports ample refl

matcher_generate_udp-Implements_example :
    Implements ample_env quiet_kernel 8 (matcher_generate_udp not_dns) (udp_test not_dns)
matcher_generate_udp-Implements_example =
    matcher_generate_udp-Implements quiet_kernel not_dns ample refl

matcher_generate_icmp-Implements_example :
    Implements ample_env quiet_kernel 8 (matcher_generate_icmp echo) (icmp_test echo)
matcher_generate_icmp-Implements_example =
    matcher_generate_icmp-Implements quiet_kernel echo ample refl refl

abbrev on_two : Matcher
on_two = record { type = meta_iface; op = op_eq; payload = 2 ∷ 0 ∷ 0 ∷ 0 ∷ [] }

matcher_generate_meta_iface-Implements_example :
    Implements ample_env quiet_kernel 8 (matcher_generate_meta_iface on_two) (iface_test on_two)
matcher_generate_meta_iface-Implements_example =
    matcher_generate_meta_iface-Implements quiet_kernel on_two ample (omega arith)

abbrev fragmented : Matcher
fragmented = record { type = ip6_nexthdr; op = op_ne; payload = 44 ∷ [] }

matcher_generate_ip6-Implements_example :
    Implements ample_env quiet_kernel 8 (matcher_generate_ip6 fragmented) (nexthdr_test fragmented)
matcher_generate_ip6-Implements_example =
    matcher_generate_ip6-Implements quiet_kernel fragmented ample refl refl

matcher_generate_meta-Implements_example :
    Implements ample_env quiet_kernel 8
      (matcher_generate_meta over_ip)
      (proto_test meta_l3_proto over_ip)
matcher_generate_meta-Implements_example =
    matcher_generate_meta-Implements quiet_kernel over_ip ample refl

generate_matchers-Implements_example :
    Implements ample_env quiet_kernel 16
      (generate_matchers web_rule.matchers)
      (all_match web_rule.matchers)
generate_matchers-Implements_example =
    generate_matchers-Implements quiet_kernel ample web_rule.matchers refl

unmarked : (r : Rule) → r.mark ≡ 0 → rule_mark_is_set r ≡ false
unfolding rule_mark_is_set
unmarked r e = rw e refl

program_generate_rule-RuleCode_example : RuleCode ample_env quiet_kernel new_program web_rule
program_generate_rule-RuleCode_example =
    program_generate_rule-RuleCode quiet_kernel new_program web_rule ample refl refl refl
      (ap not (unmarked web_rule refl)) (omega arith)

both_supported : rules_supported xdp_flavor (web_rule ∷ count_rule ∷ []) ≡ true
unfolding rule_mark_is_set
both_supported = refl

program_generate_rules-RulesCode_example :
    RulesCode ample_env quiet_kernel xdp_flavor (web_rule ∷ count_rule ∷ [])
program_generate_rules-RulesCode_example =
    program_generate_rules-RulesCode quiet_kernel xdp_flavor (web_rule ∷ count_rule ∷ []) ample
      both_supported

abbrev yes : ℕ → Bool
yes n = true

abbrev a_message : PrinterMsg
a_message = record { offset = 0; len = 2; str = 65 ∷ [] }

abbrev hi : PrinterMsg
hi = record { offset = 0; len = 3; str = 104 ∷ 105 ∷ [] }

printer_total_size-IsPacked_example : printer_total_size (hi ∷ []) ≡ 3
printer_total_size-IsPacked_example =
    printer_total_size-IsPacked (hi ∷ []) (one_more {m = hi} refl refl none_left)

xdp_valid : chain_validate (filled_chain xdp accept [] (web_rule ∷ [])) ≡ true
unfolding chain_validate rule_mark_is_set rules_features
xdp_valid = refl

xdp_chain :
    chain_new true true xdp accept [] (web_rule ∷ [])
    ≡ some (filled_chain xdp accept [] (web_rule ∷ []))
unfolding chain_new
xdp_chain = refl

chain_validate-marks_supported_example : marks_supported (hook_to_flavor xdp) (web_rule ∷ []) ≡ true
chain_validate-marks_supported_example =
    chain_validate-marks_supported true true xdp accept [] (web_rule ∷ [])
      (filled_chain xdp accept [] (web_rule ∷ [])) xdp_chain xdp_valid

abbrev two_rules : Chain
two_rules = filled_chain xdp accept [] (web_rule ∷ count_rule ∷ [])

two_rules_new : chain_new true true xdp accept [] (web_rule ∷ count_rule ∷ []) ≡ some two_rules
unfolding chain_new
two_rules_new = refl

chain_new-index_example : get_elem? two_rules.rules 1 ≡ some (record count_rule { index = 1 })
chain_new-index_example =
    chain_new-index true true xdp accept [] (web_rule ∷ count_rule ∷ []) two_rules 1 count_rule
      two_rules_new refl

rule_mark_get-set_example :
    (rule_mark_get (rule_mark_set web_rule 7) ≡ 7)
    × (rule_mark_is_set (rule_mark_set web_rule 7) ≡ true)
rule_mark_get-set_example = rule_mark_get-set web_rule 7 (omega arith)

ip4_prefix_to_mask-network_value_example :
    network_value 0 (ip4_prefix_to_mask 20) ≡ 2 ^ 32 - 2 ^ (32 - 20)
ip4_prefix_to_mask-network_value_example = ip4_prefix_to_mask-network_value 20 (omega arith)

abbrev two_jumps : List Cell
two_jumps = to_next (jmp_imm_insn jne 7 8 0) ∷ to_next (jmp_a_insn 0) ∷ []

program_fixup-Extends_example :
    Extends ample_env new_program two_jumps (program_fixup jmp_next_rule) (resolve two_jumps)
program_fixup-Extends_example = program_fixup-Extends two_jumps refl refl refl (omega arith)

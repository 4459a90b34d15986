-- ===== src/Cgen/Rule/Matchers.antt =====
-- What the code of all matchers of a rule tests.
use bpfilter_study.Base.{
  List, Bool, true, ◌≡◌, ◌∷◌, ◌&&◌, [], ◌++◌, false, refl, ap, ◌∙◌, ◌*◌, arith, ℕ, ◌+◌, length,
  length-append,
}
use bpfilter_study.Program.{Env, M, ◌>>◌, skip}
use bpfilter_study.Matcher.{
  ip6_nexthdr, MatcherType, Matcher, MatcherOp, icmp_type, meta_l3_proto, meta_l4_proto, ip4_saddr,
  ip4_snet, ip4_daddr, ip4_dnet, ip4_proto, tcp_sport, tcp_dport, tcp_flags, udp_sport, udp_dport,
  icmp_code, icmpv6_type, icmpv6_code,
}
use bpfilter_study.Machine.{Kernel}
use bpfilter_study.Program.Emits.{IsAmple, Emits-pure, Emits->>}
use bpfilter_study.Machine.Decides.{View, done-Decided, Decides-append}
use bpfilter_study.Cgen.Implements.{Implements}
use bpfilter_study.Cgen.Rule.{generate_matchers, generate_matcher}
use bpfilter_study.Cgen.Meta.Correct.{proto_test, is_proto_type, matcher_generate_meta-Implements}
use bpfilter_study.Cgen.Ip4.Correct.{matcher_generate_ip4-Implements}
use bpfilter_study.Cgen.Ip4.Code.{ip4_test, is_ip4_type}
use bpfilter_study.Cgen.Icmp.Correct.{is_icmp_type, icmp_test, matcher_generate_icmp-Implements}
use bpfilter_study.Cgen.Tcp.Correct.{is_tcp, takes_flags, tcp_test, matcher_generate_tcp-Implements}
use bpfilter_study.Cgen.Udp.Correct.{is_udp, udp_test, matcher_generate_udp-Implements}
use bpfilter_study.Cgen.Compare.Correct.{takes_port, takes_eq_ne}
use mathlib.Core.Bool.{and-eq-true_iff}
use bpfilter_study.Cgen.Ip4.{matcher_generate_ip4}
use bpfilter_study.Cgen.Meta.{matcher_generate_meta}
use bpfilter_study.Cgen.Tcp.{matcher_generate_tcp}
use bpfilter_study.Cgen.Udp.{matcher_generate_udp}
use bpfilter_study.Cgen.Icmp.{matcher_generate_icmp}
use bpfilter_study.Machine.Link.{are_open-append}
use bpfilter_study.Cgen.Ip6.{is_eq_or_ne}
use bpfilter_study.Cgen.Ip6.Correct.{matcher_generate_ip6-Implements, nexthdr_test}

-- The matchers, with their operators, whose code is proved.
abbrev pub is_supported : MatcherType → MatcherOp → Bool
is_supported meta_l3_proto op = true
is_supported meta_l4_proto op = true
is_supported ip4_saddr op = true
is_supported ip4_snet op = true
is_supported ip4_daddr op = true
is_supported ip4_dnet op = true
is_supported ip4_proto op = true
is_supported ip6_nexthdr op = is_eq_or_ne op
is_supported tcp_sport op = takes_port op
is_supported tcp_dport op = takes_port op
is_supported tcp_flags op = takes_flags op
is_supported udp_sport op = takes_port op
is_supported udp_dport op = takes_port op
is_supported icmp_type op = takes_eq_ne op
is_supported icmp_code op = takes_eq_ne op
is_supported icmpv6_type op = takes_eq_ne op
is_supported icmpv6_code op = takes_eq_ne op
is_supported _ op = false

-- What a matcher says of a packet.
abbrev pub matcher_test : MatcherType → Matcher → View → Bool
matcher_test meta_l3_proto m v = proto_test m.type m v
matcher_test meta_l4_proto m v = proto_test m.type m v
matcher_test ip4_saddr m v = ip4_test m v
matcher_test ip4_snet m v = ip4_test m v
matcher_test ip4_daddr m v = ip4_test m v
matcher_test ip4_dnet m v = ip4_test m v
matcher_test ip4_proto m v = ip4_test m v
matcher_test ip6_nexthdr m v = nexthdr_test m v
matcher_test tcp_sport m v = tcp_test m v
matcher_test tcp_dport m v = tcp_test m v
matcher_test tcp_flags m v = tcp_test m v
matcher_test udp_sport m v = udp_test m v
matcher_test udp_dport m v = udp_test m v
matcher_test _ m v = icmp_test m v

abbrev pub all_supported : List Matcher → Bool
all_supported [] = true
all_supported (m ∷ ms) = is_supported m.type m.op && all_supported ms

abbrev pub all_match : List Matcher → View → Bool
all_match [] v = true
all_match (m ∷ ms) v = matcher_test m.type m v && all_match ms v

-- The room for the code of the matchers.
abbrev pub room : List Matcher → ℕ
room [] = 0
room (m ∷ ms) = 8 + room ms

pub room_eq : (ms : List Matcher) → room ms ≡ 8 * length ms
room_eq [] = refl
room_eq (m ∷ ms) = omega (arith, room_eq ms)

module _ {env : Env} (k : Kernel) (ample : IsAmple env) where
  of_ip4 :
      {t : MatcherType} (m : Matcher)
      → m.type ≡ t
      → is_ip4_type t ≡ true
      → Implements env k 8 (matcher_generate_ip4 m) (ip4_test m)
  of_ip4 m e h = matcher_generate_ip4-Implements k m ample (ap is_ip4_type e ∙ h)

  of_tcp :
      {t : MatcherType} (m : Matcher)
      → m.type ≡ t
      → is_tcp t m.op ≡ true
      → Implements env k 8 (matcher_generate_tcp m) (tcp_test m)
  of_tcp m e h = matcher_generate_tcp-Implements k m ample (ap (λ t. is_tcp t m.op) e ∙ h)

  of_udp :
      {t : MatcherType} (m : Matcher)
      → m.type ≡ t
      → is_udp t m.op ≡ true
      → Implements env k 8 (matcher_generate_udp m) (udp_test m)
  of_udp m e h = matcher_generate_udp-Implements k m ample (ap (λ t. is_udp t m.op) e ∙ h)

  of_icmp :
      {t : MatcherType} (m : Matcher)
      → m.type ≡ t
      → is_icmp_type t ≡ true
      → takes_eq_ne m.op ≡ true
      → Implements env k 8 (matcher_generate_icmp m) (icmp_test m)
  of_icmp m e ht h = matcher_generate_icmp-Implements k m ample (ap is_icmp_type e ∙ ht) h

  of_proto :
      {t : MatcherType} (m : Matcher)
      → m.type ≡ t
      → is_proto_type t ≡ true
      → Implements env k 8 (matcher_generate_meta m) (proto_test m.type m)
  of_proto m e h = matcher_generate_meta-Implements k m ample (ap is_proto_type e ∙ h)

  pub generate_matcher-Implements :
      (t : MatcherType) (m : Matcher)
      → m.type ≡ t
      → is_supported t m.op ≡ true
      → Implements env k 8 (generate_matcher t m) (matcher_test t m)
  generate_matcher-Implements meta_l3_proto m e h = of_proto m e refl
  generate_matcher-Implements meta_l4_proto m e h = of_proto m e refl
  generate_matcher-Implements ip4_saddr m e h = of_ip4 m e refl
  generate_matcher-Implements ip4_snet m e h = of_ip4 m e refl
  generate_matcher-Implements ip4_daddr m e h = of_ip4 m e refl
  generate_matcher-Implements ip4_dnet m e h = of_ip4 m e refl
  generate_matcher-Implements ip4_proto m e h = of_ip4 m e refl
  generate_matcher-Implements ip6_nexthdr m e h = matcher_generate_ip6-Implements k m ample e h
  generate_matcher-Implements tcp_sport m e h = of_tcp m e h
  generate_matcher-Implements tcp_dport m e h = of_tcp m e h
  generate_matcher-Implements tcp_flags m e h = of_tcp m e h
  generate_matcher-Implements udp_sport m e h = of_udp m e h
  generate_matcher-Implements udp_dport m e h = of_udp m e h
  generate_matcher-Implements icmp_type m e h = of_icmp m e refl h
  generate_matcher-Implements icmp_code m e h = of_icmp m e refl h
  generate_matcher-Implements icmpv6_type m e h = of_icmp m e refl h
  generate_matcher-Implements icmpv6_code m e h = of_icmp m e refl h
  generate_matcher-Implements _ m e h = cc

  none-Implements : Implements env k 0 skip (λ v. true)
  none-Implements = record {
    cells = [];
    emits = Emits-pure tt;
    linked = refl;
    short = omega arith;
    decides = λ m. done-Decided k m refl;
  }

  and-Implements :
      {i j : ℕ} {m n : M (Unit {0})} {p q : View → Bool}
      → Implements env k i m p
      → Implements env k j n q
      → Implements env k (i + j) (m >> n) (λ v. p v && q v)
  and-Implements {p} {q} a b = record {
    cells = a.cells ++ b.cells;
    short = omega (arith, a.short, b.short, length-append {0} a.cells b.cells);
    emits = Emits->> a.emits b.emits;
    linked = are_open-append a.cells b.cells a.linked b.linked;
    decides = Decides-append k a.cells b.cells p q a.decides b.decides;
  }

  -- The code of a rule's matchers matches the packets that every one of them matches, for the
  -- matchers on the L3 and L4 protocols, the IPv6 next header, and IPv4, TCP, UDP and ICMP
  -- headers, with operators that their generators take. There is memory enough.
  pub generate_matchers-Implements :
      (ms : List Matcher)
      → all_supported ms ≡ true
      → Implements env k (room ms) (generate_matchers ms) (all_match ms)
  unfolding generate_matchers
  generate_matchers-Implements [] h = none-Implements
  generate_matchers-Implements (m ∷ ms) h =
      let both = (and-eq-true_iff (is_supported m.type m.op) (all_supported ms)).0 h in
      and-Implements (generate_matcher-Implements m.type m refl both.0)
        (generate_matchers-Implements ms both.1)

-- ===== src/Tests/Sets.antt =====
-- Runs of the theorems about sets.
use bpfilter_study.Base.{
  ℕ, ◌≡◌, refl, none, some, [], ◌∷◌, false, arith, List, text, Option, length, suc, ap, zero, ◌≢◌,
  sym, ◌∙◌,
}
use bpfilter_study.Matcher.{MatcherType, op_in, tcp_dport, ip4_saddr}
use bpfilter_study.Chain.{Set}
use bpfilter_study.Sets.{
  ok, endless, Parser, elems_from, set_new_from_raw, set_parse_elem, elem_from, key_from,
  matcher_type_from_str,
}
use bpfilter_study.Sets.Ends.{Ends, set_new_from_raw-Ends}
use bpfilter_study.Sets.Elements.{Gives, Writes, IsSized, set_new_from_raw-IsSized}
use bpfilter_study.Sets.Strings.{Token, strtok, trim}
use bpfilter_study.Matcher.Ops.{ref_payload_size, matcher_get_ops}
use bpfilter_study.Sets.Blank.{elems_from-endless}

-- A parser that writes zeros.
abbrev zeros : ℕ → List ℕ
zeros zero = []
zeros (suc n) = 0 ∷ zeros n

zero_parser : Parser
zero_parser type s = some (zeros (ref_payload_size type op_in))

length-zeros : (n : ℕ) → length (zeros n) ≡ n
length-zeros zero = refl
length-zeros (suc n) = ap suc (length-zeros n)

zero_parser-Writes : Writes zero_parser
unfolding zero_parser
zero_parser-Writes type s bytes e =
    ap length (sym (some_eq e)) ∙ length-zeros (ref_payload_size type op_in)
  where
    some_eq : {xs ys : List ℕ} → some xs ≡ some ys → xs ≡ ys
    some_eq e = cc

abbrev port_key : List MatcherType
port_key = ip4_saddr ∷ tcp_dport ∷ []

abbrev port_set : Set
port_set = record { name = none; key = port_key; elems = []; elem_size = 6; use_trie = false }

set_new_from_raw-IsSized_example :
    Gives IsSized (
      set_new_from_raw zero_parser 40 none (text "(ip4.saddr, tcp.dport)") (text "{a, 1; b, 2}") [])
set_new_from_raw-IsSized_example =
    set_new_from_raw-IsSized zero_parser zero_parser-Writes 40 none (text "(ip4.saddr, tcp.dport)")
      (text "{a, 1; b, 2}") []

first_not_blank :
    (t : Token) → strtok (text "{};\n") (text "{a, 1; b, 2}") ≡ some t → trim t.token ≢ []
unfolding strtok trim
first_not_blank t e b =
    not_nil (ap (λ (o : Option Token). elim o [ none ↦ [] | some u ↦ trim u.token ]) e ∙ b)
  where
    not_nil : text "a, 1" ≢ []
    not_nil e = cc

set_new_from_raw-Ends_example :
    Ends (
      set_new_from_raw zero_parser 40 none (text "(ip4.saddr, tcp.dport)") (text "{a, 1; b, 2}") [])
set_new_from_raw-Ends_example =
    set_new_from_raw-Ends zero_parser 40 none (text "(ip4.saddr, tcp.dport)") (text "{a, 1; b, 2}")
      [] (omega arith) first_not_blank

abbrev blank_token : Token
blank_token = record { seen = text "{ "; token = text " "; rest = text " a, 1}" }

found_blank : strtok (text "{};\n") (text "{ ; a, 1}") ≡ some blank_token
unfolding strtok
found_blank = refl

is_blank : trim blank_token.token ≡ []
unfolding trim
is_blank = refl

-- An element of one space.
elems_from-endless_example :
    elems_from zero_parser 1000 port_set (some (text "{ ; a, 1}")) [] [] ≡ endless
elems_from-endless_example =
    elems_from-endless zero_parser 1000 port_set (text "{ ; a, 1}") [] blank_token [] found_blank
      is_blank

-- A text with two elements of two components.
two_elements :
    set_new_from_raw zero_parser 40 none (text "(ip4.saddr, tcp.dport)") (text "{a, 1; b, 2}") []
    ≡ ok (record port_set { elems = zeros 6 ∷ zeros 6 ∷ [] }) []
unfolding set_new_from_raw set_parse_elem elem_from strtok trim elems_from key_from
    matcher_type_from_str zero_parser ref_payload_size matcher_get_ops
two_elements = refl

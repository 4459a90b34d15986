-- ===== src/Sets.antt =====
-- src/libbpfilter/set.c: sets from the text of a chain, and the strings that they are read with.
-- A text is the list of its characters.
pub mod Strings
pub mod Keyed
pub mod Elements
pub mod Blank
pub mod Ends
use bpfilter_study.Base.{
  ℕ, List, Option, ◌∷◌, ◌++◌, Bool, if◌then◌else◌, none, some, suc, text, [], false, length, ltb,
  true, ◌&&◌, ◌+◌, ◌==◌, zero, ◌||◌, take,
}
use bpfilter_study.Matcher.{
  MatcherType, meta_iface, op_in, ip4_snet, meta_l3_proto, ip4_dnet, meta_l4_proto, ip6_snet,
  meta_probability, ip6_dnet, meta_sport, meta_dport, meta_mark, ip4_saddr, ip4_daddr, ip4_proto,
  ip6_saddr, ip6_daddr, ip6_nexthdr, tcp_sport, tcp_dport, tcp_flags, udp_sport, udp_dport,
  icmp_type, icmp_code, icmpv6_type, icmpv6_code, set,
}
use bpfilter_study.Chain.{Set}
use bpfilter_study.Sets.Strings.{strtok, trim, Token}
use bpfilter_study.Matcher.Ops.{matcher_get_ops}

pub data Run (A : Type 0) : Type 0 where
  ok : A → List Bool → Run A
  err : ℕ → Run A
  endless : Run A

-- The answers of the allocator to come; behind the last of them it has memory.
abbrev pub M : Type 0 → Type 0
M A = List Bool → Run A

abbrev pub pure : {A : Type 0} → A → M A
pure = ok

abbrev pub fail : {A : Type 0} → ℕ → M A
fail e = λ l. err e

abbrev pub and_then : {A B : Type 0} → Run A → (A → M B) → Run B
and_then (ok a l) k = k a l
and_then (err e) k = err e
and_then endless k = endless

infixl 5 ◌>>=◌ ◌>>◌
abbrev pub ◌>>=◌ : {A B : Type 0} → M A → (A → M B) → M B
◌>>=◌ m k l = and_then (m l) k

abbrev pub ◌>>◌ : {B : Type 0} → M (Unit {0}) → M B → M B
m >> k = m >>= λ _. k

abbrev pub einval : ℕ
einval = 22

abbrev pub enomem : ℕ
enomem = 12

abbrev pub e2big : ℕ
e2big = 7

abbrev pub enotsup : ℕ
enotsup = 95

unfoldable pub allocate : M (Unit {0})
allocate [] = ok tt []
allocate (true ∷ l) = ok tt l
allocate (false ∷ l) = err enomem

abbrev pub max_comps : ℕ
max_comps = 8

abbrev pub is_net : MatcherType → Bool
is_net ip4_snet = true
is_net ip4_dnet = true
is_net ip6_snet = true
is_net ip6_dnet = true
is_net _ = false

abbrev pub any_net : List MatcherType → Bool
any_net [] = false
any_net (t ∷ ts) = is_net t || any_net ts

-- The loop of `bf_set_new()` over the components: the size of an element.
abbrev pub add_size : Option ℕ → M ℕ → M ℕ
add_size none rest = fail enotsup
add_size (some n) rest = do size ← rest; pure (n + size)

unfoldable pub key_size : List MatcherType → M ℕ
key_size [] = pure 0
key_size (t ∷ ts) = add_size (matcher_get_ops t op_in) (key_size ts)

abbrev pub name_copy : Option ℕ → M (Unit {0})
name_copy none = pure tt
name_copy (some n) = allocate

unfoldable pub checked : Option ℕ → List MatcherType → ℕ → M Set
checked name key size =
    if ltb 1 (length key) && any_net key
    then fail einval
    else pure (record {
      name = name;
      key = key;
      elems = [];
      elem_size = size;
      use_trie = length key == 1 && any_net key;
    })

unfoldable pub set_new : Option ℕ → List MatcherType → M Set
unfolding allocate key_size checked
set_new name key =
    if length key == 0
    then fail einval
    else if ltb max_comps (length key)
    then fail e2big
    else (do allocate; name_copy name; size ← key_size key; checked name key size)

-- `_bf_matcher_type_strs`
abbrev pub type_strs : List (List ℕ × MatcherType)
type_strs =
    (text "meta.iface", meta_iface)
    ∷ (text "meta.l3_proto", meta_l3_proto)
    ∷ (text "meta.l4_proto", meta_l4_proto)
    ∷ (text "meta.probability", meta_probability)
    ∷ (text "meta.sport", meta_sport)
    ∷ (text "meta.dport", meta_dport)
    ∷ (text "meta.mark", meta_mark)
    ∷ (text "ip4.saddr", ip4_saddr)
    ∷ (text "ip4.snet", ip4_snet)
    ∷ (text "ip4.daddr", ip4_daddr)
    ∷ (text "ip4.dnet", ip4_dnet)
    ∷ (text "ip4.proto", ip4_proto)
    ∷ (text "ip6.saddr", ip6_saddr)
    ∷ (text "ip6.snet", ip6_snet)
    ∷ (text "ip6.daddr", ip6_daddr)
    ∷ (text "ip6.dnet", ip6_dnet)
    ∷ (text "ip6.nexthdr", ip6_nexthdr)
    ∷ (text "tcp.sport", tcp_sport)
    ∷ (text "tcp.dport", tcp_dport)
    ∷ (text "tcp.flags", tcp_flags)
    ∷ (text "udp.sport", udp_sport)
    ∷ (text "udp.dport", udp_dport)
    ∷ (text "icmp.type", icmp_type)
    ∷ (text "icmp.code", icmp_code)
    ∷ (text "icmpv6.type", icmpv6_type)
    ∷ (text "icmpv6.code", icmpv6_code)
    ∷ (text "<set>", set)
    ∷ []

abbrev pub same_text : List ℕ → List ℕ → Bool
same_text [] [] = true
same_text [] (_ ∷ _) = false
same_text (_ ∷ _) [] = false
same_text (a ∷ s) (b ∷ t) = (a == b) && same_text s t

abbrev lookup_text : List ℕ → List (List ℕ × MatcherType) → Option MatcherType
lookup_text s [] = none
lookup_text s ((t, type) ∷ l) = if same_text t s then some type else lookup_text s l

unfoldable pub matcher_type_from_str : List ℕ → Option MatcherType
matcher_type_from_str s = lookup_text s type_strs

abbrev pub with_type : M (List MatcherType) → Option MatcherType → M (List MatcherType)
with_type next none = fail einval
with_type next (some type) = do rest ← next; pure (type ∷ rest)

abbrev pub key_token : (ℕ → List ℕ → M (List MatcherType)) → ℕ → Option Token → M (List MatcherType)
key_token next n none = pure []
key_token next n (some t) =
    if n == max_comps
    then fail e2big
    else with_type (next (n + 1) t.rest) (matcher_type_from_str (trim t.token))

-- The loop of `_bf_set_parse_key()`, after `n` components.
unfoldable pub key_from : ℕ → ℕ → List ℕ → M (List MatcherType)
key_from zero n s = λ l. endless
key_from (suc fuel) n s = key_token (key_from fuel) n (strtok (text "(),") s)

unfoldable pub set_parse_key : ℕ → List ℕ → M (List MatcherType)
unfolding allocate key_from
set_parse_key fuel raw = do
  allocate
  key ← key_from fuel 0 raw
  if length key == 0 then fail einval else pure key

-- `ops->parse` of a matcher type for `in`, on the text of a component: the bytes that it writes, or
-- none and a message.
abbrev pub Parser : Type 0
Parser = MatcherType → List ℕ → Option (List ℕ)

abbrev pub or_saved : Option (List ℕ) → List ℕ → List ℕ
or_saved none saved = saved
or_saved (some s) saved = s

abbrev pub again : Option (List ℕ) → List ℕ → Option (List ℕ)
again none seen = none
again (some s) seen = some seen

module _ (parse : Parser) where
  -- The loop of `_bf_set_parse_elem()`: the components of the key that are left, and the bytes.
  -- Of the parts of a round, `next` is the rest of the loop.
  abbrev pub with_bytes : M (List ℕ) → Option (List ℕ) → M (List ℕ)
  with_bytes next none = fail einval
  with_bytes next (some bytes) = do rest ← next; pure (bytes ++ rest)

  abbrev pub with_ops : M (List ℕ) → MatcherType → List ℕ → Option ℕ → M (List ℕ)
  with_ops next type token none = fail einval
  with_ops next type token (some n) = with_bytes next (parse type (trim token))

  abbrev pub component : (List ℕ → M (List ℕ)) → MatcherType → Option Token → M (List ℕ)
  component next type none = fail einval
  component next type (some t) = with_ops (next t.rest) type t.token (matcher_get_ops type op_in)

  abbrev pub no_component_left : Option Token → M (List ℕ)
  no_component_left none = pure []
  no_component_left (some t) = fail einval

  unfoldable pub elem_from : ℕ → List MatcherType → List ℕ → M (List ℕ)
  elem_from zero key s = λ l. endless
  elem_from (suc fuel) [] s = no_component_left (strtok (text ",") s)
  elem_from (suc fuel) (type ∷ key) s = component (elem_from fuel key) type (strtok (text ",") s)

  -- The copy of the text, the element and the list node are allocated.
  unfoldable pub set_parse_elem : ℕ → Set → List ℕ → M Set
  unfolding allocate elem_from
  set_parse_elem fuel s raw = do
    allocate
    allocate
    elem ← elem_from fuel s.key raw
    allocate
    pure (record s { elems = s.elems ++ elem ∷ [] })

  -- The parts of a round of `bf_set_new_from_raw()`, where `next` is the rest of the loop. `tmp` is
  -- what strtok_r() is given, `none` for NULL. A token ends the text that it is cut from, so a text
  -- that is given again ends there.
  abbrev pub Rest : Type 0
  Rest = Set → Option (List ℕ) → List ℕ → M Set

  abbrev pub trimmed : Rest → Set → Option (List ℕ) → Token → List ℕ → M Set
  trimmed next s tmp t [] = next s (again tmp t.seen) t.rest
  trimmed next s tmp t (c ∷ cs) = do
    s' ← set_parse_elem (suc (length (c ∷ cs))) s (c ∷ cs)
    next s' none t.rest

  abbrev pub element : Rest → Set → Option (List ℕ) → Option Token → M Set
  element next s tmp none = pure s
  element next s tmp (some t) = trimmed next s tmp t (trim t.token)

  -- `saved` is what strtok_r() has saved.
  unfoldable pub elems_from : ℕ → Set → Option (List ℕ) → List ℕ → M Set
  elems_from zero s tmp saved = λ l. endless
  elems_from (suc fuel) s tmp saved =
      element (elems_from fuel) s tmp (strtok (text "{};\n") (or_saved tmp saved))

  unfoldable pub set_new_from_raw : ℕ → Option ℕ → List ℕ → List ℕ → M Set
  unfolding allocate set_parse_key set_new elems_from
  set_new_from_raw fuel name raw_key raw_payload = do
    key ← set_parse_key (suc (length raw_key)) raw_key
    s ← set_new name key
    allocate
    elems_from fuel s (some raw_payload) []

unfoldable pub set_add_elem : Set → List ℕ → M Set
unfolding allocate
set_add_elem s elem = do
  allocate
  allocate
  pure (record s { elems = s.elems ++ take s.elem_size elem ∷ [] })

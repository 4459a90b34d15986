-- ===== src/Daemon/Counters.antt =====
-- bf_cgen_get_counters() of src/bpfilter/cgen/cgen.c reads the whole counters map in order.
use bpfilter_study.Base.{
  ℕ, zero, suc, ◌+◌, ◌≤◌, ◌<◌, ◌≡◌, some, List, [], ◌∷◌, arith, length, ◌==◌, Bool-cases, ap, refl,
  inl, inr, Option, none, ◌∙◌,
}
use bpfilter_study.Daemon.{
  Cgen, BfProgram, allocate, lookup_counter, M, pure, call, ◌>>◌, run_call, ◌>>=◌, error, einval,
  deref,
}
use bpfilter_study.Daemon.Codegen.{
  cgen_get_counter, cgen_get_counters, counter_position, counters_from, counter_of,
}

-- `left` lookups in the counters map, from position `i` on, with the allocations of each round.
pub lookups : BfProgram → ℕ → ℕ → M (List ℕ)
lookups p zero i = pure []
lookups p (suc left) i = do
  run_call allocate
  c ← call (lookup_counter p.name i)
  run_call allocate
  cs ← lookups p left (i + 1)
  pure (c ∷ cs)

counter_position-of :
    (rules i : ℕ) → i < rules + 2 → counter_position rules (counter_of rules i) ≡ some i
unfolding counter_position counter_of
counter_position-of rules i lt = elim (Bool-cases (i == rules)) [
  | inl e ↦ rw e (ground arith)
  | inr ne ↦ rw ne (elim (Bool-cases (i == rules + 1)) [
    | inl e ↦ rw e (ground arith)
    | inr ne' ↦ rw ne' (ground arith)
  ])
]

get_counter-lookup :
    (c : Cgen) (p : BfProgram) (i : ℕ)
    → c.program ≡ some p
    → i < length c.chain.body.rules + 2
    → cgen_get_counter c (counter_of (length c.chain.body.rules) i) ≡ call (lookup_counter p.name i)
unfolding cgen_get_counter
get_counter-lookup c p i e lt =
    ap by_position (counter_position-of (length c.chain.body.rules) i lt) ∙ ap (by_program i) e
  where
    by_position : Option ℕ → M ℕ
    by_position o = elim o [
      | none ↦ error einval
      | some i ↦ (do p ← deref c.program; call (lookup_counter p.name i))
    ]

    by_program : ℕ → Option BfProgram → M ℕ
    by_program i o = do p ← deref o; call (lookup_counter p.name i)

counters_from-lookups :
    (c : Cgen) (p : BfProgram) (left i : ℕ)
    → c.program ≡ some p
    → i + left ≤ length c.chain.body.rules + 2
    → counters_from c left i ≡ lookups p left i
unfolding counters_from lookups
counters_from-lookups c p zero i e le = refl
counters_from-lookups c p (suc left) i e le =
    rw
      (
        get_counter-lookup c p i e (omega arith),
        counters_from-lookups c p left (i + 1) e (omega arith),
      )
      refl

-- For a codegen with a program, bf_cgen_get_counters() does the lookups of the counters map at the
-- positions 0 to the number of rules plus one, in this order: the rules', the policy's and the
-- errors' counter.
pub cgen_get_counters-lookups :
    (c : Cgen) (p : BfProgram)
    → c.program ≡ some p
    → cgen_get_counters c ≡ lookups p (length c.chain.body.rules + 2) 0
unfolding cgen_get_counters
cgen_get_counters-lookups c p e =
    counters_from-lookups c p (length c.chain.body.rules + 2) 0 e (omega arith)

-- ===== src/Daemon/Context.antt =====
-- src/bpfilter/ctx.c: the codegens of the daemon, found by the names of their chains.
use bpfilter_study.Base.{
  ℕ, Bool, List, Option, ◌∷◌, if◌then◌else◌, none, true, ◌==◌, [], false, some, ◌++◌,
}
use bpfilter_study.Daemon.{
  ipt, nft, cli, Front, Cgen, M, run_call, pure, ◌>>=◌, get_cgens, ◌>>◌, allocate, error, set_cgens,
  eexist, enoent,
}
use bpfilter_study.Daemon.Codegen.{cgen_unload, cgen_free}

abbrev pub same_front : Front → Front → Bool
same_front ipt ipt = true
same_front nft nft = true
same_front cli cli = true
same_front _ _ = false

unfoldable pub find_cgen : ℕ → List Cgen → Option Cgen
find_cgen name [] = none
find_cgen name (c ∷ cs) = if c.chain.name == name then some c else find_cgen name cs

unfoldable pub ctx_get_cgen : ℕ → M (Option Cgen)
unfolding find_cgen
ctx_get_cgen name = do cs ← get_cgens; pure (find_cgen name cs)

unfoldable pub ctx_set_cgen : Cgen → M (Unit {0})
unfolding run_call find_cgen
ctx_set_cgen cgen = do
  cs ← get_cgens
  elim (find_cgen cgen.chain.name cs) [
    | some _ ↦ error eexist
    | none ↦ do run_call allocate; set_cgens (cs ++ cgen ∷ [])
  ]

-- The object at an address, and the list without it.
unfoldable pub cgen_at : ℕ → List Cgen → Option Cgen
cgen_at a [] = none
cgen_at a (c ∷ cs) = if c.address == a then some c else cgen_at a cs

unfoldable pub without : ℕ → List Cgen → List Cgen
without a [] = []
without a (c ∷ cs) = if c.address == a then cs else c ∷ without a cs

abbrev pub drop_cgen : Cgen → M (Unit {0})
drop_cgen cgen = do cs ← get_cgens; set_cgens (without cgen.address cs); cgen_free cgen

abbrev pub unload_if : Bool → Cgen → M (Unit {0})
unload_if true cgen = cgen_unload cgen
unload_if false cgen = pure tt

unfoldable pub ctx_delete_cgen : ℕ → Bool → M (Unit {0})
unfolding cgen_at without cgen_unload cgen_free
ctx_delete_cgen a unload = do
  cs ← get_cgens
  elim (cgen_at a cs) [ none ↦ error enoent | some cgen ↦ do unload_if unload cgen; drop_cgen cgen ]

unfoldable pub flush_cgens : Front → List Cgen → M (Unit {0})
unfolding cgen_unload cgen_free without
flush_cgens front [] = pure tt
flush_cgens front (c ∷ cs) = do
  if same_front c.front front then (do cgen_unload c; drop_cgen c) else pure tt
  flush_cgens front cs

unfoldable pub ctx_flush : Front → M (Unit {0})
unfolding flush_cgens
ctx_flush front = do cs ← get_cgens; flush_cgens front cs

unfoldable pub cgens_for_front : Front → List Cgen → M (List Cgen)
unfolding run_call
cgens_for_front front [] = pure []
cgens_for_front front (c ∷ cs) =
    if same_front c.front front
    then (do run_call allocate; l ← cgens_for_front front cs; pure (c ∷ l))
    else cgens_for_front front cs

unfoldable pub ctx_get_cgens_for_front : Front → M (List Cgen)
unfolding cgens_for_front
ctx_get_cgens_for_front front = do cs ← get_cgens; cgens_for_front front cs

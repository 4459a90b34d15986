-- ===== src/Daemon/Valid.antt =====
-- The invariant of the daemon's codegens: chains have different names, objects different addresses,
-- and every codegen has a program.
use bpfilter_study.Base.{
  ℕ, ◌<◌, ◌+◌, ◌≡◌, ◌≢◌, refl, sym, none, some, List, [], ◌∷◌, ◌++◌, arith, ◌==◌, Bool-cases, inl,
  inr, ◌∙◌,
}
use bpfilter_study.Daemon.{Cgen, BfProgram, NamedChain}
use bpfilter_study.Daemon.Context.{find_cgen, without}
use bpfilter_study.Daemon.Codegen.{replace, with_chain, with_program}
use mathlib.Core.Path.{subst}

abbrev pub NameFree : ℕ → List Cgen → Type 0
NameFree name [] = Unit
NameFree name (c ∷ cs) = (c.chain.name ≢ name) × NameFree name cs

abbrev pub AddressFree : ℕ → List Cgen → Type 0
AddressFree a [] = Unit
AddressFree a (c ∷ cs) = (c.address ≢ a) × AddressFree a cs

abbrev pub HasProgram : Cgen → Type 0
HasProgram c = (p : BfProgram) × (c.program ≡ some p)

-- Objects have addresses below `n`.
abbrev pub Valid : List Cgen → ℕ → Type 0
Valid [] n = Unit
Valid (c ∷ cs) n =
    (c.address < n)
    × AddressFree c.address cs
    × NameFree c.chain.name cs
    × HasProgram c
    × Valid cs n

-- The object at an address has a name.
abbrev pub Named : ℕ → ℕ → List Cgen → Type 0
Named a name [] = Unit
Named a name (c ∷ cs) = (c.address ≡ a → c.chain.name ≡ name) × Named a name cs

pub Valid-fresh : (cs : List Cgen) (n : ℕ) → Valid cs n → Valid cs (n + 1)
Valid-fresh [] n v = tt
Valid-fresh (c ∷ cs) n v = (omega arith, v.1, v.2, v.3, Valid-fresh cs n v.4)

pub fresh-AddressFree : (cs : List Cgen) (n : ℕ) → Valid cs n → AddressFree n cs
fresh-AddressFree [] n v = tt
fresh-AddressFree (c ∷ cs) n v = (λ e. omega arith, fresh-AddressFree cs n v.4)

pub find_cgen-none : (name : ℕ) (cs : List Cgen) → find_cgen name cs ≡ none → NameFree name cs
unfolding find_cgen
find_cgen-none name [] e = tt
find_cgen-none name (c ∷ cs) e = elim (Bool-cases (c.chain.name == name)) [
  | inl h ↦ absurd (none_ne_some (rw h at e))
  | inr h ↦ (λ q. ground arith, find_cgen-none name cs (rw h at e))
]
  where
    none_ne_some : {c : Cgen} → some c ≢ none
    none_ne_some e = cc

pub find_cgen-name :
    (name : ℕ) (cs : List Cgen) {c : Cgen} → find_cgen name cs ≡ some c → c.chain.name ≡ name
unfolding find_cgen
find_cgen-name name [] e = absurd (cc)
find_cgen-name name (x ∷ cs) {c} e = elim (Bool-cases (x.chain.name == name)) [
  | inl h ↦ ground arith
  | inr h ↦ find_cgen-name name cs (rw h at e)
]

find_cgen-address :
    (name a : ℕ) (cs : List Cgen) {c : Cgen}
    → find_cgen name cs ≡ some c
    → AddressFree a cs
    → c.address ≢ a
unfolding find_cgen
find_cgen-address name a [] e out = absurd (cc)
find_cgen-address name a (x ∷ cs) {c} e out = elim (Bool-cases (x.chain.name == name)) [
  | inl h ↦ ground (arith, out.0)
  | inr h ↦ find_cgen-address name a cs (rw h at e) out.1
]

AddressFree-Named : (a name : ℕ) (cs : List Cgen) → AddressFree a cs → Named a name cs
AddressFree-Named a name [] out = tt
AddressFree-Named a name (c ∷ cs) out = (λ e. absurd (out.0 e), AddressFree-Named a name cs out.1)

pub find_cgen-Named :
    (name : ℕ) (cs : List Cgen) (n : ℕ) {c : Cgen}
    → Valid cs n
    → find_cgen name cs ≡ some c
    → Named c.address name cs
unfolding find_cgen
find_cgen-Named name [] n v e = tt
find_cgen-Named name (x ∷ cs) n {c} v e = elim (Bool-cases (x.chain.name == name)) [
  | inl h ↦
      let same : x ≡ c = ground arith in
      (
        λ _. ground arith,
        subst (λ (y : Cgen). Named y.address name cs) same
            (AddressFree-Named x.address name cs v.1),
      )
  | inr h ↦
      let found : find_cgen name cs ≡ some c = rw h at e in
      (
        λ q. absurd (find_cgen-address name x.address cs found v.1 (sym q)),
        find_cgen-Named name cs n v.4 found,
      )
]

pub find_cgen-HasProgram :
    (name : ℕ) (cs : List Cgen) (n : ℕ) {c : Cgen}
    → Valid cs n
    → find_cgen name cs ≡ some c
    → HasProgram c
unfolding find_cgen
find_cgen-HasProgram name [] n v e = absurd (cc)
find_cgen-HasProgram name (x ∷ cs) n {c} v e = elim (Bool-cases (x.chain.name == name)) [
  | inl h ↦ let same : x ≡ c = ground arith in subst HasProgram same v.3
  | inr h ↦ find_cgen-HasProgram name cs n v.4 (rw h at e)
]

module _ (a : ℕ) (p : BfProgram) where
  replace-AddressFree :
      (f : Cgen → Cgen) (b : ℕ) (cs : List Cgen)
      → ((c : Cgen) → (f c).address ≡ c.address)
      → AddressFree b cs
      → AddressFree b (replace a f cs)
  replace-AddressFree f b [] same out = tt
  replace-AddressFree f b (c ∷ cs) same out =
      (λ e. out.0 (ground (arith, same c)), replace-AddressFree f b cs same out.1)

  program-NameFree :
      (name : ℕ) (cs : List Cgen) → NameFree name cs → NameFree name (replace a (with_program p) cs)
  program-NameFree name [] out = tt
  program-NameFree name (c ∷ cs) out = (λ e. out.0 (ground arith), program-NameFree name cs out.1)

  pub Valid-program :
      (cs : List Cgen) (n : ℕ) → Valid cs n → Valid (replace a (with_program p) cs) n
  Valid-program [] n v = tt
  Valid-program (c ∷ cs) n v = elim (Bool-cases (c.address == a)) [
    | inl h ↦ rw h (
      v.0,
      replace-AddressFree (with_program p) c.address cs (λ _. refl) v.1,
      program-NameFree c.chain.name cs v.2,
      (p, refl),
      Valid-program cs n v.4,
    )
    | inr h ↦ rw h (
      v.0,
      replace-AddressFree (with_program p) c.address cs (λ _. refl) v.1,
      program-NameFree c.chain.name cs v.2,
      v.3,
      Valid-program cs n v.4,
    )
  ]

  pub program-AddressFree :
      (b : ℕ) (cs : List Cgen) → AddressFree b cs → AddressFree b (replace a (with_program p) cs)
  program-AddressFree b cs out = replace-AddressFree (with_program p) b cs (λ _. refl) out

  module _ (chain : NamedChain) where
    chain-NameFree :
        (name : ℕ) (cs : List Cgen)
        → Named a chain.name cs
        → NameFree name cs
        → NameFree name (replace a (with_chain chain p) cs)
    chain-NameFree name [] nm out = tt
    chain-NameFree name (c ∷ cs) nm out = elim (Bool-cases (c.address == a)) [
      | inl h ↦ rw h (λ e. out.0 (nm.0 (ground arith) ∙ e), chain-NameFree name cs nm.1 out.1)
      | inr h ↦ rw h (out.0, chain-NameFree name cs nm.1 out.1)
    ]

    -- The new chain has the name of the chain that it replaces.
    pub Valid-chain :
        (cs : List Cgen) (n : ℕ)
        → Named a chain.name cs
        → Valid cs n
        → Valid (replace a (with_chain chain p) cs) n
    Valid-chain [] n nm v = tt
    Valid-chain (c ∷ cs) n nm v = elim (Bool-cases (c.address == a)) [
      | inl h ↦ rw h (
        v.0,
        replace-AddressFree (with_chain chain p) c.address cs (λ _. refl) v.1,
        subst (λ m. NameFree m (replace a (with_chain chain p) cs)) (nm.0 (ground arith))
            (chain-NameFree c.chain.name cs nm.1 v.2),
        (p, refl),
        Valid-chain cs n nm.1 v.4,
      )
      | inr h ↦ rw h (
        v.0,
        replace-AddressFree (with_chain chain p) c.address cs (λ _. refl) v.1,
        chain-NameFree c.chain.name cs nm.1 v.2,
        v.3,
        Valid-chain cs n nm.1 v.4,
      )
    ]

without-NameFree : (a name : ℕ) (cs : List Cgen) → NameFree name cs → NameFree name (without a cs)
unfolding without
without-NameFree a name [] out = tt
without-NameFree a name (c ∷ cs) out = elim (Bool-cases (c.address == a)) [
  | inl h ↦ rw h out.1
  | inr h ↦ rw h (out.0, without-NameFree a name cs out.1)
]

pub without-AddressFree :
    (a b : ℕ) (cs : List Cgen) → AddressFree b cs → AddressFree b (without a cs)
unfolding without
without-AddressFree a b [] out = tt
without-AddressFree a b (c ∷ cs) out = elim (Bool-cases (c.address == a)) [
  | inl h ↦ rw h out.1
  | inr h ↦ rw h (out.0, without-AddressFree a b cs out.1)
]

pub Valid-without : (a : ℕ) (cs : List Cgen) (n : ℕ) → Valid cs n → Valid (without a cs) n
unfolding without
Valid-without a [] n v = tt
Valid-without a (c ∷ cs) n v = elim (Bool-cases (c.address == a)) [
  | inl h ↦ rw h v.4
  | inr h ↦ rw h (
    v.0,
    without-AddressFree a c.address cs v.1,
    without-NameFree a c.chain.name cs v.2,
    v.3,
    Valid-without a cs n v.4,
  )
]

append-NameFree :
    (name : ℕ) (cs : List Cgen) (c : Cgen)
    → NameFree name cs
    → c.chain.name ≢ name
    → NameFree name (cs ++ c ∷ [])
append-NameFree name [] c out ne = (ne, tt)
append-NameFree name (x ∷ cs) c out ne = (out.0, append-NameFree name cs c out.1 ne)

append-AddressFree :
    (a : ℕ) (cs : List Cgen) (c : Cgen)
    → AddressFree a cs
    → c.address ≢ a
    → AddressFree a (cs ++ c ∷ [])
append-AddressFree a [] c out ne = (ne, tt)
append-AddressFree a (x ∷ cs) c out ne = (out.0, append-AddressFree a cs c out.1 ne)

pub Valid-append :
    (cs : List Cgen) (n : ℕ) (c : Cgen)
    → Valid cs n
    → c.address < n
    → AddressFree c.address cs
    → NameFree c.chain.name cs
    → HasProgram c
    → Valid (cs ++ c ∷ []) n
Valid-append [] n c v lt out free p = (lt, tt, tt, p, tt)
Valid-append (x ∷ cs) n c v lt out free p = (
  v.0,
  append-AddressFree x.address cs c v.1 (λ e. out.0 (sym e)),
  append-NameFree x.chain.name cs c v.2 (λ e. free.0 (sym e)),
  v.3,
  Valid-append cs n c v.4 lt out.1 free.1 p,
)

-- The name of a codegen that has been appended is found.
pub find_cgen-append :
    (cs : List Cgen) (c : Cgen)
    → NameFree c.chain.name cs
    → find_cgen c.chain.name (cs ++ c ∷ []) ≡ some c
unfolding find_cgen
find_cgen-append [] c free = ground arith
find_cgen-append (x ∷ cs) c free = ground (arith, free.0, find_cgen-append cs c free.1)

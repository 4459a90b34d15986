-- ===== src/Daemon/Known.antt =====
-- Rules for the daemon's functions when it matters what a call has given, in one environment.
use bpfilter_study.Daemon.{
  Env, Run, Call, Daemon, M, call, ok, pure, ◌>>=◌, BfProgram, and_then, ask, stop, Answer, Cgen,
  crash, deref, done, value_of, failed, attempt,
}
use bpfilter_study.Base.{Option, List, ℕ, ◌≡◌, some, none, ◌∷◌, refl, inl, inr}
use bpfilter_study.Daemon.Rules.{
  Store, After, Does, Same, Steady, and_then-After, same_ok, after_ok, same_stop, after_stop,
  after_crash, same_crash, caught-After,
}

-- What holds of a result, if there is one.
pub data Yields {A : Type 0} (K : A → Type 0) : Run A → Type 0 where
  yields : {a : A} {d : Daemon} → K a → Yields K (ok a d)
  stops : {e : ℕ} {d : Daemon} → Yields K (stop e d)
  crashes : Yields K crash

pub record Gives (env : Env) {A : Type 0} (m : M A) (K : A → Type 0) : Type 0 where
  pub run : (d : Daemon) → Yields K (m env d)

and_then-Yields :
    {A B : Type 0} {J : A → Type 0} {K : B → Type 0} {r : Run A} (k : A → Daemon → Run B)
    → Yields J r
    → ((a : A) (d : Daemon) → J a → Yields K (k a d))
    → Yields K (and_then r k)
and_then-Yields k (yields {a} {d} j) h = h a d j
and_then-Yields k stops h = stops
and_then-Yields k crashes h = crashes

any-Yields : {A : Type 0} (r : Run A) → Yields (λ a. Unit {0}) r
any-Yields (ok a d) = yields tt
any-Yields (stop e d) = stops
any-Yields crash = crashes

-- The system has answered the call with the value, after some calls.
abbrev pub Answered : Env → Call → ℕ → Type 0
Answered env c v = (h : List Call) × (env.host h c ≡ done v)

module _ {env : Env} where
  pub Gives->>= :
      {A B : Type 0} {m : M A} {k : A → M B} {J : A → Type 0} {K : B → Type 0}
      → Gives env m J
      → ((a : A) → J a → Gives env (k a) K)
      → Gives env (m >>= k) K
  Gives->>= {k} g h = record {
    run = λ d. and_then-Yields (λ a. k a env) (g.run d) (λ a d j. (h a j).run d);
  }

  pub any-Gives : {A : Type 0} (m : M A) → Gives env m (λ a. Unit {0})
  any-Gives m = record { run = λ d. any-Yields (m env d) }

  -- A step of whose result nothing is known.
  pub Gives-then :
      {A B : Type 0} (m : M A) {k : A → M B} {K : B → Type 0}
      → ((a : A) → Gives env (k a) K)
      → Gives env (m >>= k) K
  Gives-then m h = Gives->>= (any-Gives m) (λ a _. h a)

  pub pure-Gives : {A : Type 0} {a : A} {K : A → Type 0} → K a → Gives env (pure a) K
  pure-Gives j = record { run = λ d. yields j }

  pub call-Gives : (c : Call) → Gives env (call c) (Answered env c)
  unfolding call ask
  call-Gives c = record { run = λ d. by_answer d (env.host d.calls c) refl }
    where
      by_answer :
          (d : Daemon) (a : Answer)
          → env.host d.calls c ≡ a
          → Yields (Answered env c) (value_of a env (record d { calls = c ∷ d.calls }))
      by_answer d (done v) e = yields (d.calls, e)
      by_answer d (failed v) e = stops

  pub deref-Gives : (o : Option BfProgram) → Gives env (deref o) (λ p. o ≡ some p)
  deref-Gives none = record { run = λ d. crashes }
  deref-Gives (some p) = record { run = λ d. yields refl }

-- `Does` in one environment.
pub record DoesIn (env : Env) {A : Type 0} (P : Store) (m : M A) (Q : A → Store) (S : Store)
    : Type 0 where
  pub run : (d : Daemon) → P d.cgens d.fresh → After Q S (m env d)

module _ {A : Type 0} {P S : Store} where
  known-After :
      {K : A → Type 0} {d : Daemon} {r : Run A}
      → ((cs : List Cgen) (n : ℕ) → P cs n → S cs n)
      → P d.cgens d.fresh
      → Same d r
      → Yields K r
      → After (λ a cs n. K a × P cs n) S r
  known-After weak p (same_ok e f) (yields j) = after_ok (j, rw (e, f) p)
  known-After {d} weak p (same_stop e f) y = after_stop (rw (e, f) (weak d.cgens d.fresh p))
  known-After weak p same_crash y = after_crash

module _ {env : Env} {A : Type 0} {P S : Store} where
  pub DoesIn-Does : {m : M A} {Q : A → Store} → Does P m Q S → DoesIn env P m Q S
  DoesIn-Does x = record { run = λ d p. x.run env d p }

  -- A step that leaves the codegens alone, and of whose result something is known.
  pub Known-then :
      {B : Type 0} {m : M A} {k : A → M B} {K : A → Type 0} {R : B → Store}
      → ((cs : List Cgen) (n : ℕ) → P cs n → S cs n)
      → Steady m
      → Gives env m K
      → ((a : A) → K a → DoesIn env P (k a) R S)
      → DoesIn env P (m >>= k) R S
  Known-then {k} weak s g h = record {
    run = λ d p.
        and_then-After (λ a. k a env) (known-After weak p (s.run env d) (g.run d))
          (λ a e q. (h a q.0).run e q.1);
  }

  pub In-then :
      {B : Type 0} {m : M A} {k : A → M B} {R : B → Store}
      → ((cs : List Cgen) (n : ℕ) → P cs n → S cs n)
      → Steady m
      → ((a : A) → DoesIn env P (k a) R S)
      → DoesIn env P (m >>= k) R S
  In-then {m} weak s h = Known-then weak s (any-Gives m) (λ a _. h a)

  pub DoesIn->>= :
      {B : Type 0} {m : M A} {k : A → M B} {Q : A → Store} {R : B → Store}
      → DoesIn env P m Q S
      → ((a : A) → DoesIn env (Q a) (k a) R S)
      → DoesIn env P (m >>= k) R S
  DoesIn->>= {k} x y = record {
    run = λ d p. and_then-After (λ a. k a env) (x.run d p) (λ a e q. (y a).run e q);
  }

  pub DoesIn-attempt :
      {m : M A} {Q : A → Store} {T : Store}
      → DoesIn env P m Q S
      → DoesIn env P (attempt m) (λ r. elim r [ inl a ↦ Q a | inr e ↦ S ]) T
  DoesIn-attempt x = record { run = λ d p. caught-After (x.run d p) }

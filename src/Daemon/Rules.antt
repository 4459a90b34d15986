-- ===== src/Daemon/Rules.antt =====
-- Rules for the daemon's functions: those that leave the codegens alone, and those that take one
-- property of the codegens to another.
use bpfilter_study.Base.{
  ℕ, ◌≡◌, refl, inl, inr, ◌⊎◌, List, true, false, Bool, Option, if◌then◌else◌, ◌∙◌, some, none,
}
use bpfilter_study.Daemon.{
  Answer, done, failed, Call, Cgen, Daemon, Run, ok, stop, crash, M, pure, error, and_then, ◌>>=◌,
  caught, attempt, ask, value_of, call, run_call, when_persist, deref, BfProgram, Env, get_cgens,
  set_cgens,
}

-- A run that leaves the codegens and the addresses as they were.
pub data Same (d : Daemon) {A : Type 0} : Run A → Type 0 where
  same_ok : {a : A} {d' : Daemon} → d'.cgens ≡ d.cgens → d'.fresh ≡ d.fresh → Same d (ok a d')
  same_stop : {e : ℕ} {d' : Daemon} → d'.cgens ≡ d.cgens → d'.fresh ≡ d.fresh → Same d (stop e d')
  same_crash : Same d crash

pub record Steady {A : Type 0} (m : M A) : Type 0 where
  pub run : (env : Env) (d : Daemon) → Same d (m env d)

Same-trans :
    {A : Type 0} {d e : Daemon} {r : Run A}
    → e.cgens ≡ d.cgens
    → e.fresh ≡ d.fresh
    → Same e r
    → Same d r
Same-trans p q (same_ok s t) = same_ok (s ∙ p) (t ∙ q)
Same-trans p q (same_stop s t) = same_stop (s ∙ p) (t ∙ q)
Same-trans p q same_crash = same_crash

and_then-Same :
    {A B : Type 0} {d : Daemon} {r : Run A} (k : A → Daemon → Run B)
    → Same d r
    → ((a : A) (e : Daemon) → Same e (k a e))
    → Same d (and_then r k)
and_then-Same k (same_ok {a} {d'} p q) h = Same-trans p q (h a d')
and_then-Same k (same_stop p q) h = same_stop p q
and_then-Same k same_crash h = same_crash

caught-Same : {A : Type 0} {d : Daemon} {r : Run A} → Same d r → Same d (caught r)
caught-Same (same_ok p q) = same_ok p q
caught-Same (same_stop p q) = same_ok p q
caught-Same same_crash = same_crash

pub Steady->>= :
    {A B : Type 0} {m : M A} {k : A → M B} → Steady m → ((a : A) → Steady (k a)) → Steady (m >>= k)
Steady->>= {k} s t = record {
  run = λ env d. and_then-Same (λ a. k a env) (s.run env d) (λ a e. (t a).run env e);
}

pub pure-Steady : {A : Type 0} (a : A) → Steady (pure a)
pure-Steady a = record { run = λ env d. same_ok refl refl }

pub error-Steady : {A : Type 0} (e : ℕ) → Steady (error {A = A} e)
error-Steady e = record { run = λ env d. same_stop refl refl }

pub ask-Steady : (c : Call) → Steady (ask c)
unfolding ask
ask-Steady c = record { run = λ env d. same_ok refl refl }

value_of-Steady : (a : Answer) → Steady (value_of a)
value_of-Steady (done v) = pure-Steady v
value_of-Steady (failed e) = error-Steady e

pub call-Steady : (c : Call) → Steady (call c)
unfolding call
call-Steady c = Steady->>= (ask-Steady c) value_of-Steady

pub run_call-Steady : (c : Call) → Steady (run_call c)
unfolding run_call
run_call-Steady c = Steady->>= (call-Steady c) (λ _. pure-Steady tt)

pub attempt-Steady : {A : Type 0} {m : M A} → Steady m → Steady (attempt m)
attempt-Steady s = record { run = λ env d. caught-Same (s.run env d) }

pub when_persist-Steady : {m : M (Unit {0})} → Steady m → Steady (when_persist m)
when_persist-Steady {m} s = record { run = λ env d. split env d env.persist }
  where
    split : (env : Env) (d : Daemon) (b : Bool) → Same d (if b then m env d else ok tt d)
    split env d true = s.run env d
    split env d false = same_ok refl refl

pub deref-Steady : (p : Option BfProgram) → Steady (deref p)
deref-Steady (some p) = pure-Steady p
deref-Steady none = record { run = λ env d. same_crash }

pub crash-Steady : {A : Type 0} → Steady {A = A} (λ env d. crash)
crash-Steady = record { run = λ env d. same_crash }

-- What holds of the codegens and of the next address.
abbrev pub Store : Type 1
Store = List Cgen → ℕ → Type 0

-- What a run establishes: `Q` of its result, or `S` if it stops.
pub data After {A : Type 0} (Q : A → Store) (S : Store) : Run A → Type 0 where
  after_ok : {a : A} {d : Daemon} → Q a d.cgens d.fresh → After Q S (ok a d)
  after_stop : {e : ℕ} {d : Daemon} → S d.cgens d.fresh → After Q S (stop e d)
  after_crash : After Q S crash

-- The error of a function that is called by `attempt` is a result.
pub caught-After :
    {A : Type 0} {Q : A → Store} {S T : Store} {r : Run A}
    → After Q S r
    → After (λ (r : A ⊎ ℕ). elim r [ inl a ↦ Q a | inr e ↦ S ]) T (caught r)
caught-After (after_ok q) = after_ok q
caught-After (after_stop s) = after_ok s
caught-After after_crash = after_crash

pub After-weaken :
    {A : Type 0} {S T : Store} {Q R : A → Store} {r : Run A}
    → ((a : A) (cs : List Cgen) (n : ℕ) → Q a cs n → R a cs n)
    → ((cs : List Cgen) (n : ℕ) → S cs n → T cs n)
    → After Q S r
    → After R T r
After-weaken f g (after_ok {a} {d} q) = after_ok (f a d.cgens d.fresh q)
After-weaken f g (after_stop {d} s) = after_stop (g d.cgens d.fresh s)
After-weaken f g after_crash = after_crash

pub record Does {A : Type 0} (P : Store) (m : M A) (Q : A → Store) (S : Store) : Type 0 where
  pub run : (env : Env) (d : Daemon) → P d.cgens d.fresh → After Q S (m env d)

pub and_then-After :
    {A B : Type 0} {Q : A → Store} {R : B → Store} {S : Store} {r : Run A} (k : A → Daemon → Run B)
    → After Q S r
    → ((a : A) (e : Daemon) → Q a e.cgens e.fresh → After R S (k a e))
    → After R S (and_then r k)
and_then-After k (after_ok {a} {d} q) h = h a d q
and_then-After k (after_stop s) h = after_stop s
and_then-After k after_crash h = after_crash

unchanged-After :
    {A : Type 0} {P S : Store} {d : Daemon} {r : Run A}
    → P d.cgens d.fresh
    → ((cs : List Cgen) (n : ℕ) → P cs n → S cs n)
    → Same d r
    → After (λ _. P) S r
unchanged-After {P} {d} p weak (same_ok {d'} e f) = after_ok (rw (e, f) p)
unchanged-After {S} {d} p weak (same_stop {d'} e f) =
    after_stop (rw (e, f) (weak d.cgens d.fresh p))
unchanged-After p weak same_crash = after_crash

module _ {A B : Type 0} {P S : Store} where
  pub Does->>= :
      {m : M A} {k : A → M B} {Q : A → Store} {R : B → Store}
      → Does P m Q S
      → ((a : A) → Does (Q a) (k a) R S)
      → Does P (m >>= k) R S
  Does->>= {k} x y = record {
    run = λ env d p. and_then-After (λ a. k a env) (x.run env d p) (λ a e q. (y a).run env e q);
  }

  -- A step that leaves the codegens alone.
  pub Steady-then :
      {m : M A} {k : A → M B} {R : B → Store}
      → ((cs : List Cgen) (n : ℕ) → P cs n → S cs n)
      → Steady m
      → ((a : A) → Does P (k a) R S)
      → Does P (m >>= k) R S
  Steady-then weak s y =
      Does->>= (record { run = λ env d p. unchanged-After p weak (s.run env d) }) y

module _ {A : Type 0} {P : Store} where
  pub Does-pure :
      (a : A) {Q : A → Store} {S : Store}
      → ((cs : List Cgen) (n : ℕ) → P cs n → Q a cs n)
      → Does P (pure a) Q S
  Does-pure a h = record { run = λ env d p. after_ok (h d.cgens d.fresh p) }

  pub Does-error :
      (e : ℕ) {Q : A → Store} {S : Store}
      → ((cs : List Cgen) (n : ℕ) → P cs n → S cs n)
      → Does P (error e) Q S
  Does-error e h = record { run = λ env d p. after_stop (h d.cgens d.fresh p) }

  pub Steady-Does :
      {m : M A} {S : Store}
      → ((cs : List Cgen) (n : ℕ) → P cs n → S cs n)
      → Steady m
      → Does P m (λ _. P) S
  Steady-Does weak s = record { run = λ env d p. unchanged-After p weak (s.run env d) }

  pub Does-attempt :
      {m : M A} {Q : A → Store} {S T : Store}
      → Does P m Q S
      → Does P (attempt m) (λ r. elim r [ inl a ↦ Q a | inr e ↦ S ]) T
  Does-attempt x = record { run = λ env d p. caught-After (x.run env d p) }

pub Does-weaken :
    {A : Type 0} {P S T : Store} {m : M A} {Q R : A → Store}
    → ((a : A) (cs : List Cgen) (n : ℕ) → Q a cs n → R a cs n)
    → ((cs : List Cgen) (n : ℕ) → S cs n → T cs n)
    → Does P m Q S
    → Does P m R T
Does-weaken f g x = record { run = λ env d p. After-weaken f g (x.run env d p) }

pub Does-get :
    {A : Type 0} {P S : Store} {k : List Cgen → M A} {R : A → Store}
    → ((cs : List Cgen) → Does (λ l n. P l n × (l ≡ cs)) (k cs) R S)
    → Does P (get_cgens >>= k) R S
Does-get x = record { run = λ env d p. (x d.cgens).run env d (p, refl) }

pub Does-set :
    {P S : Store} (l : List Cgen) {Q : Unit {0} → Store}
    → ((cs : List Cgen) (n : ℕ) → P cs n → Q tt l n)
    → Does P (set_cgens l) Q S
Does-set l f = record { run = λ env d p. after_ok (f d.cgens d.fresh p) }

-- A pure case distinction on what is known before.
pub cases_Does :
    {A : Type 0} {P S : Store} {m : M A} {R : A → Store}
    → ((cs : List Cgen) (n : ℕ) → P cs n → Does (λ l k. (l ≡ cs) × (k ≡ n)) m R S)
    → Does P m R S
cases_Does x = record { run = λ env d p. (x d.cgens d.fresh p).run env d (refl, refl) }

pub Does-before :
    {A : Type 0} {P P' S : Store} {m : M A} {Q : A → Store}
    → ((cs : List Cgen) (n : ℕ) → P' cs n → P cs n)
    → Does P m Q S
    → Does P' m Q S
Does-before f x = record { run = λ env d p. x.run env d (f d.cgens d.fresh p) }

pub when_persist-Does :
    {P : Store} {m : M (Unit {0})} → Does P m (λ _. P) P → Does P (when_persist m) (λ _. P) P
when_persist-Does {P} {m} x = record { run = λ env d p. split env d p env.persist }
  where
    split :
        (env : Env) (d : Daemon)
        → P d.cgens d.fresh
        → (b : Bool) → After (λ _. P) P (if b then m env d else ok tt d)
    split env d p true = x.run env d p
    split env d p false = after_ok p

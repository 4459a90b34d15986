-- ===== src/Machine/Seq.antt =====
-- Runs of code in sequence.
use bpfilter_study.Base.{ℕ, zero, suc, ◌≡◌, refl, List, [], ◌∷◌, ◌++◌}
use bpfilter_study.Fixup.{Cell}
use bpfilter_study.Machine.{
  Machine, Kernel, Step, hop, leave, halt, stuck, step, Outcome, fell, next, exited, faulted,
  follow, exec,
}

abbrev pub and_then : Outcome → (ℕ → Machine → Outcome) → Outcome
and_then (fell n m) f = f n m
and_then (next m) f = next m
and_then (exited m) f = exited m
and_then faulted f = faulted

follow-and_then :
    (f g h : ℕ → Machine → Outcome) (s : Step)
    → ((n : ℕ) (m : Machine) → f n m ≡ and_then (g n m) h)
    → follow f s ≡ and_then (follow g s) h
follow-and_then f g h (hop n m) e = e n m
follow-and_then f g h (leave m) e = refl
follow-and_then f g h (halt m) e = refl
follow-and_then f g h stuck e = refl

-- Code behind code runs from where the first part falls off its end.
pub exec-append :
    (k : Kernel) (cs ds : List Cell) (n : ℕ) (m : Machine)
    → exec k (cs ++ ds) n m ≡ and_then (exec k cs n m) (exec k ds)
unfolding exec
exec-append k [] ds n m = refl
exec-append k (c ∷ cs) ds (suc n) m = exec-append k cs ds n m
exec-append k (c ∷ cs) ds zero m =
    follow-and_then (exec k (cs ++ ds)) (exec k cs) (exec k ds) (step k c m) (exec-append k cs ds)

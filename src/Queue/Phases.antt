-- ===== src/Queue/Phases.antt =====
-- The phases of all producers: which of them are bounded, and how many threads are active.
use gizmosql_odbc_driver.Prelude.{
  ℕ, zero, suc, ◌+◌, ◌≤◌, List, [], ◌∷◌, ◌++◌, set, get_elem?, some, ◌≡◌, refl, subst, arith,
}
use mathlib.Core.Option.{some-injective, none-ne-some}
use gizmosql_odbc_driver.Queue.System.{Phase, running}
use gizmosql_odbc_driver.Queue.Turns.{IsBounded, weight}

abbrev pub AllBounded : List Phase → Type 0
AllBounded [] = Unit
AllBounded (p ∷ ps) = IsBounded p × AllBounded ps

-- The threads that have not come to their end.
abbrev pub active_count : List Phase → ℕ
active_count [] = 0
active_count (p ∷ ps) = weight p + active_count ps

pub AllBounded-get :
    (ps : List Phase) (i : ℕ) (p : Phase) → AllBounded ps → get_elem? ps i ≡ some p → IsBounded p
AllBounded-get [] i p all at = absurd (none-ne-some p at)
AllBounded-get (x ∷ ps) zero p all at = subst IsBounded (some-injective x p at) all.0
AllBounded-get (x ∷ ps) (suc i) p all at = AllBounded-get ps i p all.1 at

pub AllBounded-set :
    (ps : List Phase) (i : ℕ) (p : Phase) → AllBounded ps → IsBounded p → AllBounded (set ps i p)
AllBounded-set [] i p all new = tt
AllBounded-set (x ∷ ps) zero p all new = (new, all.1)
AllBounded-set (x ∷ ps) (suc i) p all new = (all.0, AllBounded-set ps i p all.1 new)

pub AllBounded-append : (ps : List Phase) → AllBounded ps → AllBounded (ps ++ running ∷ [])
AllBounded-append [] all = (tt, tt)
AllBounded-append (x ∷ ps) all = (all.0, AllBounded-append ps all.1)

pub active_count-append :
    (ps : List Phase) → active_count (ps ++ running ∷ []) ≡ suc (active_count ps)
active_count-append [] = refl
active_count-append (x ∷ ps) = omega (arith, active_count-append ps)

pub active_count-get :
    (ps : List Phase) (i : ℕ) (p : Phase) → get_elem? ps i ≡ some p → weight p ≤ active_count ps
active_count-get [] i p at = absurd (none-ne-some p at)
active_count-get (x ∷ ps) zero p at =
    subst (λ y. weight y ≤ active_count (x ∷ ps)) (some-injective x p at) (omega arith)
active_count-get (x ∷ ps) (suc i) p at = omega (arith, active_count-get ps i p at)

pub active_count-set :
    (ps : List Phase) (i : ℕ) (p p' : Phase)
    → get_elem? ps i ≡ some p
    → active_count (set ps i p') + weight p ≡ active_count ps + weight p'
active_count-set [] i p p' at = absurd (none-ne-some p at)
active_count-set (x ∷ ps) zero p p' at =
    subst (λ y. active_count (set (x ∷ ps) 0 p') + weight y ≡ active_count (x ∷ ps) + weight p')
      (some-injective x p at) (omega arith)
active_count-set (x ∷ ps) (suc i) p p' at = omega (arith, active_count-set ps i p p' at)

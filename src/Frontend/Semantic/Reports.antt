-- ===== src/Frontend/Semantic/Reports.antt =====
-- Steps that add errors to the sink: how the verdicts of a chain of checks add up.
use hasten.Common.{
  ◌≡◌, refl, sym, ◌∙◌, ap, List, [], ◌∷◌, Bool, true, false, not, ◌&&◌, ◌||◌, if◌then◌else◌,
}
use hasten.Common.Bools.{all}
use hasten.Frontend.Program.{SourceLocation, Message, Diagnostic, error, report, has_errors}
use hasten.Frontend.Ids.Laws.{has_errors-report, or_false}
use hasten.Frontend.Semantic.Passes.{each}

-- The step adds an error exactly if what it checks is not good.
abbrev pub Reports : (List Diagnostic → List Diagnostic) → Bool → Type 0
Reports step good =
    (sink : List Diagnostic) → has_errors (step sink) ≡ (has_errors sink || not good)

pub Reports-none : Reports (λ sink. sink) true
Reports-none sink = sym (or_false (has_errors sink))

pub Reports-error : (at : SourceLocation) (m : Message) → Reports (report error at m) false
Reports-error at m sink = has_errors-report error at m sink

pub Reports-if :
    (b : Bool) (at : SourceLocation) (m : Message)
    → Reports (λ sink. if b then report error at m sink else sink) (not b)
Reports-if true at m = Reports-error at m
Reports-if false at m = Reports-none

both_good : (e a b : Bool) → ((e || not a) || not b) ≡ (e || not (a && b))
both_good true a b = refl
both_good false true b = refl
both_good false false b = refl

pub Reports-then :
    (f g : List Diagnostic → List Diagnostic) (a b : Bool)
    → Reports f a
    → Reports g b
    → Reports (λ sink. g (f sink)) (a && b)
Reports-then f g a b first then_b sink =
    then_b (f sink) ∙ ap (λ (e : Bool). e || not b) (first sink) ∙ both_good (has_errors sink) a b

pub Reports-cong :
    (f : List Diagnostic → List Diagnostic) (a b : Bool) → a ≡ b → Reports f a → Reports f b
Reports-cong f a b equal reports sink =
    reports sink ∙ ap (λ (good : Bool). has_errors sink || not good) equal

module _ {ℓ} {A : Type ℓ} where
  pub Reports-each :
      (step : A → List Diagnostic → List Diagnostic) (good : A → Bool)
      → ((x : A) → Reports (step x) (good x))
      → (xs : List A) → Reports (each step xs) (all good xs)
  unfolding each all
  Reports-each step good reports [] = Reports-none
  Reports-each step good reports (x ∷ xs) =
      Reports-then (step x) (each step xs) (good x) (all good xs) (reports x)
        (Reports-each step good reports xs)

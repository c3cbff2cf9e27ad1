-- ===== src/Frontend/Semantic/Validator.antt =====
-- src/frontend/semantic/validator.cpp: the passes of a validator and its run. A factory may be
-- empty, and what it makes may be null.
use hasten.Common.{List, [], ◌∷◌, ◌++◌, Option, none, some}
use hasten.Frontend.Program.{Program, Diagnostic}
use hasten.Frontend.Semantic.{Context}
use hasten.Frontend.Semantic.Passes.{
  each, module_index_pass, declaration_index_pass, enum_validation_pass, struct_validation_pass,
  interface_validation_pass,
}

abbrev pub Pass : Type 0
Pass = Program → Context → Context

-- What a call of the factory returns, if there is a function in it.
abbrev pub PassFactory : Type 0
PassFactory = Option (Option Pass)

unfoldable pub add_pass_factory : PassFactory → List PassFactory → List PassFactory
add_pass_factory factory factories = factories ++ (factory ∷ [])

abbrev add_pass : Pass → List PassFactory → List PassFactory
add_pass pass factories = add_pass_factory (some (some pass)) factories

unfoldable pub clear_passes : List PassFactory → List PassFactory
clear_passes factories = []

unfoldable pub register_default_passes : List PassFactory → List PassFactory
register_default_passes factories = add_pass interface_validation_pass (
    add_pass struct_validation_pass (
      add_pass enum_validation_pass
        (add_pass declaration_index_pass (add_pass module_index_pass factories))))

unfoldable pub use_default_passes : List PassFactory → List PassFactory
use_default_passes factories = register_default_passes (clear_passes factories)

-- The list of passes of a new validator.
abbrev pub validator : List PassFactory
validator = register_default_passes []

unfoldable pub instantiate_passes : List PassFactory → List (Option Pass)
instantiate_passes [] = []
instantiate_passes (none ∷ factories) = instantiate_passes factories
instantiate_passes (some pass ∷ factories) = pass ∷ instantiate_passes factories

unfoldable pub run_pass : Program → Option Pass → Context → Context
run_pass program none context = context
run_pass program (some pass) context = pass program context

-- `run`: what it leaves in the sink.
unfoldable pub run : List PassFactory → Program → List Diagnostic → List Diagnostic
run factories program sink =
    (each (run_pass program) (instantiate_passes factories)
      record { module_index = []; declaration_index = []; diagnostics = sink }).diagnostics

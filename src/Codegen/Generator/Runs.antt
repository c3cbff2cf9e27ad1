-- ===== src/Codegen/Generator/Runs.antt =====
-- A run of the generator follows its plan.
use Prim.Native.String.{String}
use text.Mathlib.Text.{◌==◌ as ◌is◌}
use hasten.Common.{◌≡◌, refl, sym, ap, ◌∙◌, List, [], ◌∷◌, ◌++◌, append_assoc, map, false, some}
use hasten.Frontend.Program.{Program}
use hasten.Codegen.Ir.{IrInterface, IrModule}
use hasten.Codegen.Builder.{build_internal_representation}
use hasten.Codegen.Emitter.Names.{module_base_name}
use hasten.Codegen.Files.{
  Expected, expected, unexpected, Done, done, Files, System, OverFiles, existing,
  write_file_if_changed,
}
use hasten.Codegen.Files.Laws.{Written, kept, replaced, refused, Written-write_file_if_changed}
use hasten.Codegen.Generator.Modules.{
  then_do, with_message, artifacts_of, emit_interface, emit_interfaces, emit_module,
}
use hasten.Codegen.Generator.{emit_modules, output_root, run}
use hasten.Codegen.Generator.Plan.{
  Plan, directory_of, sources_of, all_sources, module_plan, modules_plan, outputs_of, all_targets,
  run_plan,
}

-- One step of a plan: the file has the content already and nothing is written, or it has another
-- one and gets what the system keeps of the content.
pub data Step (system : System) (path content : String) (files : Files) : Files → Type 0 where
  skips : existing (files path) ≡ content → Step system path content files files
  writes :
      (after : Files)
      → (existing (files path) is content) ≡ false
      → after path ≡ some (system.written path content)
      → ((p : String) → (p is path) ≡ false → after p ≡ files p)
      → Step system path content files after

pub data Steps (system : System) : Plan → Files → Files → Type 0 where
  nothing : (files : Files) → Steps system [] files files
  step :
      {path content : String} {plan : Plan} {files middle after : Files}
      → Step system path content files middle
      → Steps system plan middle after
      → Steps system ((path, content) ∷ plan) files after

-- A success comes after all steps of the plan and gives the value; a failure comes after the steps
-- of a front part.
pub data Follows {A : Type 0} (system : System) (plan : Plan) (value : A) (files : Files)
    : Expected A × Files → Type 0 where
  all_done :
      (after : Files)
      → Steps system plan files after
      → Follows system plan value files (expected value, after)
  stopped :
      (message : String) (after : Files) (front rest : Plan)
      → plan ≡ front ++ rest
      → Steps system front files after
      → Follows system plan value files (unexpected message, after)

module _ {system : System} where
  Steps-append :
      {front plan : Plan} {files middle after : Files}
      → Steps system front files middle
      → Steps system plan middle after
      → Steps system (front ++ plan) files after
  Steps-append (nothing files) more = more
  Steps-append (step s steps) more = step s (Steps-append steps more)

  Follows-behind :
      {B : Type 0} {b : B} {files middle : Files} (front plan : Plan) (outcome : Expected B × Files)
      → Steps system front files middle
      → Follows system plan b middle outcome
      → Follows system (front ++ plan) b files outcome
  Follows-behind front plan outcome steps (all_done after more) =
      all_done after (Steps-append steps more)
  Follows-behind front plan outcome steps (stopped message after some_steps rest splits more) =
      stopped message after (front ++ some_steps) rest
        (ap (λ p. front ++ p) splits ∙ sym (append_assoc front some_steps rest))
        (Steps-append steps more)

  Follows-then_do :
      {A B : Type 0} {a : A} {b : B} {files : Files} (first plan : Plan) (next : A → OverFiles B)
      (outcome : Expected A × Files)
      → Follows system first a files outcome
      → ((middle : Files) → Follows system plan b middle (next a middle))
      → Follows system (first ++ plan) b files (then_do outcome next)
  Follows-then_do first plan next outcome (stopped message after front rest splits steps) onward =
      stopped message after front (rest ++ plan)
        (ap (λ p. p ++ plan) splits ∙ append_assoc front rest plan) steps
  Follows-then_do first plan next outcome (all_done middle steps) onward =
      Follows-behind first plan (next _ middle) steps (onward middle)

  Follows-created :
      {A : Type 0} {a : A} {files : Files} (plan : Plan) (words : String) (there : Expected Done)
      (next : Done → OverFiles A)
      → ((d : Done) (files : Files) → Follows system plan a files (next d files))
      → Follows system plan a files (then_do (with_message words there, files) next)
  Follows-created plan words (expected d) next onward = onward d _
  Follows-created plan words (unexpected message) next onward = stopped _ _ [] plan refl (nothing _)

  Follows-return :
      {A : Type 0} (a : A) (files : Files) → Follows system [] a files (expected a, files)
  Follows-return a files = all_done files (nothing files)

  -- What is made of the value when nothing more is done.
  with_more :
      {A B : Type 0} {a : A} {files : Files} (plan : Plan) (change : A → B)
      (outcome : Expected A × Files)
      → Follows system plan a files outcome
      → Follows system plan
          (change a)
          files
          (then_do outcome (λ value files. (expected (change value), files)))
  with_more plan change outcome (all_done after steps) = all_done after steps
  with_more plan change outcome (stopped message after front rest splits steps) =
      stopped message after front rest splits steps

  of_written :
      {path content : String} {files : Files} (outcome : Expected Done × Files)
      → Written system path content files outcome
      → Follows system ((path, content) ∷ []) done files outcome
  of_written outcome (kept same) = all_done _ (step (skips same) (nothing _))
  of_written outcome (replaced after differs opens has others) =
      all_done after (step (writes after differs has others) (nothing after))
  of_written outcome (refused message why) = stopped message _ [] _ refl (nothing _)

  Follows-write :
      (path content : String) (files : Files)
      → Follows system
          ((path, content) ∷ [])
          done
          files
          (write_file_if_changed system path (expected content) files)
  Follows-write path content files =
      of_written _ (Written-write_file_if_changed system path content files)

  Follows-emit_interface :
      (root : String) (ir : IrModule) (iface : IrInterface) (files : Files)
      → Follows system
          (sources_of root ir iface)
          (artifacts_of (directory_of root ir) (module_base_name ir) iface)
          files
          (emit_interface system ir (directory_of root ir) (module_base_name ir) iface files)
  unfolding emit_interface
  Follows-emit_interface root ir iface files =
      Follows-then_do _ _ _ _ (Follows-write _ _ files) (λ files.
        Follows-then_do _ _ _ _ (Follows-write _ _ files) (λ files. Follows-return _ files))

  Follows-emit_interfaces :
      (root : String) (ir : IrModule) (ifaces : List IrInterface) (files : Files)
      → Follows system
          (all_sources root ir ifaces)
          (map (artifacts_of (directory_of root ir) (module_base_name ir)) ifaces)
          files
          (emit_interfaces system ir (directory_of root ir) (module_base_name ir) ifaces files)
  unfolding emit_interfaces
  Follows-emit_interfaces root ir [] files = Follows-return [] files
  Follows-emit_interfaces root ir (iface ∷ ifaces) files =
      Follows-then_do (sources_of root ir iface) _ _ _ (Follows-emit_interface root ir iface files)
        (λ files.
          with_more (all_sources root ir ifaces) _ _ (Follows-emit_interfaces root ir ifaces files))

  Follows-emit_module :
      (root : String) (ir : IrModule) (files : Files)
      → Follows system
          (module_plan root ir)
          (outputs_of root ir)
          files
          (emit_module system root ir files)
  unfolding emit_module
  Follows-emit_module root ir files =
      Follows-created _ _ (system.created (directory_of root ir)) _ (λ d files.
        Follows-then_do (_ ∷ []) _ _ _ (Follows-write _ _ files) (λ files.
          with_more (all_sources root ir ir.interfaces) _ _
            (Follows-emit_interfaces root ir ir.interfaces files)))

  Follows-emit_modules :
      (root : String) (modules : List IrModule) (files : Files)
      → Follows system
          (modules_plan root modules)
          (all_targets system root modules)
          files
          (emit_modules system root modules files)
  unfolding emit_modules
  Follows-emit_modules root [] files = Follows-return [] files
  Follows-emit_modules root (ir ∷ modules) files =
      Follows-then_do (module_plan root ir) _ _ _ (Follows-emit_module root ir files) (λ files.
        with_more (modules_plan root modules) _ _ (Follows-emit_modules root modules files))

-- A run of the generator follows its plan, which lists for each module of the program, in order, the
-- header and the sources of the client and the server of each interface, each with its text, and
-- then the manifest. If the run succeeds, all of the plan is done, step by step: a file that has its
-- text is not written, one that has another text gets what the system keeps of its text, where a
-- file that is not there counts as empty, and no other file is changed. If it fails, a front part of
-- the plan is done.
pub Follows-run :
    (system : System) (program : Program) (output_dir : String) (files : Files)
    → Follows system
        (run_plan system program output_dir)
        done
        files
        (run system program output_dir files)
unfolding run
Follows-run system program output_dir files =
    Follows-created _ _ (system.created (output_root system output_dir)) _ (λ d files.
      Follows-then_do
        (modules_plan (output_root system output_dir)
          (build_internal_representation program).modules)
        _ _ _ (Follows-emit_modules _ _ files) (λ files. Follows-write _ _ files))

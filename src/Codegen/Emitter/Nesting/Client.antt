-- ===== src/Codegen/Emitter/Nesting/Client.antt =====
-- The source of a client is closed.
use hasten.Common.{ℕ, refl, List, [], ◌∷◌, Option, none, some}
use hasten.Idl.Ast.{AstType}
use hasten.Codegen.Ir.{IrField, IrMethod, IrInterface, IrModule}
use hasten.Codegen.Emitter.{
  Text, literal, indentation, decimal, signed_decimal, concat, write_joined,
}
use hasten.Codegen.Emitter.Types.{method_result_type, parameter_declaration}
use hasten.Codegen.Emitter.Declarations.{comma_after, callback_type}
use hasten.Codegen.Emitter.Nesting.{
  nesting, depth_after, Closed, Closes, Opens, through, onward, Closed-concat, Closed-write_joined,
}
use hasten.Codegen.Emitter.Nesting.Types.{Closed-parameter_declaration, Closed-method_result_type}
use hasten.Codegen.Emitter.Nesting.Declarations.{Closed-comma_after, Closed-callback_type}
use hasten.Codegen.Emitter.Client.{
  if_response, argument_name, more_argument, client_request, client_with_response,
  client_without_response, response_handler, client_send, client_async, client_sync, client_method,
  client_constructor, make_client, client_includes,
}

pub Closed-argument_name : (f : IrField) → Closed (argument_name f)
unfolding argument_name indentation decimal signed_decimal nesting depth_after
Closed-argument_name f depth = refl

pub Closed-more_argument : (f : IrField) → Closed (more_argument f)
unfolding more_argument indentation decimal signed_decimal nesting depth_after
Closed-more_argument f depth = refl

pub Closed-if_response :
    (m : IrMethod) (with_response without : Text)
    → Closed with_response
    → Closed without
    → Closed (if_response m with_response without)
unfolding if_response
Closed-if_response m with_response without p q = by_result m.result_fields m.result_type
  where
    by_result :
        (fields : List IrField) (result : Option AstType)
        → Closed (elim fields [
          | f ∷ more ↦ with_response
          | [] ↦ elim result [ none ↦ without | some type ↦ with_response ]
        ])
    by_result (f ∷ fields) result = p
    by_result [] none = q
    by_result [] (some type) = p

pub Opens-client_request :
    (indent_level : ℕ) (iface : IrInterface) (m : IrMethod)
    → Opens (client_request indent_level iface m)
unfolding client_request indentation decimal signed_decimal nesting depth_after
Opens-client_request indent_level iface m depth =
    through (write_joined m.parameters (parameter_declaration) (literal ", " ∷ [])) _ _ _
      (Closed-write_joined (parameter_declaration) (Closed-parameter_declaration)
        (literal ", " ∷ []) (λ depth. refl) m.parameters)
      (through (comma_after m.parameters) _ _ _ (Closed-comma_after m.parameters) (
        through (callback_type iface.name m) _ _ _ (Closed-callback_type iface.name m) (
          through (method_result_type iface.name m) _ _ _ (Closed-method_result_type iface.name m) (
            through (concat more_argument m.parameters) _ _ _
              (Closed-concat (more_argument) (Closed-more_argument) m.parameters) (refl)))))

pub Closed-client_with_response :
    (indent_level : ℕ) (iface : IrInterface) (m : IrMethod)
    → Closed (client_with_response indent_level iface m)
unfolding client_with_response indentation decimal signed_decimal nesting depth_after
Closed-client_with_response indent_level iface m depth =
    through (method_result_type iface.name m) _ _ _ (Closed-method_result_type iface.name m) (refl)

pub Closed-client_without_response :
    (indent_level : ℕ) (iface : IrInterface) (m : IrMethod)
    → Closed (client_without_response indent_level iface m)
unfolding client_without_response indentation decimal signed_decimal nesting depth_after
Closed-client_without_response indent_level iface m depth = refl

pub Closed-response_handler :
    (indent_level : ℕ) (iface : IrInterface) (m : IrMethod)
    → Closed (response_handler indent_level iface m)
unfolding response_handler indentation decimal signed_decimal nesting depth_after
Closed-response_handler indent_level iface m depth =
    through (method_result_type iface.name m) _ _ _ (Closed-method_result_type iface.name m) (
      through
        (if_response m (client_with_response indent_level iface m)
          (client_without_response indent_level iface m))
        _ _ _
        (Closed-if_response m (client_with_response indent_level iface m)
          (client_without_response indent_level iface m)
          (Closed-client_with_response indent_level iface m)
          (Closed-client_without_response indent_level iface m))
        (refl))

pub Closes-client_send :
    (indent_level : ℕ) (iface : IrInterface) (m : IrMethod)
    → Closes (client_send indent_level iface m)
unfolding client_send indentation decimal signed_decimal nesting depth_after
Closes-client_send indent_level iface m depth = refl

pub Closed-client_async :
    (indent_level : ℕ) (iface : IrInterface) (m : IrMethod)
    → Closed (client_async indent_level iface m)
unfolding client_async indentation decimal signed_decimal nesting depth_after
Closed-client_async indent_level iface m depth =
    through (method_result_type iface.name m) _ _ _ (Closed-method_result_type iface.name m) (
      through (write_joined m.parameters (parameter_declaration) (literal ", " ∷ [])) _ _ _
        (Closed-write_joined (parameter_declaration) (Closed-parameter_declaration)
          (literal ", " ∷ []) (λ depth. refl) m.parameters)
        (through (method_result_type iface.name m) _ _ _ (Closed-method_result_type iface.name m) (
          through (write_joined m.parameters (argument_name) (literal ", " ∷ [])) _ _ _
            (Closed-write_joined (argument_name) (Closed-argument_name) (literal ", " ∷ [])
              (λ depth. refl) m.parameters)
            (through (comma_after m.parameters) _ _ _ (Closed-comma_after m.parameters) (
              through (method_result_type iface.name m) _ _ _
                (Closed-method_result_type iface.name m) (refl))))))

pub Closed-client_sync :
    (indent_level : ℕ) (iface : IrInterface) (m : IrMethod)
    → Closed (client_sync indent_level iface m)
unfolding client_sync indentation decimal signed_decimal nesting depth_after
Closed-client_sync indent_level iface m depth =
    through (method_result_type iface.name m) _ _ _ (Closed-method_result_type iface.name m) (
      through (write_joined m.parameters (parameter_declaration) (literal ", " ∷ [])) _ _ _
        (Closed-write_joined (parameter_declaration) (Closed-parameter_declaration)
          (literal ", " ∷ []) (λ depth. refl) m.parameters)
        (through (write_joined m.parameters (argument_name) (literal ", " ∷ [])) _ _ _
          (Closed-write_joined (argument_name) (Closed-argument_name) (literal ", " ∷ [])
            (λ depth. refl) m.parameters)
          (refl)))

pub Closed-client_method :
    (indent_level : ℕ) (iface : IrInterface) (m : IrMethod)
    → Closed (client_method indent_level iface m)
unfolding client_method
Closed-client_method indent_level iface m depth =
    onward (client_request indent_level iface m) _ _ _ _
      (Opens-client_request indent_level iface m depth)
      (through (response_handler indent_level iface m) _ _ _
        (Closed-response_handler indent_level iface m)
        (onward (client_send indent_level iface m) _ _ _ _
          (Closes-client_send indent_level iface m depth)
          (through (client_async indent_level iface m) _ _ _
            (Closed-client_async indent_level iface m)
            (Closed-client_sync indent_level iface m depth))))

pub Closed-client_constructor :
    (indent_level : ℕ) (iface : IrInterface) → Closed (client_constructor indent_level iface)
unfolding client_constructor indentation decimal signed_decimal nesting depth_after
Closed-client_constructor indent_level iface depth = refl

pub Closed-make_client :
    (indent_level : ℕ) (iface : IrInterface) → Closed (make_client indent_level iface)
unfolding make_client indentation decimal signed_decimal nesting depth_after
Closed-make_client indent_level iface depth = refl

pub Closed-client_includes :
    (ir : IrModule) (iface : IrInterface) → Closed (client_includes ir iface)
unfolding client_includes indentation decimal signed_decimal nesting depth_after
Closed-client_includes ir iface depth = refl

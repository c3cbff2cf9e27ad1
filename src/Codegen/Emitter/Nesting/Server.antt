-- ===== src/Codegen/Emitter/Nesting/Server.antt =====
-- The source of a server is closed.
use hasten.Common.{ℕ, suc, ◌≡◌, refl, [], ◌∷◌, some}
use hasten.Codegen.Ir.{IrField, IrMethod, IrInterface, IrModule}
use hasten.Codegen.Emitter.{literal, indentation, decimal, signed_decimal, write_joined}
use hasten.Codegen.Emitter.Nesting.{nesting, depth_after, Closed, through, Closed-write_joined}
use hasten.Codegen.Emitter.Client.{if_response}
use hasten.Codegen.Emitter.Nesting.Client.{Closed-if_response}
use hasten.Codegen.Emitter.Server.{
  server_includes, server_head, request_argument, server_with_response, server_without_response,
  server_case, server_tail,
}

pub Closed-server_includes :
    (ir : IrModule) (iface : IrInterface) → Closed (server_includes ir iface)
unfolding server_includes indentation decimal signed_decimal nesting depth_after
Closed-server_includes ir iface depth = refl

pub Closed-server_head :
    (indent_level : ℕ) (iface : IrInterface)
    → (depth : ℕ)
    → nesting (server_head indent_level iface) depth ≡ some (suc (suc (suc (suc depth))))
unfolding server_head indentation decimal signed_decimal nesting depth_after
Closed-server_head indent_level iface depth = refl

pub Closed-request_argument : (f : IrField) → Closed (request_argument f)
unfolding request_argument indentation decimal signed_decimal nesting depth_after
Closed-request_argument f depth = refl

pub Closed-server_with_response :
    (indent_level : ℕ) (iface : IrInterface) (m : IrMethod)
    → Closed (server_with_response indent_level iface m)
unfolding server_with_response indentation decimal signed_decimal nesting depth_after
Closed-server_with_response indent_level iface m depth = refl

pub Closed-server_without_response :
    (indent_level : ℕ) (iface : IrInterface) (m : IrMethod)
    → Closed (server_without_response indent_level iface m)
unfolding server_without_response indentation decimal signed_decimal nesting depth_after
Closed-server_without_response indent_level iface m depth = refl

pub Closed-server_case :
    (indent_level : ℕ) (iface : IrInterface) (m : IrMethod)
    → Closed (server_case indent_level iface m)
unfolding server_case indentation decimal signed_decimal nesting depth_after
Closed-server_case indent_level iface m depth =
    through (write_joined m.parameters (request_argument) (literal ", " ∷ [])) _ _ _
      (Closed-write_joined (request_argument) (Closed-request_argument) (literal ", " ∷ [])
        (λ depth. refl) m.parameters)
      (through
        (if_response m (server_with_response indent_level iface m)
          (server_without_response indent_level iface m))
        _ _ _
        (Closed-if_response m (server_with_response indent_level iface m)
          (server_without_response indent_level iface m)
          (Closed-server_with_response indent_level iface m)
          (Closed-server_without_response indent_level iface m))
        (refl))

pub Closed-server_tail :
    (indent_level : ℕ) (iface : IrInterface)
    → (depth : ℕ)
    → nesting (server_tail indent_level iface) (suc (suc (suc (suc depth)))) ≡ some depth
unfolding server_tail indentation decimal signed_decimal nesting depth_after
Closed-server_tail indent_level iface depth = refl

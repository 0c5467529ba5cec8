-- ===== src/ProjectController/Views/Laws.antt =====
-- The first message of a validation is empty only where there is none
-- (internal/controller/pipelineproject_routes.go).
use rpc_operator.Prelude.{◌≡◌, refl, List, [], ◌∷◌, All}
use rpc_operator.Project.Validate.{ProjectError}
use rpc_operator.Project.Validate.Messages.{Speaks}
use rpc_operator.ProjectController.Views.{first_message}

pub first_message-nil : (es : List ProjectError) → All Speaks es → first_message es ≡ "" → es ≡ []
first_message-nil [] s e = refl
first_message-nil (x ∷ es) s e = absurd (s.0 e)

-- ===== src/Api/Conditions.antt =====
-- Status conditions. The functions of k8s.io/apimachinery/pkg/api/meta that the controllers call on
-- them are a parameter, with their documented laws: a list holds one condition of each type.
use rpc_operator.Prelude.{String, ◌≡◌, Bool, Option, none, some, List, ◌==◌, if◌then◌else◌, ◌&&◌}

pub record Condition : Type 0 where
  pub type : String
  pub status : String
  pub reason : String
  pub message : String

-- the comparison that the controllers write out before a status update
abbrev pub same_condition : Condition → Condition → Bool
same_condition a b = a.status == b.status && a.reason == b.reason && a.message == b.message

-- meta.FindStatusCondition, meta.SetStatusCondition and meta.RemoveStatusCondition
pub record ConditionOps : Type 0 where
  pub find : List Condition → String → Option Condition
  pub set : List Condition → Condition → List Condition
  pub remove : List Condition → String → List Condition
  pub find-set :
      (cs : List Condition) (new : Condition) (type : String)
      → find (set cs new) type ≡ (if new.type == type then some new else find cs type)
  pub find-remove :
      (cs : List Condition) (gone type : String)
      → find (remove cs gone) type ≡ (if gone == type then none else find cs type)

-- ===== src/Api/Samples.antt =====
-- Condition lists as plain functions, with the laws that the controllers take from apimachinery.
use rpc_operator.Prelude.{
  String, ◌≡◌, refl, Option, none, some, List, [], ◌∷◌, ◌==◌, if◌then◌else◌, arith, eq_iff,
}
use rpc_operator.Api.Conditions.{Condition, ConditionOps}

pub find_in : List Condition → String → Option Condition
find_in [] type = none
find_in (c ∷ cs) type = if c.type == type then some c else find_in cs type

pub set_in : List Condition → Condition → List Condition
set_in [] new = new ∷ []
set_in (c ∷ cs) new = if c.type == new.type then new ∷ cs else c ∷ set_in cs new

pub remove_from : List Condition → String → List Condition
remove_from [] type = []
remove_from (c ∷ cs) type =
    let rest = remove_from cs type in if c.type == type then rest else c ∷ rest

pub find_in-set_in :
    (cs : List Condition) (new : Condition) (type : String)
    → find_in (set_in cs new) type ≡ (if new.type == type then some new else find_in cs type)
unfolding find_in set_in
find_in-set_in [] new type = refl
find_in-set_in (c ∷ cs) new type = ground (
  arith,
  eq_iff c.type new.type,
  eq_iff c.type type,
  eq_iff new.type type,
  find_in-set_in cs new type,
)

pub find_in-remove_from :
    (cs : List Condition) (gone type : String)
    → find_in (remove_from cs gone) type ≡ (if gone == type then none else find_in cs type)
unfolding find_in remove_from
find_in-remove_from [] gone type = ground arith
find_in-remove_from (c ∷ cs) gone type = ground (
  arith,
  eq_iff c.type gone,
  eq_iff c.type type,
  eq_iff gone type,
  find_in-remove_from cs gone type,
)

abbrev pub conditions : ConditionOps
conditions = record {
  find = find_in;
  set = set_in;
  remove = remove_from;
  find-set = find_in-set_in;
  find-remove = find_in-remove_from;
}

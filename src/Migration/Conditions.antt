-- ===== src/Migration/Conditions.antt =====
-- setCondition and removeCondition: one entry for each type of condition.
pub mod Laws
use reposhift.Common.{
  ℕ, String, Bool, true, false, not, ◌&&◌, Option, none, some, List, [], ◌∷◌, str_eq, ◌==◌,
  if◌then◌else◌,
}
use reposhift.Migration.Types.{Condition, Migration, MigrationStatus}
use reposhift.Migration.Env.{Env}
use reposhift.Migration.Action.{M, ◌>>=◌, now, edit}

abbrev pub eq_Bool : Bool → Bool → Bool
eq_Bool true b = b
eq_Bool false b = not b

-- all that setCondition compares
unfoldable pub says_the_same : Condition → Condition → Bool
says_the_same c d =
    eq_Bool d.status c.status
    && (str_eq d.reason c.reason
        && (str_eq d.message c.message && (d.observed_generation == c.observed_generation)))

-- an entry `d` that is set to `c`: the time stays where the status does
unfoldable pub refreshed : Condition → Condition → Condition
unfolding says_the_same
refreshed c d =
    if says_the_same c d
    then d
    else if eq_Bool d.status c.status
    then record c { last_transition_time = d.last_transition_time }
    else c

unfoldable pub put_condition : Condition → List Condition → List Condition
put_condition c [] = c ∷ []
put_condition c (d ∷ rest) =
    if str_eq d.type c.type then refreshed c d ∷ rest else d ∷ put_condition c rest

unfoldable pub with_condition : Condition → Migration → Migration
with_condition c m =
    let b = m.status in record m { status = record b { conditions = put_condition c b.conditions } }

unfoldable pub condition_at :
    ℕ → (type : String) → Bool → (reason message : String) → Migration → Migration
unfolding with_condition
condition_at t type status reason message m =
    with_condition
      (record {
        type = type;
        status = status;
        observed_generation = m.generation;
        last_transition_time = t;
        reason = reason;
        message = message;
      })
      m

unfoldable pub set_condition :
    (e : Env) → (type : String) → Bool → (reason message : String) → M e.World (Unit {0})
unfolding condition_at
set_condition e type status reason message = do
  t ← now e
  edit (condition_at t type status reason message)

unfoldable pub without : String → List Condition → List Condition
without type [] = []
without type (d ∷ rest) = if str_eq d.type type then without type rest else d ∷ without type rest

unfoldable remove_condition : String → MigrationStatus → MigrationStatus
unfolding without
remove_condition type b = record b { conditions = without type b.conditions }

-- the entry of a type, if there is one
unfoldable pub find_condition : String → List Condition → Option Condition
find_condition type [] = none
find_condition type (d ∷ rest) = if str_eq d.type type then some d else find_condition type rest

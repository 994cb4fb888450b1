-- ===== src/Executor.antt =====
-- executor.py: a command in the namespace of a node. `execute` is the method of the backend.
use Prim.Native.Char.{code}
use nslab.Base.{
  ℕ, ◌+◌, String, ◌≡◌, ◌≢◌, refl, ◌⊎◌, inl, inr, Bool, false, ◌||◌, Option, none, some, List, [],
  ◌∷◌, All, arith, ◌<>◌, ◌==◌, nat_eq, if◌then◌else◌, Option-cases,
}
use nslab.Base.Dict.{lookup}
use nslab.Base.Int.{pos}
use nslab.Json.{str, int}
use nslab.Error.{Error, nslab_error, err}
use nslab.Exec.{Exec, raise, ◌>>=◌, given}
use nslab.Plan.Types.{NodePlan, TopologyPlan}
use nslab.Inventory.Types.{ExecResult}

-- `"\0" in argument`
unfoldable pub has_nul : String → Bool
has_nul String.[] = false
has_nul (String.◌∷◌ c s) = code c == 0 || has_nul s

-- The index of the first argument with a NUL character.
abbrev pub first_invalid : ℕ → List String → Option ℕ
first_invalid index [] = none
first_invalid index (argument ∷ rest) =
    let later = first_invalid (index + 1) rest in if has_nul argument then some index else later

abbrev node_not_found : TopologyPlan → String → Error
node_not_found plan node =
    nslab_error "NODE_NOT_FOUND" ("topology node is not defined: " <> node)
      (("name", str plan.name) ∷ ("node", str node) ∷ [])

abbrev command_required : TopologyPlan → String → Error
command_required plan node =
    nslab_error "EXEC_COMMAND_REQUIRED" ("an execution command is required for node: " <> node)
      (("name", str plan.name) ∷ ("node", str node) ∷ [])

abbrev argument_invalid : TopologyPlan → String → ℕ → Error
argument_invalid plan node index =
    nslab_error "EXEC_ARGUMENT_INVALID"
      ("execution argument contains a NUL character for node: " <> node)
      (("name", str plan.name) ∷ ("node", str node) ∷ ("argument_index", int (pos index)) ∷ [])

module _ {E : Type 0} (execute : String → List String → Bool → Exec E ExecResult) where
  -- The tests on the arguments, and the call.
  unfoldable pub run_in : TopologyPlan → String → List String → Bool → NodePlan → Exec E ExecResult
  run_in plan node [] capture planned = raise (command_required plan node)
  run_in plan node (argument ∷ rest) capture planned = elim (first_invalid 0 (argument ∷ rest)) [
    | none ↦ execute planned.namespace (argument ∷ rest) capture
    | some index ↦ raise (argument_invalid plan node index)
  ]

  unfoldable pub execute_in_node : TopologyPlan → String → List String → Bool → Exec E ExecResult
  execute_in_node plan node argv capture =
      given (lookup node plan.nodes) (raise (node_not_found plan node))
        (run_in plan node argv capture)

-- A command that may run: the node is planned, there is a command, and no argument has a NUL.
abbrev pub IsRunnable : TopologyPlan → String → List String → NodePlan → Type 0
IsRunnable plan node argv planned =
    (lookup node plan.nodes ≡ some planned)
    × (argv ≢ [])
    × All (λ argument. has_nul argument ≡ false) argv

first_invalid-none :
    (index : ℕ) (argv : List String)
    → first_invalid index argv ≡ none
    → All (λ argument. has_nul argument ≡ false) argv
first_invalid-none index [] h = tt
first_invalid-none index (a ∷ argv) h =
    (ground arith, first_invalid-none (index + 1) argv (ground arith))

first_invalid-some :
    (index : ℕ) (argv : List String) {i : ℕ}
    → first_invalid index argv ≡ some i
    → ¬ All (λ argument. has_nul argument ≡ false) argv
first_invalid-some index [] h all = cc
first_invalid-some index (a ∷ argv) {i} h all =
    first_invalid-some (index + 1) argv {i = i} (ground arith) all.1

module _ {E : Type 0} (execute : String → List String → Bool → Exec E ExecResult)
    (plan : TopologyPlan) (node : String) (argv : List String) (capture : Bool) where
  -- The command runs in the namespace of the node.
  abbrev pub Runs : Type 0
  Runs =
      (planned : NodePlan) × IsRunnable plan node argv planned
      × (execute_in_node execute plan node argv capture ≡ execute planned.namespace argv capture)

  -- The command is refused with an error, and nothing is called.
  abbrev pub IsRefused : Type 0
  IsRefused =
      (¬ ((planned : NodePlan) × IsRunnable plan node argv planned))
      × (x : Error) × ((e : E) → execute_in_node execute plan node argv capture e ≡ (err x, e))

module _ {E : Type 0} (execute : String → List String → Bool → Exec E ExecResult)
    (plan : TopologyPlan) (node : String) where
  -- The tests on the arguments, at a planned node.
  planned_lem :
      (planned : NodePlan) (argv : List String) (capture : Bool)
      → lookup node plan.nodes ≡ some planned
      → Runs execute plan node argv capture ⊎ IsRefused execute plan node argv capture
  unfolding execute_in_node run_in ◌>>=◌
  planned_lem planned [] capture found =
      inr (λ (p, r). r.1 refl, command_required plan node, λ e. rw found)
  planned_lem planned (a ∷ rest) capture found = elim (Option-cases (first_invalid 0 (a ∷ rest))) [
    | inl valid ↦ inl (
      planned,
      (found, λ q. cc, first_invalid-none 0 (a ∷ rest) valid),
      rw (found, run_in, valid),
    )
    | inr (i, invalid) ↦ inr (
      λ (p, r). first_invalid-some 0 (a ∷ rest) {i = i} invalid r.2,
      argument_invalid plan node i,
      λ e. rw (found, run_in, invalid),
    )
  ]

-- A command either may run, because the node is planned, there is a command and no argument has a
-- NUL character, and then it is executed in the namespace of that node with these arguments; or it
-- may not, and then it is refused with an error before anything is called.
pub execute_in_node_lem :
    {E : Type 0} (execute : String → List String → Bool → Exec E ExecResult) (plan : TopologyPlan)
    (node : String) (argv : List String) (capture : Bool)
    → Runs execute plan node argv capture ⊎ IsRefused execute plan node argv capture
unfolding execute_in_node ◌>>=◌
execute_in_node_lem execute plan node argv capture = elim (Option-cases (lookup node plan.nodes)) [
  | inl missing ↦
      inr (λ (p, r). ground (arith, r.0, missing), node_not_found plan node, λ e. rw missing)
  | inr (planned, found) ↦ planned_lem execute plan node planned argv capture found
]

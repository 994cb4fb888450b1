-- ===== src/Tests/Commands.antt =====
-- The theorem on commands, at a host of the example.
use nslab.Base.{String, ◌⊎◌, true, List, [], ◌∷◌, ℕ, Bool, suc}
use nslab.Base.Int.{pos}
use nslab.Error.{ok}
use nslab.Exec.{Exec}
use nslab.Inventory.Types.{ExecResult}
use nslab.Executor.{Runs, IsRefused, execute_in_node_lem}
use nslab.Tests.Simulation.{lab}

-- A backend that counts the commands.
abbrev counting : String → List String → Bool → Exec ℕ ExecResult
counting namespace argv capture n =
    (ok (record { argv = argv; returncode = pos 0; stdout = ""; stderr = "" }), suc n)

execute_in_node_lem_example :
    Runs counting lab "h1" ("ls" ∷ []) true ⊎ IsRefused counting lab "h1" ("ls" ∷ []) true
execute_in_node_lem_example = execute_in_node_lem counting lab "h1" ("ls" ∷ []) true

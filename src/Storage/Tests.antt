-- ===== src/Storage/Tests.antt =====
-- Concrete runs of internal/storage/memory.go.
use nde.Prelude.{String, none, List, [], ◌∷◌, number_key, text_key}
use nde.Models.{User, Inbound, end}
use nde.Storage.{new_memory}
use nde.Storage.Calls.{
  Call, registers, removes_inbound, updates_user, run, spec_run, Reads, run-Reads,
}

abbrev inbound : String → Inbound
inbound t = record { tag = t; protocol = "trojan"; config = end }

abbrev user : User
user = record { id = 3; username = "u"; key = "k"; inbounds = [] }

-- Inbound b is gone, from the registry and from the user.
abbrev calls : List Call
calls =
    registers (inbound "a")
    ∷ registers (inbound "b")
    ∷ updates_user user (inbound "a" ∷ inbound "b" ∷ [])
    ∷ removes_inbound "b"
    ∷ []

run-Reads_example :
    Reads
      (run new_memory calls)
      (spec_run (record { user_at = λ id. none; inbound_at = λ tag. none }) calls)
run-Reads_example = run-Reads calls

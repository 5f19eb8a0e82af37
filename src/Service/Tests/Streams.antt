-- ===== src/Service/Tests/Streams.antt =====
-- Concrete runs of internal/service/service.go: retries, SyncUsers and RepopulateUsers.
use nde.Prelude.{
  true, ℕ, if◌then◌else◌, Bool, false, none, some, List, [], ◌∷◌, ◌≡◌, refl, contains, number_key,
  arith,
}
use nde.Backend.{Error}
use nde.Storage.{get_user, register_inbound, new_memory}
use nde.Service.{UserData, new_settings, apply_user_data, pb_user_to_model}
use nde.Service.Ledger.{is_listed}
use nde.Service.Sync.{user_of}
use nde.Service.Reliable.{Reliable}
use nde.Service.Retry.{apply_user_data_with_retry, apply_user_data_with_timeout, retry_loop}
use nde.Service.Apply.{outcome}
use nde.Service.Retry.Outcome.{store-apply_user_data_with_retry}
use nde.Service.Stream.{
  next, eof, closed, is_repopulate_marker, apply_each, cleanup_repopulate_users, sync_users,
  repopulate_users, all_ids,
}
use nde.Service.Stream.Chunks.{then_rest, keep_ids, sync_users_repopulate}
use nde.Service.Stream.Repopulate.{cleanup_exact}
use nde.Service.Stream.Agreement.{outcomes, IsGood, repopulate_users-IsGood}
use nde.Service.Tests.{
  node, ledger, empty_node, asks, pb, one_user, one_user-IsWell, one_user-Agrees,
}

reliable : Reliable node
reliable = record { add_user-none = λ w name u i. refl; remove_user-none = λ w name u i. refl }

abbrev schedule : List UserData → List UserData
schedule msgs = msgs

-- User 8 on the inbound b.
abbrev other_asks : UserData
other_asks = record {
  user = some (record { id = 8; username = "v"; key = "l" });
  inbounds = pb "b" ∷ [];
}

abbrev marker : UserData
marker = record {
  user = some (record { id = 0; username = "__marznode_repopulate__"; key = "" });
  inbounds = [];
}

abbrev closes : Error → Bool
closes e = false

store-apply_user_data_with_retry_example :
    (apply_user_data_with_retry node new_settings one_user (asks []) 5 false).1.store
    ≡ empty_node.store
unfolding new_settings apply_user_data_with_retry retry_loop apply_user_data_with_timeout
    apply_user_data register_inbound new_memory outcome
store-apply_user_data_with_retry_example =
    store-apply_user_data_with_retry node new_settings one_user (asks []) 5 false

sync_users_repopulate_example :
    sync_users node schedule new_settings closes one_user
      (next marker (then_rest (other_asks ∷ []) eof))
    ≡ (
      closed,
      cleanup_repopulate_users node schedule new_settings
          (apply_each node schedule new_settings one_user (other_asks ∷ []))
          (keep_ids node schedule new_settings [] (other_asks ∷ [])),
    )
unfolding new_settings
sync_users_repopulate_example =
    sync_users_repopulate node schedule new_settings closes one_user marker (other_asks ∷ [])
      (unfold is_repopulate_marker in refl) (omega arith)

-- User 7 is not to be kept.
cleanup_exact_example :
    get_user (cleanup_repopulate_users node schedule new_settings one_user (8 ∷ [])).store 7 ≡ none
unfolding contains
cleanup_exact_example =
    cleanup_exact node reliable schedule new_settings one_user (8 ∷ []) 7 one_user-IsWell

good : IsGood node ledger reliable schedule new_settings one_user
good = record { well = one_user-IsWell; agrees = one_user-Agrees }

listed_8 : is_listed node ledger (some (user_of other_asks)) ≡ true
unfolding ledger pb_user_to_model
listed_8 = refl

repopulate_users-IsGood_example :
    let s = repopulate_users node schedule new_settings one_user (other_asks ∷ []) in
    IsGood node ledger reliable schedule new_settings s
    × ((id : ℕ)
        → get_user s.store id ≡ (
            if contains id (all_ids node schedule new_settings [] (other_asks ∷ []))
            then get_user (outcomes one_user.store (other_asks ∷ [])) id
            else none))
repopulate_users-IsGood_example =
    repopulate_users-IsGood node ledger reliable schedule new_settings one_user (other_asks ∷ [])
      (listed_8, tt) good

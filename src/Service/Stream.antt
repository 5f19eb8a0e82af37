-- ===== src/Service/Stream.antt =====
-- internal/service/service.go: SyncUsers with its repopulation mode, and RepopulateUsers.
-- The workers of a bulk run take the messages from one channel and apply them at the same time. Two
-- updates of one user exclude each other by the user's lock, and each update is taken as one step,
-- so a bulk run applies the messages in some order: `schedule` is that order.
pub mod Chunks
pub mod Cleanup
pub mod Repopulate
pub mod Agreement
use nde.Prelude.{
  ℕ, String, Bool, true, false, not, ◌||◌, ◌&&◌, Option, none, some, List, [], ◌∷◌, ◌++◌, ◌==◌,
  number_key, text_key, contains, insert, if◌then◌else◌, ltb, leb, length, is_empty,
}
use nde.Models.{User}
use nde.Backend.{Backends, Error}
use nde.Storage.{list_users}
use nde.Storage
use nde.Service.{Service, Settings, UserData, remove_user, pb_user_to_model}
use nde.Service.Retry.{apply_user_data_with_retry}

unfoldable pub is_repopulate_marker : UserData → Bool
is_repopulate_marker msg = elim msg.user [
  | none ↦ false
  | some u ↦ u.id == 0 && u.username == "__marznode_repopulate__"
]

-- What `stream.Recv` gives: messages, and then io.EOF or another error.
pub data Stream : Type 0 where
  next : UserData → Stream → Stream
  eof : Stream
  broken : Error → Stream

-- How the handler ends: with `stream.SendAndClose`, or with an error or nil.
pub data End : Type 0 where
  closed : End
  returned : Option Error → End

pub record Progress : Type 0 where
  pub first : Bool
  pub repopulate_mode : Bool
  pub keep : List ℕ
  pub repopulate_data : List UserData

worker_count : ℕ → ℕ → ℕ
worker_count workers jobs =
    let at_least_one = if ltb workers 1 then 1 else workers in
    if ltb jobs at_least_one then jobs else at_least_one

module _ (B : Backends) (schedule : List UserData → List UserData) (c : Settings) where
  pub apply_each : Service B → List UserData → Service B
  apply_each s [] = s
  apply_each s (msg ∷ rest) =
      apply_each (apply_user_data_with_retry B c s msg c.repopulate_timeout true).1 rest

  pub apply_repopulate_bulk : Service B → List UserData → Service B
  apply_repopulate_bulk s msgs =
      if worker_count c.workers (length msgs) == 0 then s else apply_each s (schedule msgs)

  pub apply_repopulate_chunk : Service B → List UserData → Service B
  apply_repopulate_chunk s msgs =
      if is_empty msgs
      then s
      else if leb c.bulk_threshold (length msgs)
      then apply_repopulate_bulk s msgs
      else apply_each s msgs

  -- One user of the cleanup loop.
  cleanup_user : List ℕ → Service B → User → Service B
  cleanup_user keep s user =
      let (err, s') =
        remove_user B user user.inbounds
          (record s { world = B.with_timeout s.world c.repopulate_timeout }) in
      let s'' : Service B = record s' { world = B.end_timeout s'.world } in
      if contains user.id keep then s else elim err [
        | none ↦ record s'' { store = Storage.remove_user s''.store user.id }
        | some e ↦ s''
      ]

  cleanup_each : List ℕ → Service B → List User → Service B
  cleanup_each keep s [] = s
  cleanup_each keep s (user ∷ rest) = cleanup_each keep (cleanup_user keep s user) rest

  pub cleanup_repopulate_users : Service B → List ℕ → Service B
  cleanup_repopulate_users s keep = cleanup_each keep s (list_users s.store)

  keep_of : List ℕ → UserData → List ℕ
  keep_of keep msg = elim msg.user [
    | none ↦ keep
    | some u ↦ if not (u.id == 0) then insert u.id keep else keep
  ]

  -- The body of the loop for one message.
  pub on_message : Service B → Progress → UserData → Service B × Progress
  on_message s p msg =
      let data' = p.repopulate_data ++ msg ∷ [] in
      let keep' = keep_of p.keep msg in
      if p.first && is_repopulate_marker msg
      then (s, record p { first = false; repopulate_mode = true })
      else if p.repopulate_mode
      then (if leb c.chunk_size (length data')
          then (
            apply_repopulate_chunk s data',
            record p { first = false; keep = keep'; repopulate_data = [] },
          )
          else (s, record p { first = false; keep = keep'; repopulate_data = data' }))
      else (
        (apply_user_data_with_retry B c s msg c.sync_timeout false).1,
        record p { first = false },
      )

  -- `is_expected_close` is isExpectedStreamClose, of the grpc and errors packages.
  pub sync_loop : (Error → Bool) → Service B → Progress → Stream → End × Service B
  sync_loop is_expected_close s p (next msg rest) =
      let (s', p') = on_message s p msg in sync_loop is_expected_close s' p' rest
  sync_loop is_expected_close s p eof = (
    closed,
    if p.repopulate_mode
        then cleanup_repopulate_users (apply_repopulate_chunk s p.repopulate_data) p.keep
        else s,
  )
  sync_loop is_expected_close s p (broken e) =
      (returned (if is_expected_close e then none else some e), s)

  pub sync_users : (Error → Bool) → Service B → Stream → End × Service B
  sync_users is_expected_close s =
      sync_loop is_expected_close s
        (record { first = true; repopulate_mode = false; keep = []; repopulate_data = [] })

  unfoldable pub all_ids : List ℕ → List UserData → List ℕ
  all_ids keep [] = keep
  all_ids keep (msg ∷ rest) = all_ids (insert (pb_user_to_model msg.user).id keep) rest

  pub repopulate_users : Service B → List UserData → Service B
  repopulate_users s users_data =
      let s' = if is_empty users_data then s else apply_each s (schedule users_data) in
      cleanup_repopulate_users s' (all_ids [] users_data)

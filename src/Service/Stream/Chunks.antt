-- ===== src/Service/Stream/Chunks.antt =====
-- internal/service/service.go, SyncUsers: a repopulation in chunks against one in a single pass.
use mathlib.Core.List.{append_assoc, append-nil}
use nde.Prelude.{
  ℕ, ◌+◌, ◌<◌, Bool, true, false, none, some, List, [], ◌∷◌, ◌++◌, ◌≡◌, refl, ◌∙◌, arith,
  if◌then◌else◌, leb, length, length-append, Bool-cases, inl, inr,
}
use nde.Backend.{Backends, Error}
use nde.Service.{Service, Settings, UserData}
use nde.Service.Retry.{apply_user_data_with_retry}
use nde.Service.Stream.{
  Stream, next, eof, broken, closed, returned, Progress, is_repopulate_marker, apply_each,
  apply_repopulate_chunk, cleanup_repopulate_users, keep_of, on_message, sync_loop, sync_users,
}

-- Messages, and then the rest of a stream.
pub then_rest : List UserData → Stream → Stream
then_rest [] rest = rest
then_rest (msg ∷ msgs) rest = next msg (then_rest msgs rest)

module _ (B : Backends) (schedule : List UserData → List UserData) (c : Settings) where
  -- The ids that a repopulation keeps.
  pub keep_ids : List ℕ → List UserData → List ℕ
  keep_ids keep [] = keep
  keep_ids keep (msg ∷ msgs) = keep_ids (keep_of B schedule c keep msg) msgs

  apply_each-append :
      (s : Service B) (xs ys : List UserData)
      → apply_each B schedule c s (xs ++ ys)
        ≡ apply_each B schedule c (apply_each B schedule c s xs) ys
  unfolding apply_each
  apply_each-append s [] ys = refl
  apply_each-append s (x ∷ xs) ys =
      apply_each-append (apply_user_data_with_retry B c s x c.repopulate_timeout true).1 xs ys

  apply_repopulate_chunk_lem :
      (s : Service B) (msgs : List UserData)
      → length msgs < c.bulk_threshold
      → apply_repopulate_chunk B schedule c s msgs ≡ apply_each B schedule c s msgs
  unfolding apply_repopulate_chunk apply_each
  apply_repopulate_chunk_lem s [] few = refl
  apply_repopulate_chunk_lem s (msg ∷ msgs) few = ground arith

  abbrev reading : List ℕ → List UserData → Progress
  reading keep msgs = record {
    first = false;
    repopulate_mode = true;
    keep = keep;
    repopulate_data = msgs;
  }

  on_message-reading :
      (s : Service B) (keep : List ℕ) (read : List UserData) (msg : UserData)
      → on_message B schedule c s (reading keep read) msg ≡ (
          let keep' = keep_of B schedule c keep msg in
          let data' = read ++ msg ∷ [] in
          if leb c.chunk_size (length data')
          then (apply_repopulate_chunk B schedule c s data', reading keep' [])
          else (s, reading keep' data'))
  unfolding on_message
  on_message-reading s keep read msg = refl

  sync_loop-next :
      (close : Error → Bool) (s : Service B) (p : Progress) (msg : UserData) (rest : Stream)
      → sync_loop B schedule c close s p (next msg rest)
        ≡ sync_loop B schedule c close
            (on_message B schedule c s p msg).0
            (on_message B schedule c s p msg).1
            rest
  unfolding sync_loop
  sync_loop-next close s p msg rest = refl

  repopulate_loop :
      (close : Error → Bool) (s : Service B) (keep : List ℕ) (read msgs : List UserData)
      → length read + length msgs < c.bulk_threshold
      → sync_loop B schedule c close s (reading keep read) (then_rest msgs eof) ≡ (
        closed,
        cleanup_repopulate_users B schedule c
            (apply_each B schedule c s (read ++ msgs))
            (keep_ids keep msgs),
      )
  unfolding then_rest keep_ids
  repopulate_loop close s keep read [] few =
      unfold sync_loop in rw (append-nil read, apply_repopulate_chunk_lem s read (omega arith))
  repopulate_loop close s keep read (msg ∷ msgs) few =
      let longer = length-append read (msg ∷ []) in
      let keep' = keep_of B schedule c keep msg in
      let data' = read ++ msg ∷ [] in
      let whole : data' ++ msgs ≡ read ++ msg ∷ msgs = append_assoc read (msg ∷ []) msgs in
      elim (Bool-cases (leb c.chunk_size (length data'))) [
        | inl full ↦
            rw (sync_loop-next, on_message-reading, full)
              (repopulate_loop close (apply_repopulate_chunk B schedule c s data') keep' [] msgs
                  (omega (arith, longer))
                ∙ rw (
                  apply_repopulate_chunk_lem s data' (omega (arith, longer)),
                  ← apply_each-append s data' msgs,
                  whole,
                ))
        | inr room ↦
            rw (sync_loop-next, on_message-reading, room)
              (repopulate_loop close s keep' data' msgs (omega (arith, longer)) ∙ rw whole)
      ]

  -- A stream that opens with the marker and carries fewer messages than the bulk threshold, in
  -- whatever chunks, applies them one by one in their order, and then removes the users that none
  -- of them names.
  pub sync_users_repopulate :
      (close : Error → Bool) (s : Service B) (marker : UserData) (msgs : List UserData)
      → is_repopulate_marker marker ≡ true
      → length msgs < c.bulk_threshold
      → sync_users B schedule c close s (next marker (then_rest msgs eof)) ≡ (
        closed,
        cleanup_repopulate_users B schedule c (apply_each B schedule c s msgs) (keep_ids [] msgs),
      )
  unfolding sync_users on_message
  sync_users_repopulate close s marker msgs mark few =
      rw (sync_loop-next, on_message, mark) (repopulate_loop close s [] [] msgs (omega arith))

  interrupted_loop :
      (close : Error → Bool) (s : Service B) (keep : List ℕ) (read msgs : List UserData) (e : Error)
      → length read + length msgs < c.chunk_size
      → sync_loop B schedule c close s (reading keep read) (then_rest msgs (broken e))
        ≡ (returned (if close e then none else some e), s)
  unfolding then_rest
  interrupted_loop close s keep read [] e few = unfold sync_loop in refl
  interrupted_loop close s keep read (msg ∷ msgs) e few =
      let longer = length-append read (msg ∷ []) in
      let room : leb c.chunk_size (length (read ++ msg ∷ [])) ≡ false = ground (arith, longer) in
      rw (sync_loop-next, on_message-reading, room)
        (interrupted_loop close s (keep_of B schedule c keep msg) (read ++ msg ∷ []) msgs e
          (omega (arith, longer)))

  -- A repopulation that breaks off before the first chunk is full changes nothing, and removes
  -- nobody; the error is reported unless it says that the client closed the stream.
  pub sync_users_interrupted :
      (close : Error → Bool) (s : Service B) (marker : UserData) (msgs : List UserData) (e : Error)
      → is_repopulate_marker marker ≡ true
      → length msgs < c.chunk_size
      → sync_users B schedule c close s (next marker (then_rest msgs (broken e)))
        ≡ (returned (if close e then none else some e), s)
  unfolding sync_users on_message
  sync_users_interrupted close s marker msgs e mark few =
      rw (sync_loop-next, on_message, mark) (interrupted_loop close s [] [] msgs e (omega arith))

  -- Each message as an update of its own; an error is logged and the next one goes on.
  pub sync_each : Service B → List UserData → Service B
  sync_each s [] = s
  sync_each s (msg ∷ rest) =
      sync_each (apply_user_data_with_retry B c s msg c.sync_timeout false).1 rest

  abbrev plain : Progress
  plain = record { first = false; repopulate_mode = false; keep = []; repopulate_data = [] }

  on_message-plain :
      (s : Service B) (msg : UserData)
      → on_message B schedule c s plain msg
        ≡ ((apply_user_data_with_retry B c s msg c.sync_timeout false).1, plain)
  unfolding on_message
  on_message-plain s msg = refl

  plain_loop :
      (close : Error → Bool) (s : Service B) (msgs : List UserData)
      → sync_loop B schedule c close s plain (then_rest msgs eof) ≡ (closed, sync_each s msgs)
  unfolding then_rest sync_each
  plain_loop close s [] = unfold sync_loop in refl
  plain_loop close s (msg ∷ msgs) =
      rw (sync_loop-next, on_message-plain)
        (plain_loop close (apply_user_data_with_retry B c s msg c.sync_timeout false).1 msgs)

  -- A stream that does not open with the marker is one update after the other, also where a later
  -- message looks like the marker.
  pub sync_users_plain :
      (close : Error → Bool) (s : Service B) (msg : UserData) (msgs : List UserData)
      → is_repopulate_marker msg ≡ false
      → sync_users B schedule c close s (then_rest (msg ∷ msgs) eof)
        ≡ (closed, sync_each s (msg ∷ msgs))
  unfolding sync_users on_message then_rest sync_each
  sync_users_plain close s msg msgs unmarked =
      rw (sync_loop-next, on_message, unmarked) (plain_loop close _ msgs)

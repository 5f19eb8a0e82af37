-- ===== src/Util/LogBus.antt =====
-- internal/util/logbus.go: the last lines of a log, and its subscribers. The mutex makes each
-- method one step; a subscriber takes lines from its channel between them.
pub mod Latest
pub mod Runs
pub mod Sound
pub mod Delivery
mod Tests
use nde.Prelude.{
  ℕ, String, ◌+◌, ◌-◌, Bool, true, false, not, Option, none, some, List, [], ◌∷◌, ◌++◌, ◌==◌,
  number_key, if◌then◌else◌, ltb, length, drop, contains, update,
}

-- A channel with room for 256 lines.
pub record Channel : Type 0 where
  pub queued : List String
  pub closed : Bool

-- `subs` are addresses of channels, and `channels` is what stands at an address, in use below
-- `next`.
pub record LogBus : Type 0 where
  pub buffer : List String
  pub max_lines : ℕ
  pub subs : List ℕ
  pub channels : ℕ → Channel
  pub next : ℕ

-- A maximum of 0 stands for all that are not positive.
unfoldable pub lines_limit : ℕ → ℕ
lines_limit n = if n == 0 then 100 else n

unfoldable pub new_log_bus : ℕ → LogBus
unfolding lines_limit
new_log_bus n = record {
  buffer = [];
  max_lines = lines_limit n;
  subs = [];
  channels = λ ch. record { queued = []; closed = false };
  next = 0;
}

-- `append`, and the cut to the last lines.
unfoldable pub push : ℕ → List String → String → List String
push max_lines buffer line =
    let buffer' = buffer ++ line ∷ [] in
    if ltb max_lines (length buffer') then drop (length buffer' - max_lines) buffer' else buffer'

-- `select` with a default case: a full channel misses the line. A send on a closed channel panics:
-- none.
unfoldable pub offer : Channel → String → Option Channel
offer c line =
    if c.closed
    then none
    else if ltb (length c.queued) 256
    then some (record c { queued = c.queued ++ line ∷ [] })
    else some c

unfoldable pub offer_each : (ℕ → Channel) → List ℕ → String → Option (ℕ → Channel)
unfolding offer
offer_each channels [] line = some channels
offer_each channels (ch ∷ rest) line = elim (offer (channels ch) line) [
  | none ↦ none
  | some c ↦ offer_each (update channels ch c) rest line
]

unfoldable pub publish : LogBus → String → Option LogBus
unfolding push offer_each
publish b line = elim (offer_each b.channels b.subs line) [
  | none ↦ none
  | some channels ↦ some (record b { buffer = push b.max_lines b.buffer line; channels = channels })
]

pub snapshot : LogBus → List String
snapshot b = b.buffer

unfoldable pub subscribe : LogBus → ℕ × LogBus
subscribe b = (
  b.next,
  record b {
    channels = update b.channels b.next (record { queued = []; closed = false });
    subs = b.subs ++ b.next ∷ [];
    next = b.next + 1;
  },
)

unfoldable pub removed : ℕ → List ℕ → List ℕ
removed ch [] = []
removed ch (x ∷ xs) = let rest = removed ch xs in if x == ch then rest else x ∷ rest

-- Closing a closed channel panics: none.
unfoldable pub unsubscribe : LogBus → ℕ → Option LogBus
unfolding removed contains
unsubscribe b ch =
    if contains ch b.subs
    then if (b.channels ch).closed
      then none
      else some (record b {
        subs = removed ch b.subs;
        channels = update b.channels ch (record (b.channels ch) { closed = true });
      })
    else some b

-- The other end of a channel takes its first line.
unfoldable pub receive : LogBus → ℕ → LogBus
receive b ch = record b {
  channels =
      update b.channels ch (record (b.channels ch) { queued = drop 1 (b.channels ch).queued });
}

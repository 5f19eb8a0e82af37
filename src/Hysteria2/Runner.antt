-- ===== src/Hysteria2/Runner.antt =====
-- internal/backend/hysteria2/runner.go: the process of hysteria2, the temporary file with its
-- configuration, and the goroutine that waits for its end and removes the file. Start and the goroutine
-- hold `mu` for one step each, so that any number of them take their steps in any order.
pub mod Files
mod Tests
use nde.Prelude.{
  ℕ, ◌+◌, Bool, true, false, Option, none, some, ◌==◌, ◌≡◌, number_key, if◌then◌else◌, update,
}

-- What was made of a file by a Start: nothing yet; the process runs and the runner has no note of it;
-- the Start has failed; the goroutine of `wait` is called, has read a path (none for ""), has seen the
-- process end, has a file to remove or none, has ended.
pub data Waiter : Type 0 where
  absent : Waiter
  starting : Waiter
  failed : Waiter
  called : Waiter
  watching : Option ℕ → Waiter
  exited : Option ℕ → Waiter
  removing : Option ℕ → Waiter
  ended : Waiter

-- A file and the process that reads it have the same number. `temp_config` is none for "".
pub record Runner : Type 0 where
  pub cmd : Option ℕ
  pub temp_config : Option ℕ
  pub created : ℕ
  pub files : ℕ → Bool
  pub waiter : ℕ → Waiter

unfoldable pub new_runner : Runner
new_runner = record {
  cmd = none;
  temp_config = none;
  created = 0;
  files = λ p. false;
  waiter = λ p. absent;
}

-- The runner's `cmd` is this process.
unfoldable pub is_current : Runner → ℕ → Bool
is_current r p = elim r.cmd [ none ↦ false | some c ↦ c == p ]

-- Start up to `cmd.Start`, where the file is made; the process runs, or there is an error.
unfoldable pub create : Runner → Waiter → Runner
unfolding update
create r to =
    let p = r.created + 1 in
    record r { created = p; files = update r.files p true; waiter = update r.waiter p to }

-- The rest of Start.
unfoldable pub note : Runner → ℕ → Runner
unfolding update
note r p = record r { cmd = some p; temp_config = some p; waiter = update r.waiter p called }

-- `wait` up to `cmd.Wait`.
unfoldable pub read_path : Runner → ℕ → Runner
unfolding update is_current
read_path r p =
    let path = if is_current r p then r.temp_config else none in
    record r { waiter = update r.waiter p (watching path) }

-- `removePath`, or `path` where it is "".
unfoldable pub to_remove : Option ℕ → Option ℕ → Option ℕ
to_remove none path = path
to_remove (some f) path = some f

-- `wait` under its second lock.
unfoldable pub clear : Runner → ℕ → Option ℕ → Runner
unfolding update is_current to_remove
clear r p path =
    if is_current r p
    then record r {
      cmd = none;
      temp_config = none;
      waiter = update r.waiter p (removing (to_remove r.temp_config path));
    }
    else record r { waiter = update r.waiter p (removing path) }

-- The end of `wait`.
unfoldable pub remove_file : Runner → ℕ → Option ℕ → Runner
unfolding update
remove_file r p none = record r { waiter = update r.waiter p ended }
remove_file r p (some f) = record r {
  files = update r.files f false;
  waiter = update r.waiter p ended;
}

pub data Step : Runner → Runner → Type 0 where
  starts : (r : Runner) → Step r (create r starting)
  fails : (r : Runner) → Step r (create r failed)
  notes : (r : Runner) (p : ℕ) → r.waiter p ≡ starting → Step r (note r p)
  reads : (r : Runner) (p : ℕ) → r.waiter p ≡ called → Step r (read_path r p)
  -- the process ends, by itself or by the signals of Stop, and `cmd.Wait` returns
  exits :
      (r : Runner) (p : ℕ) (path : Option ℕ)
      → r.waiter p ≡ watching path
      → Step r (record r { waiter = update r.waiter p (exited path) })
  clears :
      (r : Runner) (p : ℕ) (path : Option ℕ) → r.waiter p ≡ exited path → Step r (clear r p path)
  removes :
      (r : Runner) (p : ℕ) (path : Option ℕ)
      → r.waiter p ≡ removing path
      → Step r (remove_file r p path)

pub data Reach (r : Runner) : Runner → Type 0 where
  here : Reach r r
  later : {s t : Runner} → Reach r s → Step s t → Reach r t

-- ===== src/Hysteria2/Runner/Files.antt =====
-- internal/backend/hysteria2/runner.go: which temporary files are there.
use nde.Prelude.{
  ℕ, ◌+◌, ◌≤◌, ◌<◌, Bool, true, false, Option, none, some, ◌≡◌, ◌≢◌, refl, arith, number_key,
  update, inl, inr, ==_iff, Bool-cases, Option-cases, if◌then◌else◌,
}
use nde.Hysteria2.Runner.{
  Waiter, absent, starting, failed, called, watching, exited, removing, ended, Runner, new_runner,
  is_current, create, note, read_path, to_remove, clear, remove_file, Step, starts, fails, notes,
  reads, exits, clears, removes, Reach, here, later,
}

-- A process that may still read its file: `cmd.Wait` of it has not returned.
unfoldable pub is_alive : Waiter → Bool
is_alive starting = true
is_alive called = true
is_alive (watching path) = true
is_alive _ = false

-- The file that a goroutine has noted_path.
unfoldable pub noted_path : Waiter → Option ℕ
noted_path (watching path) = path
noted_path (exited path) = path
noted_path (removing path) = path
noted_path _ = none

record Inv (r : Runner) : Type 0 where
  both : r.temp_config ≡ r.cmd
  own : (p f : ℕ) → noted_path (r.waiter p) ≡ some f → f ≡ p
  there : (p : ℕ) → is_alive (r.waiter p) ≡ true → r.files p ≡ true
  fresh : (p : ℕ) → r.created < p → r.waiter p ≡ absent

new_runner-Inv : Inv new_runner
unfolding new_runner noted_path is_alive
new_runner-Inv = record {
  both = refl;
  own = λ p f h. absurd (ground (arith, h));
  there = λ p h. absurd (ground (arith, h));
  fresh = λ p h. refl;
}

-- One goroutine goes on, where what it has noted_path is its own file.
moves-Inv :
    (r : Runner) (p : ℕ) (to : Waiter) (cmd temp_config : Option ℕ)
    → Inv r
    → temp_config ≡ cmd
    → p ≤ r.created
    → ((f : ℕ) → noted_path to ≡ some f → f ≡ p)
    → (is_alive to ≡ true → is_alive (r.waiter p) ≡ true)
    → Inv (record r { cmd = cmd; temp_config = temp_config; waiter = update r.waiter p to })
unfolding update
moves-Inv r p to cmd temp_config inv same made own alive = record {
  both = same;
  own = λ q f h. ground (arith, h, own f, inv.own q f, ==_iff p q);
  there = λ q h. ground (arith, h, alive, inv.there q, ==_iff p q);
  fresh = λ q h. ground (arith, h, made, inv.fresh q, ==_iff p q);
}

made_lem : (r : Runner) (p : ℕ) → Inv r → r.waiter p ≢ absent → p ≤ r.created
made_lem r p inv there = ground (arith, there, inv.fresh p)

create-Inv : (r : Runner) (to : Waiter) → Inv r → noted_path to ≡ none → Inv (create r to)
unfolding create update
create-Inv r to inv quiet = record {
  both = inv.both;
  own = λ q f h. ground (arith, h, quiet, inv.own q f, ==_iff (r.created + 1) q);
  there = λ q h. ground (arith, h, inv.there q, ==_iff (r.created + 1) q);
  fresh = λ q h. ground (arith, h, inv.fresh q, ==_iff (r.created + 1) q);
}

is_current-cmd : (r : Runner) (p : ℕ) → is_current r p ≡ true → r.cmd ≡ some p
unfolding is_current
is_current-cmd r p h = elim (Option-cases r.cmd) [
  | inl off ↦ absurd (ground (arith, h, off))
  | inr (c, on) ↦ ground (arith, h, on, ==_iff c p)
]

note-Inv : (r : Runner) (p : ℕ) → Inv r → r.waiter p ≡ starting → Inv (note r p)
unfolding note noted_path is_alive
note-Inv r p inv at =
    moves-Inv r p called (some p) (some p) inv refl (made_lem r p inv (λ h. ground (arith, at, h)))
      (λ f h. absurd (ground (arith, h))) (λ h. rw at refl)

read_path-Inv : (r : Runner) (p : ℕ) → Inv r → r.waiter p ≡ called → Inv (read_path r p)
unfolding read_path noted_path is_alive
read_path-Inv r p inv at =
    moves-Inv r p (watching (if is_current r p then r.temp_config else none)) r.cmd r.temp_config
      inv inv.both (made_lem r p inv (λ h. ground (arith, at, h)))
      (λ f h. ground (arith, h, inv.both, is_current-cmd r p)) (λ h. rw at refl)

clear-Inv :
    (r : Runner) (p : ℕ) (path : Option ℕ) → Inv r → r.waiter p ≡ exited path → Inv (clear r p path)
unfolding clear noted_path is_alive to_remove
clear-Inv r p path inv at = elim (Bool-cases (is_current r p)) [
  | inl mine ↦ rw (mine) (
      moves-Inv r p (removing (to_remove r.temp_config path)) none none inv refl made
        (λ f h. ground (arith, h, inv.both, is_current-cmd r p mine))
        (λ h. absurd (ground (arith, h))))
  | inr other ↦ rw (other) (
      moves-Inv r p (removing path) r.cmd r.temp_config inv inv.both made
        (λ f h. inv.own p f (rw at h)) (λ h. absurd (ground (arith, h))))
]
  where
    made : p ≤ r.created
    made = made_lem r p inv (λ h. ground (arith, at, h))

remove_file-Inv :
    (r : Runner) (p : ℕ) (path : Option ℕ)
    → Inv r
    → r.waiter p ≡ removing path
    → Inv (remove_file r p path)
unfolding remove_file noted_path is_alive update
remove_file-Inv r p none inv at =
    moves-Inv r p ended r.cmd r.temp_config inv inv.both
      (made_lem r p inv (λ h. ground (arith, at, h))) (λ f h. absurd (ground (arith, h)))
      (λ h. absurd (ground (arith, h)))
remove_file-Inv r p (some f) inv at =
    let mine : f ≡ p = inv.own p f (rw at refl) in
    record {
      both = inv.both;
      own = λ q g h. ground (arith, h, inv.own q g, ==_iff p q);
      there = λ q h. ground (arith, h, mine, inv.there q, ==_iff p q, ==_iff f q);
      fresh = λ q h. ground (arith, h, at, inv.fresh q, ==_iff p q);
    }

step-Inv : {r t : Runner} → Step r t → Inv r → Inv t
unfolding noted_path is_alive
step-Inv (starts r) inv = create-Inv r starting inv refl
step-Inv (fails r) inv = create-Inv r failed inv refl
step-Inv (notes r p at) inv = note-Inv r p inv at
step-Inv (reads r p at) inv = read_path-Inv r p inv at
step-Inv (exits r p path at) inv =
    moves-Inv r p (exited path) r.cmd r.temp_config inv inv.both
      (made_lem r p inv (λ h. ground (arith, at, h))) (λ f h. inv.own p f (rw at h))
      (λ h. absurd (ground (arith, h)))
step-Inv (clears r p path at) inv = clear-Inv r p path inv at
step-Inv (removes r p path at) inv = remove_file-Inv r p path inv at

reach-Inv : (r : Runner) → Reach new_runner r → Inv r
reach-Inv r here = new_runner-Inv
reach-Inv r (later {s} past step) = step-Inv step (reach-Inv s past)

clear-removing :
    (r : Runner) (p f : ℕ)
    → Inv r
    → r.waiter p ≡ exited (some f)
    → (clear r p (some f)).waiter p ≡ removing (some p)
unfolding clear to_remove noted_path update
clear-removing r p f inv at =
    let mine : f ≡ p = inv.own p f (rw at refl) in
    elim (Bool-cases (is_current r p)) [
      | inl now ↦ ground (arith, now, inv.both, is_current-cmd r p now, ==_iff p p)
      | inr other ↦ ground (arith, other, mine, ==_iff p p)
    ]

-- However Starts, ends of processes and goroutines interleave: the file that a process was started with
-- is there as long as `cmd.Wait` of it has not returned; after that its goroutine, if it had noted_path a
-- path, is about to remove this file; and a goroutine removes no file but that of its own process.
pub config_there :
    (r : Runner) (p : ℕ)
    → Reach new_runner r
    → (is_alive (r.waiter p) ≡ true → r.files p ≡ true)
      × ((f : ℕ) → r.waiter p ≡ exited (some f) → (clear r p (some f)).waiter p ≡ removing (some p))
      × ((f : ℕ) → r.waiter p ≡ removing (some f) → f ≡ p)
unfolding noted_path
config_there r p past =
    let inv = reach-Inv r past in
    (inv.there p, λ f at. clear-removing r p f inv at, λ f at. inv.own p f (rw at refl))

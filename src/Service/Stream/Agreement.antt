-- ===== src/Service/Stream/Agreement.antt =====
-- internal/service/service.go, RepopulateUsers: backends and storage after a full repopulation.
use nde.Prelude.{
  ℕ, true, false, none, some, ap, List, [], ◌∷◌, ◌≡◌, refl, sym, ◌∙◌, arith, inl, inr, number_key,
  text_key, contains, if◌then◌else◌, Bool-cases, is_empty,
}
use nde.Models.{User}
use nde.Backend.{Backends}
use nde.Storage.{Memory, get_user, list_users}
use nde.Storage
use nde.Storage.IsWell.{IsWell, remove_user-IsWell}
use nde.Storage.Lookups.{registered}
use nde.Storage.Listing.{get_user-remove_user, Listed, Listed-list_users, Listed-remove_user}
use nde.Service.{Service, Settings, UserData, remove_user}
use nde.Service.Ledger.{Ledger, is_listed}
use nde.Service.Serving.{has-remove_user, covered-remove_user}
use nde.Service.Agree.{IsTracked, serves-remove_user, serves-some}
use nde.Service.Sync.{Agrees, user_of}
use nde.Service.Reliable.{Reliable, remove_user-eq-none, with_retry-Agrees, with_retry-eq-none}
use nde.Service.Retry.{apply_user_data_with_retry}
use nde.Service.Apply.{outcome, unless_error}
use nde.Service.Retry.Outcome.{with_retry-IsWell, store-apply_user_data_with_retry}
use nde.Service.Stream.{
  apply_each, cleanup_user, cleanup_each, cleanup_repopulate_users, all_ids, repopulate_users,
}
use nde.Service.Stream.Repopulate.{cleanup_exact}

-- The storage after updates that all succeed.
unfoldable pub outcomes : Memory → List UserData → Memory
unfolding outcome
outcomes store [] = store
outcomes store (msg ∷ msgs) = outcomes (outcome store msg) msgs

module _ (B : Backends) (L : Ledger B) (R : Reliable B) (schedule : List UserData → List UserData)
    (c : Settings) where
  open L use {has}

  cleanup_user_kept :
      (keep : List ℕ) (s : Service B) (user : User)
      → contains user.id keep ≡ true
      → cleanup_user B schedule c keep s user ≡ s
  unfolding cleanup_user
  cleanup_user_kept keep s user kept = rw kept

  abbrev timed : Service B → Service B
  timed s = record s { world = B.with_timeout s.world c.repopulate_timeout }

  cleanup_user_out :
      (keep : List ℕ) (s : Service B) (user : User)
      → contains user.id keep ≡ false
      → cleanup_user B schedule c keep s user ≡ record {
        store = Storage.remove_user s.store user.id;
        world = B.end_timeout (remove_user B user user.inbounds (timed s)).1.world;
      }
  unfolding cleanup_user remove_user
  cleanup_user_out keep s user out =
      ground (arith, remove_user-eq-none B R (timed s) user user.inbounds)

  out-Agrees :
      (s : Service B) (user : User)
      → get_user s.store user.id ≡ some user
      → Agrees B L s
      → Agrees B L (record {
        store = Storage.remove_user s.store user.id;
        world = B.end_timeout (remove_user B user user.inbounds (timed s)).1.world;
      })
  unfolding registered Storage.remove_user
  out-Agrees s user found a = record {
    listed = λ id. ground (arith, a.listed id, get_user-remove_user s.store user.id id);
    at = λ uid t tr.
        let removed = (remove_user B user user.inbounds (timed s)).1.world in
        let route =
          L.covered-end_timeout removed t
          ∙ covered-remove_user B L (timed s) user user.inbounds t
          ∙ L.covered-with_timeout s.world c.repopulate_timeout t in
        let old : IsTracked B L s t = record {
          named = tr.named;
          known = tr.known;
          routed = sym route ∙ tr.routed;
        } in
        ground (
          arith,
          L.has-end_timeout removed uid t,
          has-remove_user B L (timed s) user user.inbounds uid t
              (ap (is_listed B L) (sym found) ∙ a.listed user.id)
              (remove_user-eq-none B R (timed s) user user.inbounds),
          L.has-with_timeout s.world c.repopulate_timeout uid t,
          L.covered-with_timeout s.world c.repopulate_timeout t,
          old.routed,
          a.at uid t old,
          serves-remove_user s.store user.id uid t,
          serves-some s.store user.id t user found,
        );
  }

  -- What the two loops keep.
  pub record IsGood (s : Service B) : Type 0 where
    pub well : IsWell s.store
    pub agrees : Agrees B L s

  cleanup_each-IsGood :
      (keep : List ℕ) (s : Service B) (users : List User)
      → Listed s.store users
      → IsGood s
      → IsGood (cleanup_each B schedule c keep s users)
  unfolding cleanup_each
  cleanup_each-IsGood keep s [] l g = g
  cleanup_each-IsGood keep s (user ∷ users) l g = elim (Bool-cases (contains user.id keep)) [
    | inl kept ↦ rw (cleanup_user_kept keep s user kept) (cleanup_each-IsGood keep s users l.2 g)
    | inr out ↦ rw (cleanup_user_out keep s user out) (
        cleanup_each-IsGood keep
          (record {
            store = Storage.remove_user s.store user.id;
            world = B.end_timeout (remove_user B user user.inbounds (timed s)).1.world;
          })
          users (Listed-remove_user s.store user.id users l.1 l.2)
          (record {
            well = remove_user-IsWell s.store user.id g.well;
            agrees = out-Agrees s user l.0 g.agrees;
          }))
  ]

  -- The users of the messages are listed.
  abbrev pub AllListed : List UserData → Type 0
  AllListed [] = Unit
  AllListed (msg ∷ msgs) = (is_listed B L (some (user_of msg)) ≡ true) × AllListed msgs

  apply_each-IsGood :
      (s : Service B) (msgs : List UserData)
      → AllListed msgs
      → IsGood s
      → IsGood (apply_each B schedule c s msgs)
  unfolding apply_each
  apply_each-IsGood s [] all g = g
  apply_each-IsGood s (msg ∷ msgs) all g =
      apply_each-IsGood (apply_user_data_with_retry B c s msg c.repopulate_timeout true).1 msgs
        all.1
        (record {
          well = with_retry-IsWell B c s msg c.repopulate_timeout true g.well;
          agrees = with_retry-Agrees B L R c s msg c.repopulate_timeout g.well g.agrees all.0;
        })

  bulk-IsGood :
      (s : Service B) (msgs : List UserData)
      → AllListed (schedule msgs)
      → IsGood s
      → IsGood (if is_empty msgs then s else apply_each B schedule c s (schedule msgs))
  bulk-IsGood s [] all g = g
  bulk-IsGood s (msg ∷ msgs) all g = apply_each-IsGood s (schedule (msg ∷ msgs)) all g

  store-apply_each :
      (s : Service B) (msgs : List UserData)
      → (apply_each B schedule c s msgs).store ≡ outcomes s.store msgs
  unfolding apply_each outcomes
  store-apply_each s [] = refl
  store-apply_each s (msg ∷ msgs) =
      let r = apply_user_data_with_retry B c s msg c.repopulate_timeout true in
      store-apply_each r.1 msgs
      ∙ ap (λ m. outcomes m msgs)
          (store-apply_user_data_with_retry B c s msg c.repopulate_timeout true
            ∙ ap (λ e. unless_error e s.store (outcome s.store msg))
                (with_retry-eq-none B R c s msg c.repopulate_timeout true))

  get_user-repopulate_users :
      (s : Service B) (msgs : List UserData) (id : ℕ)
      → IsWell (if is_empty msgs then s else apply_each B schedule c s (schedule msgs)).store
      → get_user (repopulate_users B schedule c s msgs).store id ≡ (
          if contains id (all_ids B schedule c [] msgs)
          then get_user (outcomes s.store (schedule msgs)) id
          else none)
  unfolding repopulate_users all_ids contains
  get_user-repopulate_users s [] id w =
      cleanup_exact B R schedule c s (all_ids B schedule c [] []) id w ∙ ground arith
  get_user-repopulate_users s (msg ∷ msgs) id w =
      cleanup_exact B R schedule c (apply_each B schedule c s (schedule (msg ∷ msgs)))
        (all_ids B schedule c [] (msg ∷ msgs)) id w
      ∙ ap (λ m. if contains id (all_ids B schedule c [] (msg ∷ msgs)) then get_user m id else none)
          (store-apply_each s (schedule (msg ∷ msgs)))

  -- RepopulateUsers over reliable backends, whose workers went through the messages in the order
  -- `schedule msgs`, for users that the panel lists, in a state in which the storage has its invariant and
  -- the backends serve exactly what it says. Afterwards that is so again, and the stored users are
  -- those whose ids the messages name, as they are after the updates of the messages in this order.
  pub repopulate_users-IsGood :
      (s : Service B) (msgs : List UserData)
      → AllListed (schedule msgs)
      → IsGood s
      → IsGood (repopulate_users B schedule c s msgs)
        × ((id : ℕ)
            → get_user (repopulate_users B schedule c s msgs).store id ≡ (
                if contains id (all_ids B schedule c [] msgs)
                then get_user (outcomes s.store (schedule msgs)) id
                else none))
  unfolding repopulate_users cleanup_repopulate_users
  repopulate_users-IsGood s msgs all g =
      let done = bulk-IsGood s msgs all g in
      (
        cleanup_each-IsGood (all_ids B schedule c [] msgs) _ _ (Listed-list_users _ done.well) done,
        λ id. get_user-repopulate_users s msgs id done.well,
      )

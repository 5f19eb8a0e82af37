-- ===== src/Service/Sync.antt =====
-- internal/service/service.go, applyUserData: the guarantees of an update as a whole.
use nde.Prelude.{
  ℕ, String, Bool, true, false, not, ◌||◌, ◌&&◌, Option, none, some, List, [], ◌∷◌, ◌==◌, ◌≡◌, refl,
  arith, number_key, text_key, Bool-cases, inl, inr, if◌then◌else◌, ◌∙◌, sym, contains, ap, subst,
}
use nde.Models.{User, Inbound, clone_inbounds_lem}
use nde.Prelude.Dict.{get-put}
use nde.Backend.{Backends}
use nde.Storage.{Memory, get_user, has_tag, update_user_inbounds}
use nde.Storage
use nde.Storage.IsWell.{IsWell}
use nde.Storage.Lookups.{registered, get_user_lem}
use nde.Storage.Listing.{get_user-remove_user}
use nde.Service.{
  Service, UserData, resolve_inbounds, removed_tags, added_tags, pb_user_to_model, inbound_tags,
  apply_known, apply_user_data,
}
use nde.Service.Tags.{all_blank}
use nde.Service.Ledger.{Ledger, covered, is_listed}
use nde.Service.Apply.{
  updated, unless_error, store-apply_known, ignored, unless_error-case, outcome-IsWell,
  store-apply_user_data,
}
use nde.Service.Serving.{serves, has-apply_known, covered-apply_known}
use nde.Service.Agree.{requests, serves-updated, IsTracked, served-forced, served-unforced}

abbrev pub user_of : UserData → User
user_of msg = pb_user_to_model msg.user

abbrev pub tags_in : UserData → List String
tags_in msg = inbound_tags msg.inbounds

registered-updated :
    (store : Memory) (user : User) (o : Option User) (tags : List String) (t : String)
    → registered (updated store user o tags) t ≡ registered store t
unfolding registered updated update_user_inbounds Storage.remove_user
registered-updated store user none [] t = refl
registered-updated store user none (tag ∷ tags) t = refl
registered-updated store user (some u) [] t = refl
registered-updated store user (some u) (tag ∷ tags) t = refl

get_user-update_user_inbounds :
    (store : Memory) (u : User) (inbs : List Inbound) (id : ℕ)
    → get_user (update_user_inbounds store u inbs) id
      ≡ (if u.id == id then some (record u { inbounds = inbs }) else get_user store id)
unfolding update_user_inbounds
get_user-update_user_inbounds store u inbs id = simp (get_user_lem, get-put, clone_inbounds_lem)

module _ (B : Backends) where
  apply_user_data-ignored :
      (s : Service B) (msg : UserData) (force : Bool)
      → ignored (user_of msg) ≡ true
      → apply_user_data B s msg force ≡ (none, s)
  unfolding apply_user_data
  apply_user_data-ignored s msg force h = rw h

  apply_user_data-known :
      (s : Service B) (msg : UserData) (force : Bool)
      → ignored (user_of msg) ≡ false
      → apply_user_data B s msg force
        ≡ apply_known B s (user_of msg) (get_user s.store (user_of msg).id) (tags_in msg) force
  unfolding apply_user_data
  apply_user_data-known s msg force h = rw h

  -- Every update keeps the storage's invariant, whatever the backends answer.
  pub apply_user_data-IsWell :
      (s : Service B) (msg : UserData) (force : Bool)
      → IsWell s.store
      → IsWell (apply_user_data B s msg force).1.store
  apply_user_data-IsWell s msg force w =
      rw (store-apply_user_data B s msg force)
        (unless_error-case IsWell _ s.store _ w (outcome-IsWell s.store msg w))

module _ (B : Backends) (L : Ledger B) where
  open L use {has}

  -- An update stores a listed user, if any.
  is_listed-updated :
      (store : Memory) (user : User) (o : Option User) (tags : List String) (id : ℕ)
      → is_listed B L (some user) ≡ true
      → is_listed B L o ≡ true
      → is_listed B L (get_user store id) ≡ true
      → is_listed B L (get_user (updated store user o tags) id) ≡ true
  unfolding updated
  is_listed-updated store user none [] id new old rest = rest
  is_listed-updated store user none (tag ∷ tags) id new old rest =
      ground
        (arith, get_user-update_user_inbounds store user (resolve_inbounds store (tag ∷ tags)) id)
  is_listed-updated store user (some u) [] id new old rest =
      ground (arith, get_user-remove_user store user.id id)
  is_listed-updated store user (some u) (tag ∷ tags) id new old rest =
      ground (arith, get_user-update_user_inbounds store u (resolve_inbounds store (tag ∷ tags)) id)

  -- The backends serve a user on a tracked tag exactly if the storage says so, and the stored users
  -- are as the panel lists them.
  pub record Agrees (s : Service B) : Type 0 where
    pub listed : (id : ℕ) → is_listed B L (get_user s.store id) ≡ true
    pub at : (uid : ℕ) (t : String) → IsTracked B L s t → has s.world uid t ≡ serves s.store uid t

  module _ (s : Service B) (msg : UserData) (w : IsWell s.store) (agrees : Agrees s) where
    forced_known :
        (uid : ℕ) (t : String)
        → is_listed B L (some (user_of msg)) ≡ true
        → ignored (user_of msg) ≡ false
        → (apply_user_data B s msg true).0 ≡ none
        → IsTracked B L s t
        → has (apply_user_data B s msg true).1.world uid t
          ≡ (if (user_of msg).id == uid then requests (tags_in msg) t else has s.world uid t)
    forced_known uid t listed heard = rw (apply_user_data-known B s msg true heard) λ done tr.
        has-apply_known B L s (user_of msg) (get_user s.store (user_of msg).id) (tags_in msg) true
          uid t listed (agrees.listed (user_of msg).id) done
        ∙ served-forced B L s (user_of msg) uid t w tr (agrees.at uid t tr)
            (get_user s.store (user_of msg).id) (tags_in msg) refl

    store_known :
        (force : Bool)
        → ignored (user_of msg) ≡ false
        → (apply_user_data B s msg force).0 ≡ none
        → (apply_user_data B s msg force).1.store
          ≡ updated s.store (user_of msg) (get_user s.store (user_of msg).id) (tags_in msg)
    store_known force heard = rw (apply_user_data-known B s msg force heard) λ done.
        store-apply_known B s (user_of msg) (get_user s.store (user_of msg).id) (tags_in msg) force
        ∙ ap
            (λ e.
              unless_error e s.store
                (updated s.store (user_of msg) (get_user s.store (user_of msg).id) (tags_in msg)))
            done

    covered_known :
        (force : Bool) (t : String)
        → covered B (apply_user_data B s msg force).1.world t ≡ covered B s.world t
    covered_known force t = elim (Bool-cases (ignored (user_of msg))) [
      | inl skip ↦ rw (apply_user_data-ignored B s msg force skip)
      | inr heard ↦ rw (apply_user_data-known B s msg force heard) (
          covered-apply_known B L s (user_of msg) (get_user s.store (user_of msg).id) (tags_in msg)
            force t)
    ]

  -- A forced update of a user that the panel lists, without an error, keeps the agreement of backends
  -- and storage, for every user.
  pub forced-Agrees :
      (s : Service B) (msg : UserData)
      → IsWell s.store
      → Agrees s
      → is_listed B L (some (user_of msg)) ≡ true
      → (apply_user_data B s msg true).0 ≡ none
      → Agrees (apply_user_data B s msg true).1
  forced-Agrees s msg w agrees listed done = elim (Bool-cases (ignored (user_of msg))) [
    | inl skip ↦ rw (apply_user_data-ignored B s msg true skip) agrees
    | inr heard ↦
        let stored = store_known s msg w agrees true heard done in
        record {
          listed = λ id.
              subst (λ m. is_listed B L (get_user m id) ≡ true) (sym stored)
                (is_listed-updated s.store (user_of msg) (get_user s.store (user_of msg).id)
                  (tags_in msg) id listed (agrees.listed (user_of msg).id) (agrees.listed id));
          at = λ uid t tr.
              let old : IsTracked B L s t = record {
                named = tr.named;
                known =
                    sym (
                      registered-updated s.store (user_of msg) (get_user s.store (user_of msg).id)
                        (tags_in msg) t)
                    ∙ subst (λ m. registered m t ≡ true) stored tr.known;
                routed = sym (covered_known s msg w agrees true t) ∙ tr.routed;
              } in
              forced_known s msg w agrees uid t listed heard done old
              ∙ ground (
                arith,
                agrees.at uid t old,
                serves-updated s.store (user_of msg) (tags_in msg) uid t w old.named old.known,
                ap (λ m. serves m uid t) stored,
              );
        }
  ]

  -- Where backends and storage agree: after a forced update of a listed user without an error the
  -- backends serve the user, on every tag that is named,
  -- registered and routed, exactly as the message asks; other users are served as before.
  pub forced_exact :
      (s : Service B) (msg : UserData) (uid : ℕ) (t : String)
      → IsWell s.store
      → Agrees s
      → is_listed B L (some (user_of msg)) ≡ true
      → ignored (user_of msg) ≡ false
      → (apply_user_data B s msg true).0 ≡ none
      → IsTracked B L s t
      → has (apply_user_data B s msg true).1.world uid t
        ≡ (if (user_of msg).id == uid then requests (tags_in msg) t else has s.world uid t)
  forced_exact s msg uid t w agrees listed heard done tr =
      forced_known s msg w agrees uid t listed heard done tr

  -- Where backends and storage agree: after an update that is not forced, of a stored and listed user
  -- and with some tag, without an error, the
  -- backends serve the user on a tracked tag in two cases: nothing was to be added, whatever the
  -- tag; or the tag is requested, and either it is new or something was to be removed.
  pub unforced_serves :
      (s : Service B) (msg : UserData) (stored : User) (tag : String) (tags : List String)
      (t : String)
      → IsWell s.store
      → Agrees s
      → is_listed B L (some (user_of msg)) ≡ true
      → ignored (user_of msg) ≡ false
      → get_user s.store (user_of msg).id ≡ some stored
      → tags_in msg ≡ tag ∷ tags
      → (apply_user_data B s msg false).0 ≡ none
      → IsTracked B L s t
      → has (apply_user_data B s msg false).1.world (user_of msg).id t ≡ (
          all_blank (added_tags stored (tags_in msg))
          || (contains t (tags_in msg)
              && not (has_tag t stored.inbounds && all_blank (removed_tags stored (tags_in msg)))))
  unforced_serves s msg stored tag tags t w agrees listed heard found asked =
      rw (apply_user_data-known B s msg false heard, found, asked)
        λ done tr.
          has-apply_known B L s (user_of msg) (some stored) (tag ∷ tags) false (user_of msg).id t
            listed (ap (is_listed B L) (sym found) ∙ agrees.listed (user_of msg).id) done
          ∙ served-unforced B L s (user_of msg) (user_of msg).id t w tr
              (agrees.at (user_of msg).id t tr) stored tag tags found
          ∙ ground arith

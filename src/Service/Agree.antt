-- ===== src/Service/Agree.antt =====
-- internal/service/service.go, applyUserData: whether the backends serve what the storage says.
use nde.Prelude.{
  ℕ, String, Bool, true, false, not, ◌||◌, ◌&&◌, Option, none, some, List, [], ◌∷◌, ◌==◌, ◌≡◌, refl,
  arith, number_key, text_key, if◌then◌else◌, ◌∙◌, sym, contains, is_empty,
}
use nde.Prelude.Dict.{get, get-put, get-delete, get-Each}
use nde.Models.{User, Inbound, clone_inbounds_lem}
use nde.Backend.{Backends}
use nde.Storage.{Memory, get_user, update_user_inbounds, has_tag}
use nde.Storage
use nde.Storage.IsWell.{IsWell}
use nde.Storage.Lookups.{get_user_lem, registered}
use nde.Service.{Service, resolve_inbounds, removed_tags, added_tags, additions}
use nde.Service.Tags.{
  resolves, all_blank, has_tag-resolve_inbounds, has_tag-removals, has_tag-additions,
}
use nde.Service.Ledger.{Ledger, covered}
use nde.Service.Apply.{updated}
use nde.Service.Serving.{serves, served}

-- The stored user stands under its id.
get_user-id :
    (store : Memory) (id : ℕ) (u : User) → IsWell store → get_user store id ≡ some u → u.id ≡ id
get_user-id store id u w h =
    get-Each (λ id (u : User). u.id ≡ id) id u store.users w.users_keyed
      (sym (get_user_lem store id) ∙ h)

serves_lem :
    (store : Memory) (uid : ℕ) (t : String)
    → serves store uid t
      ≡ elim (get uid store.users) [ none ↦ false | some u ↦ has_tag t u.inbounds ]
unfolding serves
serves_lem store uid t = rw (get_user_lem, serves)

serves-update_user_inbounds :
    (store : Memory) (u : User) (inbs : List Inbound) (uid : ℕ) (t : String)
    → serves (update_user_inbounds store u inbs) uid t
      ≡ (if u.id == uid then has_tag t inbs else serves store uid t)
unfolding update_user_inbounds
serves-update_user_inbounds store u inbs uid t =
    simp (serves_lem, get-put, clone_inbounds_lem) (ground arith)

pub serves-remove_user :
    (store : Memory) (id uid : ℕ) (t : String)
    → serves (Storage.remove_user store id) uid t
      ≡ (if id == uid then false else serves store uid t)
unfolding Storage.remove_user
serves-remove_user store id uid t = simp (serves_lem, get-delete) (ground arith)

-- The tags that a message asks for: those that it names, and every tag if it names none but has
-- blank ones.
unfoldable pub requests : List String → String → Bool
requests tags t = contains t tags || (all_blank tags && not (is_empty tags))

requests-nil : (t : String) → requests [] t ≡ false
unfolding requests contains all_blank
requests-nil t = ground arith

serves-none :
    (store : Memory) (uid : ℕ) (t : String) → get_user store uid ≡ none → serves store uid t ≡ false
unfolding serves
serves-none store uid t h = rw (h, serves)

pub serves-some :
    (store : Memory) (uid : ℕ) (t : String) (u : User)
    → get_user store uid ≡ some u
    → serves store uid t ≡ has_tag t u.inbounds
unfolding serves
serves-some store uid t u h = rw (h, serves)

module _ (store : Memory) (user : User) (uid : ℕ) (t : String) (w : IsWell store)
    (named : (t == "") ≡ false) (reg : registered store t ≡ true) where
  resolved :
      (tags : List String)
      → is_empty tags ≡ false
      → has_tag t (resolve_inbounds store tags) ≡ requests tags t
  unfolding requests
  resolved tags some_tags =
      has_tag-resolve_inbounds store tags t w
      ∙ unfold resolves in rw (named, reg, some_tags) (ground arith)

  serves-updated_at :
      (tags : List String) (o : Option User)
      → get_user store user.id ≡ o
      → serves (updated store user o tags) uid t
        ≡ (if user.id == uid then requests tags t else serves store uid t)
  unfolding updated
  serves-updated_at [] none found =
      ground (arith, serves-none store user.id t found, requests-nil t)
  serves-updated_at (tag ∷ tags) none found = ground (
    arith,
    serves-update_user_inbounds store user (resolve_inbounds store (tag ∷ tags)) uid t,
    resolved (tag ∷ tags) refl,
  )
  serves-updated_at [] (some u) found =
      ground (arith, serves-remove_user store user.id uid t, requests-nil t)
  serves-updated_at (tag ∷ tags) (some u) found = ground (
    arith,
    get_user-id store user.id u w found,
    serves-update_user_inbounds store u (resolve_inbounds store (tag ∷ tags)) uid t,
    resolved (tag ∷ tags) refl,
  )

-- After an update without an error the storage has, of the named registered tags, exactly the
-- requested ones for the user, and for every other user the same as before.
pub serves-updated :
    (store : Memory) (user : User) (tags : List String) (uid : ℕ) (t : String)
    → IsWell store
    → (t == "") ≡ false
    → registered store t ≡ true
    → serves (updated store user (get_user store user.id) tags) uid t
      ≡ (if user.id == uid then requests tags t else serves store uid t)
serves-updated store user tags uid t w named reg =
    serves-updated_at store user uid t w named reg tags (get_user store user.id) refl

module _ (B : Backends) (L : Ledger B) where
  open L use {has}

  -- A tag that is named, registered in the storage and has a backend.
  pub record IsTracked (s : Service B) (t : String) : Type 0 where
    pub named : (t == "") ≡ false
    pub known : registered s.store t ≡ true
    pub routed : covered B s.world t ≡ true

  module _ (s : Service B) (user : User) (uid : ℕ) (t : String) (w : IsWell s.store)
      (tr : IsTracked s t) (agree : has s.world uid t ≡ serves s.store uid t) where
    pub served-forced :
        (o : Option User) (tags : List String)
        → get_user s.store user.id ≡ o
        → served B L s user o tags true uid t
          ≡ (if user.id == uid then requests tags t else has s.world uid t)
    unfolding additions requests
    served-forced none [] found =
        ground (arith, serves-none s.store user.id t found, requests-nil t, agree)
    served-forced none (tag ∷ tags) found = ground (
      arith,
      serves-none s.store user.id t found,
      resolved s.store user uid t w tr.named tr.known (tag ∷ tags) refl,
      agree,
      tr.routed,
    )
    served-forced (some u) [] found = ground (
      arith,
      serves-some s.store user.id t u found,
      get_user-id s.store user.id u w found,
      requests-nil t,
      agree,
      tr.routed,
    )
    served-forced (some u) (tag ∷ tags) found = ground (
      arith,
      serves-some s.store user.id t u found,
      get_user-id s.store user.id u w found,
      resolved s.store user uid t w tr.named tr.known (tag ∷ tags) refl,
      has_tag-removals s.store u (tag ∷ tags) t w tr.named,
      agree,
      tr.routed,
      tr.known,
    )

    -- An update that is not forced: the inbounds of no tags are all inbounds, both for what is
    -- removed and for what is added.
    pub served-unforced :
        (u : User) (tag : String) (tags : List String)
        → get_user s.store user.id ≡ some u
        → served B L s user (some u) (tag ∷ tags) false uid t ≡ (
            if user.id == uid
            then all_blank (added_tags u (tag ∷ tags))
              || (contains t (tag ∷ tags)
                  && not (has_tag t u.inbounds && all_blank (removed_tags u (tag ∷ tags))))
            else has s.world uid t)
    served-unforced u tag tags found = ground (
      arith,
      serves-some s.store user.id t u found,
      get_user-id s.store user.id u w found,
      has_tag-removals s.store u (tag ∷ tags) t w tr.named,
      has_tag-additions s.store u (tag ∷ tags) t w tr.named,
      agree,
      tr.routed,
      tr.known,
    )

-- ===== src/Service/Ledger.antt =====
-- internal/service/service.go, addUser and removeUser: what a run over several inbounds does to the
-- users that the backends serve.
pub mod Passwords
use nde.Prelude.{
  ℕ, String, Bool, true, false, not, ◌||◌, ◌&&◌, Option, none, some, List, [], ◌∷◌, ◌==◌, ◌≡◌, refl,
  ◌∙◌, arith, number_key, text_key, is_some, Option-cases, inl, inr, ==_iff,
}
use nde.Models.{User, Inbound}
use nde.Backend.{Backends}
use nde.Storage.{has_tag}
use nde.Service.{first_with, backend_by_tag, add_errors, remove_errors}

-- Some backend has this tag.
unfoldable pub covered : (B : Backends) → B.World → String → Bool
covered B w t = is_some (backend_by_tag B w t)

-- What the service relies on of its backends. A backend knows a user by an identifier or a password,
-- which the panel keeps apart: `lists` tells which name and key the panel gives an id, and what a call
-- does is assumed only of a user that is listed. Such a call that reports no error has added the user
-- to the inbound, or removed it, and has done so for no other id or inbound. Every call leaves the tags
-- with their backends.
pub record Ledger (B : Backends) : Type 0 where
  pub lists : ℕ → String → String → Bool
  pub has : B.World → ℕ → String → Bool
  pub has-add_user :
      (w : B.World) (name : String) (u : User) (i : Inbound) (uid : ℕ) (t : String)
      → B.contains_tag w name i.tag ≡ true
      → lists u.id u.username u.key ≡ true
      → (B.add_user w name u i).0 ≡ none
      → has (B.add_user w name u i).1 uid t ≡ (has w uid t || (u.id == uid && i.tag == t))
  pub has-remove_user :
      (w : B.World) (name : String) (u : User) (i : Inbound) (uid : ℕ) (t : String)
      → B.contains_tag w name i.tag ≡ true
      → lists u.id u.username u.key ≡ true
      → (B.remove_user w name u i).0 ≡ none
      → has (B.remove_user w name u i).1 uid t ≡ (has w uid t && not (u.id == uid && i.tag == t))
  pub covered-add_user :
      (w : B.World) (name : String) (u : User) (i : Inbound) (t : String)
      → covered B (B.add_user w name u i).1 t ≡ covered B w t
  pub covered-remove_user :
      (w : B.World) (name : String) (u : User) (i : Inbound) (t : String)
      → covered B (B.remove_user w name u i).1 t ≡ covered B w t
  pub has-wait :
      (w : B.World) (delay : ℕ) (uid : ℕ) (t : String) → has (B.wait w delay).1 uid t ≡ has w uid t
  pub covered-wait :
      (w : B.World) (delay : ℕ) (t : String) → covered B (B.wait w delay).1 t ≡ covered B w t
  pub has-with_timeout :
      (w : B.World) (timeout : ℕ) (uid : ℕ) (t : String)
      → has (B.with_timeout w timeout) uid t ≡ has w uid t
  pub covered-with_timeout :
      (w : B.World) (timeout : ℕ) (t : String)
      → covered B (B.with_timeout w timeout) t ≡ covered B w t
  pub has-end_timeout :
      (w : B.World) (uid : ℕ) (t : String) → has (B.end_timeout w) uid t ≡ has w uid t
  pub covered-end_timeout :
      (w : B.World) (t : String) → covered B (B.end_timeout w) t ≡ covered B w t

-- The user that was found is listed, if there is one.
abbrev pub is_listed : (B : Backends) → Ledger B → Option User → Bool
is_listed B L none = true
is_listed B L (some u) = L.lists u.id u.username u.key

module _ (B : Backends) (L : Ledger B) where
  open B use {World}
  open L use {has}

  first_with-contains_tag :
      (w : World) (tag : String) (names : List String) (name : String)
      → first_with B w tag names ≡ some name
      → B.contains_tag w name tag ≡ true
  unfolding first_with
  first_with-contains_tag w tag [] name h = cc
  first_with-contains_tag w tag (x ∷ names) name h =
      ground (arith, first_with-contains_tag w tag names name)

  backend_by_tag-contains_tag :
      (w : World) (tag name : String)
      → backend_by_tag B w tag ≡ some name
      → B.contains_tag w name tag ≡ true
  unfolding backend_by_tag
  backend_by_tag-contains_tag w tag name = first_with-contains_tag w tag (B.range w) name

  pub covered-add_errors :
      (w : World) (u : User) (inbs : List Inbound) (t : String)
      → covered B (add_errors B w u inbs).1 t ≡ covered B w t
  unfolding add_errors
  covered-add_errors w u [] t = refl
  covered-add_errors w u (i ∷ inbs) t = elim (Option-cases (backend_by_tag B w i.tag)) [
    | inl missing ↦ rw (missing, add_errors) (covered-add_errors w u inbs t)
    | inr (name, found) ↦
        rw (found, add_errors)
          (covered-add_errors (B.add_user w name u i).1 u inbs t ∙ L.covered-add_user w name u i t)
  ]

  pub covered-remove_errors :
      (w : World) (u : User) (inbs : List Inbound) (t : String)
      → covered B (remove_errors B w u inbs).1 t ≡ covered B w t
  unfolding remove_errors
  covered-remove_errors w u [] t = refl
  covered-remove_errors w u (i ∷ inbs) t = elim (Option-cases (backend_by_tag B w i.tag)) [
    | inl missing ↦ rw (missing, remove_errors) (covered-remove_errors w u inbs t)
    | inr (name, found) ↦
        rw (found, remove_errors)
          (covered-remove_errors (B.remove_user w name u i).1 u inbs t
            ∙ L.covered-remove_user w name u i t)
  ]

  covered-none : (w : World) (t : String) → backend_by_tag B w t ≡ none → covered B w t ≡ false
  unfolding covered
  covered-none w t h = rw h

  covered-some :
      (w : World) (t name : String) → backend_by_tag B w t ≡ some name → covered B w t ≡ true
  unfolding covered
  covered-some w t name h = rw h

  pub has-add_errors :
      (w : World) (u : User) (inbs : List Inbound) (uid : ℕ) (t : String)
      → L.lists u.id u.username u.key ≡ true
      → (add_errors B w u inbs).0 ≡ []
      → has (add_errors B w u inbs).1 uid t
        ≡ (has w uid t || (u.id == uid && (covered B w t && has_tag t inbs)))
  unfolding add_errors has_tag
  has-add_errors w u [] uid t = λ listed done. ground arith
  has-add_errors w u (i ∷ inbs) uid t = elim (Option-cases (backend_by_tag B w i.tag)) [
    | inl missing ↦
        rw (missing, add_errors)
          λ listed done. ground (
            arith,
            has-add_errors w u inbs uid t listed done,
            covered-none w i.tag missing,
            ==_iff i.tag t,
          )
    | inr (name, found) ↦
        rw (found, add_errors)
          λ listed done.
            let ok : (B.add_user w name u i).0 ≡ none = ground arith in
            let later : (add_errors B (B.add_user w name u i).1 u inbs).0 ≡ [] = ground arith in
            ground (
              arith,
              has-add_errors (B.add_user w name u i).1 u inbs uid t listed later,
              L.has-add_user w name u i uid t (backend_by_tag-contains_tag w i.tag name found)
                  listed ok,
              L.covered-add_user w name u i t,
              covered-some w i.tag name found,
              ==_iff i.tag t,
            )
  ]

  pub has-remove_errors :
      (w : World) (u : User) (inbs : List Inbound) (uid : ℕ) (t : String)
      → L.lists u.id u.username u.key ≡ true
      → (remove_errors B w u inbs).0 ≡ []
      → has (remove_errors B w u inbs).1 uid t
        ≡ (has w uid t && not (u.id == uid && (covered B w t && has_tag t inbs)))
  unfolding remove_errors has_tag
  has-remove_errors w u [] uid t = λ listed done. ground arith
  has-remove_errors w u (i ∷ inbs) uid t = elim (Option-cases (backend_by_tag B w i.tag)) [
    | inl missing ↦
        rw (missing, remove_errors)
          λ listed done. ground (
            arith,
            has-remove_errors w u inbs uid t listed done,
            covered-none w i.tag missing,
            ==_iff i.tag t,
          )
    | inr (name, found) ↦
        rw (found, remove_errors)
          λ listed done.
            let ok : (B.remove_user w name u i).0 ≡ none = ground arith in
            let later : (remove_errors B (B.remove_user w name u i).1 u inbs).0 ≡ [] =
              ground arith in
            ground (
              arith,
              has-remove_errors (B.remove_user w name u i).1 u inbs uid t listed later,
              L.has-remove_user w name u i uid t (backend_by_tag-contains_tag w i.tag name found)
                  listed ok,
              L.covered-remove_user w name u i t,
              covered-some w i.tag name found,
              ==_iff i.tag t,
            )
  ]

-- ===== src/Service/Resync.antt =====
-- internal/service/service.go, applyUserData with forceAdd false, as SyncUsers calls it for a stored
-- user: when the backends end up with the requested tags, and when they do not, because the code
-- asks the storage for the inbounds of an empty list of tags.
use nde.Prelude.{
  String, true, false, ◌∙◌, none, some, ◌∷◌, List, ◌==◌, ◌≡◌, arith, text_key, contains,
}
use nde.Models.{User}
use nde.Backend.{Backends}
use nde.Storage.{get_user, has_tag}
use nde.Storage.IsWell.{IsWell}
use nde.Service.{Service, UserData, apply_user_data}
use nde.Service.Tags.{
  all_blank-removed_tags, all_blank-added_tags, all_blank-removed_tags_named,
  all_blank-added_tags_named,
}
use nde.Service.Ledger.{Ledger, is_listed}
use nde.Service.Apply.{ignored}
use nde.Service.Agree.{IsTracked}
use nde.Service.Sync.{Agrees, user_of, tags_in, unforced_serves}

-- A message for a stored user, with a tag at least, that is applied without an error.
pub record Updates (B : Backends) (s : Service B) (msg : UserData) (stored : User) : Type 0 where
  pub heard : ignored (user_of msg) ≡ false
  pub found : get_user s.store (user_of msg).id ≡ some stored
  pub first : String
  pub others : List String
  pub asked : tags_in msg ≡ first ∷ others
  pub done : (apply_user_data B s msg false).0 ≡ none

module _ (B : Backends) (L : Ledger B) where
  open L use {has}

  -- Where backends and storage agree, for a listed user: if some named tag is to be removed and some named tag is to be added, the backends serve the
  -- user afterwards on exactly the requested ones of the tracked tags.
  pub unforced_exact :
      (s : Service B) (msg : UserData) (stored : User) (old new t : String)
      → IsWell s.store
      → Agrees B L s
      → is_listed B L (some (user_of msg)) ≡ true
      → Updates B s msg stored
      → (old == "") ≡ false
      → has_tag old stored.inbounds ≡ true
      → contains old (tags_in msg) ≡ false
      → (new == "") ≡ false
      → contains new (tags_in msg) ≡ true
      → has_tag new stored.inbounds ≡ false
      → IsTracked B L s t
      → has (apply_user_data B s msg false).1.world (user_of msg).id t ≡ contains t (tags_in msg)
  unforced_exact s msg stored old new t w agrees listed u named had lost named' wanted fresh tr =
      unforced_serves B L s msg stored u.first u.others t w agrees listed u.heard u.found u.asked
        u.done tr
      ∙ ground (
        arith,
        all_blank-removed_tags_named old stored (tags_in msg) named had lost,
        all_blank-added_tags_named new stored (tags_in msg) named' wanted fresh,
      )

  -- Where backends and storage agree, for a listed user: if the requested tags are those that the user has, the backends serve the user afterwards on
  -- every tracked tag, requested or not.
  pub resync_serves_everything :
      (s : Service B) (msg : UserData) (stored : User) (t : String)
      → IsWell s.store
      → Agrees B L s
      → is_listed B L (some (user_of msg)) ≡ true
      → Updates B s msg stored
      → ((tag : String) → has_tag tag stored.inbounds ≡ contains tag (tags_in msg))
      → IsTracked B L s t
      → has (apply_user_data B s msg false).1.world (user_of msg).id t ≡ true
  resync_serves_everything s msg stored t w agrees listed u same tr =
      unforced_serves B L s msg stored u.first u.others t w agrees listed u.heard u.found u.asked
        u.done tr
      ∙ ground (arith, all_blank-added_tags stored (tags_in msg) (λ tag h. same tag ∙ h))

  -- Where backends and storage agree, for a listed user: if the message requests all tags that the user has and one more, the backends no longer serve
  -- the user on any tracked tag that it had.
  pub growth_drops_kept_tags :
      (s : Service B) (msg : UserData) (stored : User) (new t : String)
      → IsWell s.store
      → Agrees B L s
      → is_listed B L (some (user_of msg)) ≡ true
      → Updates B s msg stored
      → ((tag : String) → has_tag tag stored.inbounds ≡ true → contains tag (tags_in msg) ≡ true)
      → (new == "") ≡ false
      → contains new (tags_in msg) ≡ true
      → has_tag new stored.inbounds ≡ false
      → has_tag t stored.inbounds ≡ true
      → IsTracked B L s t
      → has (apply_user_data B s msg false).1.world (user_of msg).id t ≡ false
  growth_drops_kept_tags s msg stored new t w agrees listed u keeps named wanted fresh had tr =
      unforced_serves B L s msg stored u.first u.others t w agrees listed u.heard u.found u.asked
        u.done tr
      ∙ ground (
        arith,
        all_blank-added_tags_named new stored (tags_in msg) named wanted fresh,
        all_blank-removed_tags stored (tags_in msg) keeps,
      )

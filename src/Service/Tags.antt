-- ===== src/Service/Tags.antt =====
-- internal/service/service.go: which inbounds a list of tags resolves to, by membership.
use nde.Prelude.{
  String, Bool, true, false, not, ◌||◌, ◌&&◌, List, [], ◌∷◌, ◌++◌, ◌==◌, ◌≡◌, refl, ◌∙◌, arith,
  text_key, contains, contains-append, contains-insert, insert, ==_iff, ==_refl, is_empty,
  Bool-cases, inl, inr,
}
use nde.Models.{User, Inbound}
use nde.Storage.{Memory, has_tag}
use nde.Storage.IsWell.{IsWell}
use nde.Storage.Lookups.{registered, has_tag-list_inbounds}
use nde.Service.{
  unique_tags, resolve_inbounds, set_of, tags_of, missing_tags, removed_tags, added_tags, additions,
}

-- Every tag of the list is the empty string.
unfoldable pub all_blank : List String → Bool
all_blank [] = true
all_blank (tag ∷ tags) = tag == "" && all_blank tags

contains-unique_tags :
    (t : String) (unique tags : List String)
    → contains t (unique_tags unique tags)
      ≡ (contains t unique || (not (t == "") && contains t tags))
unfolding unique_tags contains
contains-unique_tags t unique [] = ground arith
contains-unique_tags t unique (tag ∷ tags) = elim (Bool-cases (tag == "" || contains tag unique)) [
  | inl skip ↦
      rw skip (
        ground
          (arith, contains-unique_tags t unique tags, ==_iff tag t, ==_iff tag "", ==_iff t ""))
  | inr fresh ↦ rw fresh (
      ground (
        arith,
        contains-unique_tags t (unique ++ tag ∷ []) tags,
        contains-append t unique (tag ∷ []),
        ==_iff tag t,
        ==_iff tag "",
        ==_iff t "",
      ))
]

is_empty-append_one : (xs : List String) (x : String) → is_empty (xs ++ x ∷ []) ≡ false
is_empty-append_one [] x = refl
is_empty-append_one (y ∷ xs) x = refl

contains-is_empty : (x : String) (xs : List String) → contains x xs ≡ true → is_empty xs ≡ false
unfolding contains
contains-is_empty x [] h = cc
contains-is_empty x (y ∷ xs) h = refl

is_empty-unique_tags :
    (unique tags : List String)
    → is_empty (unique_tags unique tags) ≡ (is_empty unique && all_blank tags)
unfolding unique_tags all_blank
is_empty-unique_tags unique [] = ground arith
is_empty-unique_tags unique (tag ∷ tags) = elim (Bool-cases (tag == "" || contains tag unique)) [
  | inl skip ↦
      rw skip (ground (arith, is_empty-unique_tags unique tags, contains-is_empty tag unique))
  | inr fresh ↦ rw fresh (
      ground
        (arith, is_empty-unique_tags (unique ++ tag ∷ []) tags, is_empty-append_one unique tag))
]

-- The tags that resolve: the registered ones that are named, and all that are registered if no tag
-- is named.
unfoldable pub resolves : Memory → List String → String → Bool
resolves store tags t = (all_blank tags || (not (t == "") && contains t tags)) && registered store t

pub has_tag-resolve_inbounds :
    (store : Memory) (tags : List String) (t : String)
    → IsWell store
    → has_tag t (resolve_inbounds store tags) ≡ resolves store tags t
unfolding resolve_inbounds resolves contains
has_tag-resolve_inbounds store tags t w = ground (
  arith,
  has_tag-list_inbounds store t (unique_tags [] tags) w,
  is_empty-unique_tags [] tags,
  contains-unique_tags t [] tags,
)

contains-set_of :
    (t : String) (tags rest : List String)
    → contains t (set_of tags rest) ≡ (contains t tags || contains t rest)
unfolding set_of contains
contains-set_of t tags [] = ground arith
contains-set_of t tags (x ∷ rest) =
    ground (arith, contains-set_of t (insert x tags) rest, contains-insert t x tags)

contains-tags_of : (t : String) (inbs : List Inbound) → contains t (tags_of inbs) ≡ has_tag t inbs
unfolding contains tags_of has_tag
contains-tags_of t [] = refl
contains-tags_of t (inb ∷ rest) = ground (arith, contains-tags_of t rest)

contains-missing_tags :
    (t : String) (xs other : List String)
    → contains t (missing_tags xs other) ≡ (contains t xs && not (contains t other))
unfolding contains missing_tags
contains-missing_tags t [] other = refl
contains-missing_tags t (x ∷ xs) other =
    ground (arith, contains-missing_tags t xs other, ==_iff x t)

contains-removed_tags :
    (t : String) (stored : User) (tags : List String)
    → contains t (removed_tags stored tags) ≡ (has_tag t stored.inbounds && not (contains t tags))
unfolding removed_tags contains
contains-removed_tags t stored tags = ground (
  arith,
  contains-missing_tags t (set_of [] (tags_of stored.inbounds)) (set_of [] tags),
  contains-set_of t [] (tags_of stored.inbounds),
  contains-set_of t [] tags,
  contains-tags_of t stored.inbounds,
)

contains-added_tags :
    (t : String) (stored : User) (tags : List String)
    → contains t (added_tags stored tags) ≡ (contains t tags && not (has_tag t stored.inbounds))
unfolding added_tags contains
contains-added_tags t stored tags = ground (
  arith,
  contains-missing_tags t (set_of [] tags) (set_of [] (tags_of stored.inbounds)),
  contains-set_of t [] (tags_of stored.inbounds),
  contains-set_of t [] tags,
  contains-tags_of t stored.inbounds,
)

-- What a stored user is removed from.
pub has_tag-removals :
    (store : Memory) (stored : User) (tags : List String) (t : String)
    → IsWell store
    → (t == "") ≡ false
    → has_tag t (resolve_inbounds store (removed_tags stored tags)) ≡ (
        (all_blank (removed_tags stored tags)
          || (has_tag t stored.inbounds && not (contains t tags)))
        && registered store t)
has_tag-removals store stored tags t w named =
    has_tag-resolve_inbounds store (removed_tags stored tags) t w
    ∙ unfold resolves in rw (named, contains-removed_tags)

-- What it is added to, unless the update is forced.
pub has_tag-additions :
    (store : Memory) (stored : User) (tags : List String) (t : String)
    → IsWell store
    → (t == "") ≡ false
    → has_tag t (additions store stored tags false) ≡ (
        (all_blank (added_tags stored tags) || (contains t tags && not (has_tag t stored.inbounds)))
        && registered store t)
unfolding additions
has_tag-additions store stored tags t w named =
    has_tag-resolve_inbounds store (added_tags stored tags) t w
    ∙ unfold resolves in rw (named, contains-added_tags)

all_blank_of_all :
    (tags : List String) → ((t : String) → contains t tags ≡ true → t ≡ "") → all_blank tags ≡ true
unfolding all_blank contains
all_blank_of_all [] h = refl
all_blank_of_all (tag ∷ tags) h =
    rw ((==_iff tag "").1 (h tag (rw (==_refl tag))))
      (all_blank_of_all tags (λ t m. h t (ground arith)))

all_blank_named :
    (t : String) (tags : List String)
    → contains t tags ≡ true
    → (t == "") ≡ false
    → all_blank tags ≡ false
unfolding all_blank contains
all_blank_named t [] m named = cc
all_blank_named t (tag ∷ tags) m named = ground (arith, all_blank_named t tags, ==_iff tag t)

-- Nothing is removed from a user whose tags are all requested, and nothing added to one that has
-- all that is requested; then the code asks for the inbounds of no tags.
pub all_blank-removed_tags :
    (stored : User) (tags : List String)
    → ((t : String) → has_tag t stored.inbounds ≡ true → contains t tags ≡ true)
    → all_blank (removed_tags stored tags) ≡ true
all_blank-removed_tags stored tags h =
    all_blank_of_all (removed_tags stored tags)
      λ t m. ground (arith, contains-removed_tags t stored tags, h t)

pub all_blank-added_tags :
    (stored : User) (tags : List String)
    → ((t : String) → contains t tags ≡ true → has_tag t stored.inbounds ≡ true)
    → all_blank (added_tags stored tags) ≡ true
all_blank-added_tags stored tags h =
    all_blank_of_all (added_tags stored tags)
      λ t m. ground (arith, contains-added_tags t stored tags, h t)

-- A named tag that is to be removed, or added, stands among those tags.
pub all_blank-removed_tags_named :
    (t : String) (stored : User) (tags : List String)
    → (t == "") ≡ false
    → has_tag t stored.inbounds ≡ true
    → contains t tags ≡ false
    → all_blank (removed_tags stored tags) ≡ false
all_blank-removed_tags_named t stored tags named have lost =
    all_blank_named t (removed_tags stored tags)
      (ground (arith, contains-removed_tags t stored tags)) named

pub all_blank-added_tags_named :
    (t : String) (stored : User) (tags : List String)
    → (t == "") ≡ false
    → contains t tags ≡ true
    → has_tag t stored.inbounds ≡ false
    → all_blank (added_tags stored tags) ≡ false
all_blank-added_tags_named t stored tags named want lack =
    all_blank_named t (added_tags stored tags) (ground (arith, contains-added_tags t stored tags))
      named

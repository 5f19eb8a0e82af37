-- ===== src/Util/LogBus/Latest.antt =====
-- internal/util/logbus.go: the buffer after any lines.
use nde.Prelude.{
  ℕ, String, ◌-◌, ◌≤◌, List, [], ◌∷◌, ◌++◌, ◌≡◌, refl, sym, ◌∙◌, ap, arith, ltb, length, drop,
  length-append, length-drop, drop-append, drop-drop, Bool-cases, inl, inr,
}
use nde.Util.LogBus.{push}

-- The last lines of a log.
unfoldable pub latest : ℕ → List String → List String
latest n lines = drop (length lines - n) lines

push_lem :
    (n : ℕ) (buffer : List String) (line : String)
    → push n buffer line ≡ latest n (buffer ++ line ∷ [])
unfolding push latest
push_lem n buffer line = elim (Bool-cases (ltb n (length (buffer ++ line ∷ [])))) [
  | inl over ↦ rw over refl
  | inr room ↦
      let whole : length (buffer ++ line ∷ []) - n ≡ 0 = ground arith in rw (room, whole) refl
]

-- A push on the last lines gives the last lines.
pub push-latest :
    (n : ℕ) (lines : List String) (line : String)
    → push n (latest n lines) line ≡ latest n (lines ++ line ∷ [])
unfolding latest
push-latest n lines line =
    let cut = length lines - n in
    let more = length-append lines (line ∷ []) in
    let kept : drop cut lines ++ line ∷ [] ≡ drop cut (lines ++ line ∷ []) =
      sym (drop-append cut lines (line ∷ []) (omega arith)) in
    push_lem n (drop cut lines) line
    ∙ ap (latest n) kept
    ∙ drop-drop (length (drop cut (lines ++ line ∷ [])) - n) cut (length (lines ++ line ∷ []) - n)
        (lines ++ line ∷ []) (omega (arith, length-drop cut (lines ++ line ∷ []), more))

pub length-latest : (n : ℕ) (lines : List String) → length (latest n lines) ≤ n
unfolding latest
length-latest n lines = omega (arith, length-drop (length lines - n) lines)

pub latest-nil : (n : ℕ) → latest n [] ≡ []
unfolding latest
latest-nil n = let none_cut : 0 - n ≡ 0 = omega arith in rw none_cut refl

-- ===== src/Texts.antt =====
-- Go's `strings` where the source cuts a text at a separator of one character.
pub mod Cut
use Prim.Native.String.{◌∷◌, []}
use fikua_lab_idp.Prelude.{
  String, Bool, true, false, not, ◌&&◌, Option, none, some, List, ◌==◌, ◌/=◌, ◌<>◌, if◌then◌else◌,
}

unfoldable pub put_first : String → List String → List String
put_first c List.[] = List.◌∷◌ c List.[]
put_first c (List.◌∷◌ part parts) = List.◌∷◌ (c <> part) parts

-- `strings.Split(s, sep)`
unfoldable pub split : String → String → List String
unfolding put_first
split sep [] = List.◌∷◌ "" List.[]
split sep (c ∷ s) =
    let parts = split sep s in if c ∷ [] == sep then List.◌∷◌ "" parts else put_first (c ∷ []) parts

-- `s[:strings.LastIndex(s, sep)+1]`, where `sep` occurs
unfoldable pub up_to_last : String → String → Option String
up_to_last sep [] = none
up_to_last sep (c ∷ s) =
    let rest = up_to_last sep s in
    elim rest [
      | some front ↦ some ((c ∷ []) <> front)
      | none ↦ if c ∷ [] == sep then some sep else none
    ]

-- `strings.TrimRight(s, cut)`
unfoldable pub trim_right : String → String → String
trim_right cut [] = []
trim_right cut (c ∷ s) =
    let rest = trim_right cut s in
    if rest == "" then (if c ∷ [] == cut then "" else c ∷ []) else (c ∷ []) <> rest

-- No character of the text is the separator.
unfoldable pub lacks : String → String → Bool
lacks sep [] = true
lacks sep (c ∷ s) = let rest = lacks sep s in c ∷ [] /= sep && rest

-- The parts, each with a separator behind it, and then the last.
unfoldable pub terminated : String → List String → String → String
terminated sep List.[] last = last
terminated sep (List.◌∷◌ part parts) last = part <> (sep <> terminated sep parts last)

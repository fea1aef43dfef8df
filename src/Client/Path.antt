-- ===== src/Client/Path.antt =====
-- path.split('/').filter(Boolean).pop(), by which `broadcastToClients` of
-- 00_Base/src/trigger/BaseClientApi.ts reads a resource id off a path.
use Prim.Native.Char.{Char, code}
use citrineos_ocpi.Prelude.{
  String, Bool, true, false, ◌==◌, Option, none, some, List, [], ◌∷◌, if◌then◌else◌, keep,
}

-- A character before the first part.
abbrev pub onto_first : Char → List String → List String
onto_first c [] = String.◌∷◌ c String.[] ∷ []
onto_first c (part ∷ parts) = String.◌∷◌ c part ∷ parts

-- s.split('/')
unfoldable pub split_slash : String → List String
split_slash String.[] = String.[] ∷ []
split_slash (String.◌∷◌ c s) =
    let parts = split_slash s in if code c == b'/' then String.[] ∷ parts else onto_first c parts

-- Boolean(s)
abbrev pub is_filled : String → Bool
is_filled String.[] = false
is_filled (String.◌∷◌ c s) = true

-- xs.pop()
abbrev pub pop : List String → Option String
pop [] = none
pop (part ∷ []) = some part
pop (part ∷ next ∷ parts) = pop (next ∷ parts)

unfoldable pub last_segment : String → Option String
last_segment path = pop (keep is_filled (split_slash path))

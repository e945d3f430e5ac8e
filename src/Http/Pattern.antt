-- ===== src/Http/Pattern.antt =====
-- The patterns of paths of apps/control-api/src/http/router.js.
use xrpl_credit_orchestrator.Prelude.{
  String, Option, none, some, List, [], ◌∷◌, ◌==◌, if◌then◌else◌, truthy_text, split_on,
  starts_with, map, filter, insert,
}
use xrpl_credit_orchestrator.Http.Token.{drop_chars}

-- A part of a pattern: a text that stands for itself, or a parameter.
pub data Part : Type 0 where
  literal parameter : String → Part

abbrev compile_part : String → Part
compile_part part = if starts_with part ":" then parameter (drop_chars 1 part) else literal part

unfoldable pub compile_pattern : String → List Part
unfolding drop_chars split_on
compile_pattern pattern = map compile_part (filter truthy_text (split_on 47 pattern))

abbrev pub Params : Type 0
Params = List (String × String)

-- What follows the last part: nothing, or one slash.
abbrev pub match_end : Params → List String → Option Params
match_end params [] = some params
match_end params (s ∷ []) = if s == "" then some params else none
match_end params (_ ∷ _ ∷ _) = none

-- The segments of a path, one for each part; a parameter takes a segment that is not empty.
unfoldable pub match_parts : Params → List Part → List String → Option Params
match_parts params [] segments = match_end params segments
match_parts params (_ ∷ parts) [] = none
match_parts params (literal text ∷ parts) (s ∷ segments) =
    let on = match_parts params parts segments in if text == s then on else none
match_parts params (parameter name ∷ parts) (s ∷ segments) =
    let on = match_parts (insert name s params) parts segments in if truthy_text s then on else none

-- `^/` and the parts, joined by slashes; no part at all is the empty text behind the slash.
abbrev pub whole : List Part → List Part
whole [] = literal "" ∷ []
whole (p ∷ ps) = p ∷ ps

abbrev match_segments : List Part → List String → Option Params
match_segments parts [] = none
match_segments parts (s ∷ segments) =
    if s == "" then match_parts [] (whole parts) segments else none

-- `pathname.match(regex)`, with the parameters by their names.
unfoldable pub match_path : List Part → String → Option Params
match_path parts pathname = match_segments parts (split_on 47 pathname)

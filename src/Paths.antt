-- ===== src/Paths.antt =====
-- cargo-instrument/src/transform.rs: `paths_are_identical` and `normalize_path`, on Unix paths.
use Prim.Native.Char.{code}
use rust_compile_time_instru.Prelude.{
  String, ◌≡◌, refl, Bool, true, false, ◌&&◌, ◌||◌, Option, some, List, [], ◌∷◌, ◌++◌, ◌==◌, str_eq,
  if◌then◌else◌,
}
use rust_compile_time_instru.Text.{starts_with}
use rust_compile_time_instru.Session.{Files}

-- `std::path::Component`
pub data Component : Type 0 where
  root_dir : Component
  cur_dir : Component
  parent_dir : Component
  normal : String → Component

-- The names between slashes, the first one completed by what is before it.
unfoldable pub segments : String → List String
segments String.[] = "" ∷ []
segments (String.◌∷◌ a s) =
    let rest = segments s in
    if code a == b'/' then "" ∷ rest else elim rest [ [] ↦ [] | t ∷ more ↦ String.◌∷◌ a t ∷ more ]

-- Empty names and every `.` that is not the first are no components.
unfoldable pub components_behind : List String → List Component
components_behind [] = []
components_behind (t ∷ more) =
    let rest = components_behind more in
    if str_eq t "" || str_eq t "."
    then rest
    else if str_eq t ".."
    then parent_dir ∷ rest
    else normal t ∷ rest

abbrev leading_dot : List String → List Component
leading_dot [] = []
leading_dot (t ∷ more) = if str_eq t "." then cur_dir ∷ [] else []

-- `Path::components`
unfoldable pub components : String → List Component
components p =
    let names = components_behind (segments p) in
    if starts_with p "/" then root_dir ∷ names else leading_dot (segments p) ++ names

-- `PathBuf::pop`, of a path whose last component comes first.
unfoldable pub pop : List Component → List Component
pop [] = []
pop (root_dir ∷ out) = root_dir ∷ out
pop (c ∷ out) = out

-- The turn of the loop for one component; to push the root starts again from it.
unfoldable pub normalize_step : List Component → Component → List Component
normalize_step out cur_dir = out
normalize_step out parent_dir = pop out
normalize_step out root_dir = root_dir ∷ []
normalize_step out c = c ∷ out

unfoldable pub normalize_from : List Component → List Component → List Component
normalize_from out [] = out
normalize_from out (c ∷ cs) = normalize_from (normalize_step out c) cs

-- The last component comes first.
unfoldable pub normalize_path : List Component → List Component
normalize_path cs = normalize_from [] cs

abbrev pub same_component : Component → Component → Bool
same_component root_dir root_dir = true
same_component cur_dir cur_dir = true
same_component parent_dir parent_dir = true
same_component (normal a) (normal b) = str_eq a b
same_component _ _ = false

-- Equality of paths, which is that of their components.
unfoldable pub same_components : List Component → List Component → Bool
same_components [] [] = true
same_components (c ∷ cs) (d ∷ ds) = same_component c d && same_components cs ds
same_components _ _ = false

abbrev pub same_path : String → String → Bool
same_path p q = same_components (components p) (components q)

abbrev same_canonical : Bool → Option String → Option String → Bool
same_canonical otherwise (some a) (some b) = same_path a b
same_canonical otherwise _ _ = otherwise

unfoldable pub paths_are_identical : Files → String → String → Bool
paths_are_identical files p q =
    if same_path p q
    then true
    else same_canonical
        (same_components (normalize_path (components p)) (normalize_path (components q)))
        (files.canonicalize p) (files.canonicalize q)

-- A path with names only, behind a root or not, the last first.
unfoldable pub IsPlain : List Component → Type 0
IsPlain [] = Unit
IsPlain (root_dir ∷ []) = Unit
IsPlain (normal n ∷ cs) = IsPlain cs
IsPlain _ = ⊥

pop-IsPlain : (out : List Component) → IsPlain out → IsPlain (pop out)
unfolding pop IsPlain
pop-IsPlain [] h = h
pop-IsPlain (root_dir ∷ []) h = h
pop-IsPlain (root_dir ∷ c ∷ out) h = absurd h
pop-IsPlain (cur_dir ∷ out) h = absurd h
pop-IsPlain (parent_dir ∷ out) h = absurd h
pop-IsPlain (normal n ∷ out) h = h

step-IsPlain : (out : List Component) (c : Component) → IsPlain out → IsPlain (normalize_step out c)
unfolding normalize_step IsPlain
step-IsPlain out root_dir h = tt
step-IsPlain out cur_dir h = h
step-IsPlain out parent_dir h = pop-IsPlain out h
step-IsPlain out (normal n) h = h

from-IsPlain : (out cs : List Component) → IsPlain out → IsPlain (normalize_from out cs)
unfolding normalize_from
from-IsPlain out [] h = h
from-IsPlain out (c ∷ cs) h = from-IsPlain (normalize_step out c) cs (step-IsPlain out c h)

-- The components in the order of the path, before others.
unfoldable pub in_order : List Component → List Component → List Component
in_order [] cs = cs
in_order (c ∷ out) cs = in_order out (c ∷ cs)

normalize-in_order :
    (out cs : List Component)
    → IsPlain out
    → normalize_from [] (in_order out cs) ≡ normalize_from out cs
unfolding in_order IsPlain normalize_from normalize_step
normalize-in_order [] cs h = refl
normalize-in_order (root_dir ∷ []) cs h = refl
normalize-in_order (root_dir ∷ c ∷ out) cs h = absurd h
normalize-in_order (cur_dir ∷ out) cs h = absurd h
normalize-in_order (parent_dir ∷ out) cs h = absurd h
normalize-in_order (normal n ∷ out) cs h = normalize-in_order out (normal n ∷ cs) h

-- A normalised path has names only, behind the root if it has one, and to normalise it again changes
-- nothing.
pub normalize_path-IsPlain :
    (cs : List Component)
    → IsPlain (normalize_path cs)
      × (normalize_path (in_order (normalize_path cs) []) ≡ normalize_path cs)
unfolding normalize_path normalize_from IsPlain
normalize_path-IsPlain cs =
    let plain = from-IsPlain [] cs tt in (plain, normalize-in_order (normalize_from [] cs) [] plain)

-- ===== src/Prelude/Paths.antt =====
-- path/filepath on Unix: Clean, Join, Dir and Base, and two functions of package strings.
use Prim.Native.Nat.{ℕ, suc, ◌-◌}
use mathlib.Core.Bool.{Bool, false, ◌&&◌, ◌||◌, not}
use mathlib.Core.List.{List, [], ◌∷◌, ◌++◌, reverse}
use mathlib.Core.Option.{Option, none, some}
use orbitproxy_go.Prelude.Tests.{◌==◌, if◌then◌else◌}
use orbitproxy_go.Prelude.Lists.{take, length}
use orbitproxy_go.Prelude.Strings.{Text, text_eq, codes, has_prefix}

abbrev on_head : ℕ → List Text → List Text
on_head c [] = (c ∷ []) ∷ []
on_head c (s ∷ ss) = (c ∷ s) ∷ ss

-- strings.Split at one character.
unfoldable pub split : ℕ → Text → List Text
split sep [] = [] ∷ []
split sep (c ∷ s) = let rest = split sep s in if c == sep then [] ∷ rest else on_head c rest

-- strings.Join
unfoldable pub join : Text → List Text → Text
join sep [] = []
join sep (s ∷ []) = s
join sep (s ∷ t ∷ ts) = s ++ sep ++ join sep (t ∷ ts)

-- The elements that Clean keeps, the last one first: `..` takes one off if there is one to take.
unfoldable pub clean_elements : Bool → List Text → List Text → List Text
clean_elements rooted kept [] = kept
clean_elements rooted [] (s ∷ ss) =
    let skip = clean_elements rooted [] ss in
    let keep = clean_elements rooted (s ∷ []) ss in
    if text_eq s [] || text_eq s (codes ".") || (text_eq s (codes "..") && rooted)
    then skip
    else keep
clean_elements rooted (k ∷ kept) (s ∷ ss) =
    let skip = clean_elements rooted (k ∷ kept) ss in
    let back = clean_elements rooted kept ss in
    let keep = clean_elements rooted (s ∷ k ∷ kept) ss in
    if text_eq s [] || text_eq s (codes ".")
    then skip
    else if text_eq s (codes "..") && not (text_eq k (codes ".."))
    then back
    else keep

abbrev is_rooted : Text → Bool
is_rooted [] = false
is_rooted (c ∷ s) = c == b'/'

abbrev or_dot : Text → Text
or_dot [] = codes "."
or_dot (c ∷ s) = c ∷ s

-- filepath.Clean
unfoldable pub clean : Text → Text
clean path =
    let kept = reverse (clean_elements (is_rooted path) [] (split b'/' path)) in
    if is_rooted path then b'/' ∷ join (codes "/") kept else or_dot (join (codes "/") kept)

-- filepath.Join: empty elements at the front are left out, and Clean drops the others.
unfoldable pub join_path : List Text → Text
join_path [] = []
join_path (s ∷ ss) =
    let rest = join_path ss in if text_eq s [] then rest else clean (join (codes "/") (s ∷ ss))

-- strings.Index of one character.
unfoldable pub index : ℕ → Text → Option ℕ
index c [] = none
index c (d ∷ s) =
    let rest = index c s in
    if d == c then some 0 else elim rest [ none ↦ none | some i ↦ some (suc i) ]

-- strings.LastIndex of one character.
unfoldable pub last_index : ℕ → Text → Option ℕ
last_index c [] = none
last_index c (d ∷ s) = elim (last_index c s) [
  | some i ↦ some (suc i)
  | none ↦ if d == c then some 0 else none
]

-- filepath.Dir
unfoldable pub dir : Text → Text
dir path = elim (last_index b'/' path) [ none ↦ codes "." | some i ↦ clean (take (suc i) path) ]

abbrev last_element : Text → List Text → Text
last_element found [] = found
last_element found (s ∷ ss) = if text_eq s [] then last_element found ss else last_element s ss

-- filepath.Base: the last element that is not empty.
unfoldable pub base : Text → Text
base [] = codes "."
base (c ∷ path) =
    let last = last_element [] (split b'/' (c ∷ path)) in
    if text_eq last [] then codes "/" else last

-- strings.HasSuffix
unfoldable pub has_suffix : Text → Text → Bool
unfolding has_prefix
has_suffix s p = has_prefix (reverse s) (reverse p)

-- strings.TrimSuffix
unfoldable pub trim_suffix : Text → Text → Text
unfolding has_suffix
trim_suffix s p = if has_suffix s p then take (length s - length p) s else s

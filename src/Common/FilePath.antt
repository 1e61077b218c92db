-- ===== src/Common/FilePath.antt =====
-- The standard library's path/filepath on Unix, over the elements between the slashes.
use Prim.Native.Char.{code}
use Prim.Native.String.{String, ◌++◌ as ◌<>◌}
use mathlib.Core.Bool.{Bool, true, false, ◌||◌}
use mathlib.Core.List.{List, [], ◌∷◌, reverse}
use mathlib.Core.Path.{◌≡◌, refl}
use bhyve_mcp.Common.Tests.{◌==◌, ◌=ₛ◌, if◌then◌else◌}

abbrev prepend : String → List String → List String
prepend c [] = c ∷ []
prepend c (e ∷ es) = (c <> e) ∷ es

-- The text between the slashes, empty pieces included.
unfoldable pub elements : String → List String
elements String.[] = "" ∷ []
elements (String.◌∷◌ c s) =
    let rest = elements s in if code c == b'/' then "" ∷ rest else prepend (String.◌∷◌ c "") rest

unfoldable pub is_rooted : String → Bool
is_rooted String.[] = false
is_rooted (String.◌∷◌ c s) = code c == b'/'

join_slash : List String → String
join_slash [] = ""
join_slash (e ∷ []) = e
join_slash (e ∷ es) = e <> "/" <> join_slash es

-- `..` takes the element before it away, if that is a name; at the root it goes.
climb : Bool → List String → List String
climb true [] = []
climb false [] = ".." ∷ []
climb rooted (e ∷ out) = if e =ₛ ".." then ".." ∷ e ∷ out else out

-- The elements kept, last first.
clean_loop : Bool → List String → List String → List String
clean_loop rooted out [] = out
clean_loop rooted out (e ∷ es) =
    clean_loop rooted
      (if (e =ₛ "") || (e =ₛ ".") then out else if e =ₛ ".." then climb rooted out else e ∷ out) es

-- `Clean`, of a path that is given by its elements.
clean_elements : Bool → List String → String
clean_elements rooted es =
    let kept = join_slash (reverse (clean_loop rooted [] es)) in
    if rooted then "/" <> kept else if kept =ₛ "" then "." else kept

drop_last : List String → List String
drop_last [] = []
drop_last (e ∷ []) = []
drop_last (e ∷ es) = e ∷ drop_last es

last_name : String → List String → String
last_name found [] = found
last_name found (e ∷ es) = last_name (if e =ₛ "" then found else e) es

unfoldable pub clean : String → String
unfolding elements is_rooted join_slash climb clean_loop clean_elements drop_last last_name ◌=ₛ◌
clean path = clean_elements (is_rooted path) (elements path)

-- `Dir`
unfoldable pub dir : String → String
unfolding clean
dir path = clean_elements (is_rooted path) (drop_last (elements path))

-- `Base`
unfoldable pub base : String → String
unfolding clean
base path = if path =ₛ "" then "." else last_name "/" (elements path)

-- `Join` of two elements
unfoldable pub join : String → String → String
unfolding clean
join a b = if a =ₛ "" then if b =ₛ "" then "" else clean b else clean (a <> "/" <> b)

dir_runs : dir "/usr/local/etc/vms/web.yaml" ≡ "/usr/local/etc/vms"
unfolding dir
dir_runs = refl

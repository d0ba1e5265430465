-- ===== src/Platform.antt =====
-- The tests of src/util.c on texts and on the operating system, `parse_boolean`, `os_matches` and
-- `os_family_matches`. The name that `uname` gives, `os`, is a parameter.
use gantt.Prelude.{Bool, true, false, ◌||◌, ◌&&◌, Option, none, some, List, [], ◌∷◌, if◌then◌else◌}
use gantt.Text.{Bytes, codes, streq, str_has_prefix, str_split, str_strip, str_down}

-- `strcasecmp(s, t) == 0` in the C locale.
unfoldable pub strcaseeq : Bytes → Bytes → Bool
strcaseeq s t = streq (str_down s) (str_down t)

-- `strncasecmp(s, prefix, strlen(prefix)) == 0`
unfoldable pub has_prefix_case : Bytes → Bytes → Bool
has_prefix_case s prefix = str_has_prefix (str_down s) (str_down prefix)

unfoldable pub is_one_of : Bytes → List Bytes → Bool
is_one_of s [] = false
is_one_of s (t ∷ texts) = streq s t || is_one_of s texts

unfoldable pub parse_boolean : Option Bytes → Bool → Bool
parse_boolean none default_value = default_value
parse_boolean (some str) default_value =
    if is_one_of str (codes "true" ∷ codes "yes" ∷ codes "on" ∷ codes "1" ∷ [])
    then true
    else if is_one_of str (codes "false" ∷ codes "no" ∷ codes "off" ∷ codes "0" ∷ [])
    then false
    else default_value

unfoldable pub is_one_of_case : Bytes → List Bytes → Bool
is_one_of_case s [] = false
is_one_of_case s (t ∷ texts) = strcaseeq s t || is_one_of_case s texts

abbrev pub unix_names : List Bytes
unix_names =
    codes "Linux"
    ∷ codes "Darwin"
    ∷ codes "FreeBSD"
    ∷ codes "OpenBSD"
    ∷ codes "NetBSD"
    ∷ codes "DragonFly"
    ∷ codes "SunOS"
    ∷ codes "AIX"
    ∷ codes "HP-UX"
    ∷ []

unfoldable pub get_os_family : Bytes → Bytes
get_os_family os =
    if strcaseeq os (codes "Darwin")
    then codes "mac"
    else if has_prefix_case os (codes "CYGWIN")
        || has_prefix_case os (codes "MINGW")
        || has_prefix_case os (codes "MSYS")
    then codes "windows"
    else if is_one_of_case os unix_names
    then codes "unix"
    else codes "unknown"

-- The loop over the names of a filter.
unfoldable pub some_part_matches : Bytes → List Bytes → Bool
some_part_matches os [] = false
some_part_matches os (part ∷ parts) = strcaseeq (str_strip part) os || some_part_matches os parts

unfoldable pub os_matches : Bytes → Option Bytes → Bool
os_matches os none = true
os_matches os (some []) = true
os_matches os (some (c ∷ os_filter)) = elim (str_split (c ∷ os_filter) (codes ",") 0) [
  | none ↦ false
  | some parts ↦ some_part_matches os parts
]

unfoldable pub os_family_matches : Bytes → Option Bytes → Bool
os_family_matches os none = true
os_family_matches os (some []) = true
os_family_matches os (some (c ∷ family_filter)) =
    if strcaseeq (c ∷ family_filter) (get_os_family os)
    then true
    else strcaseeq (c ∷ family_filter) (codes "unix") && strcaseeq (get_os_family os) (codes "mac")

-- ===== src/Fuse/FilePath.antt =====
-- What src/fuse.rs uses of `std::path::Path`, on Unix, and `is_file_in_current_dir`.
use grizol.Prelude.{Bool, false, ◌||◌, Option, none, some, List, [], ◌∷◌, ◌==◌, if◌then◌else◌}
use grizol.Prelude.Keys.{bytes_eq, list_eq}
use grizol.Prelude.Bytes.{Bytes}
use grizol.Fuse.{GrizolFileInfo, split_slash}

-- The texts `.`, `..` and `/`.
abbrev pub cur_dir : Bytes
cur_dir = 46 ∷ []

abbrev pub parent_dir_text : Bytes
parent_dir_text = 46 ∷ 46 ∷ []

abbrev pub root_dir : Bytes
root_dir = 47 ∷ []

abbrev pub is_skipped : Bytes → Bool
is_skipped x = bytes_eq.beq x [] || bytes_eq.beq x cur_dir

-- Empty parts are no components, and neither are the parts `.`.
abbrev pub keep_parts : List Bytes → List Bytes
keep_parts [] = []
keep_parts (x ∷ xs) = let rest = keep_parts xs in if is_skipped x then rest else x ∷ rest

-- A part `.` at the start is a component.
abbrev pub first_parts : List Bytes → List Bytes
first_parts [] = []
first_parts (x ∷ xs) =
    if bytes_eq.beq x cur_dir then cur_dir ∷ keep_parts xs else keep_parts (x ∷ xs)

-- `components()`, each with its text; that of a path that starts with a slash is the root's first.
abbrev pub components : Bytes → List Bytes
components [] = []
components (c ∷ cs) =
    if c == 47 then root_dir ∷ keep_parts (split_slash cs) else first_parts (split_slash (c ∷ cs))

-- `strip_prefix`, by components.
abbrev pub strip_prefix : List Bytes → List Bytes → Option (List Bytes)
strip_prefix [] path = some path
strip_prefix (b ∷ bs) [] = none
strip_prefix (b ∷ bs) (x ∷ xs) =
    let rest = strip_prefix bs xs in if bytes_eq.beq b x then rest else none

-- `file_name()`: the last component, if it is a name.
abbrev pub file_name : List Bytes → Option Bytes
file_name [] = none
file_name (x ∷ []) =
    if bytes_eq.beq x root_dir || bytes_eq.beq x cur_dir || bytes_eq.beq x parent_dir_text
    then none
    else some x
file_name (x ∷ y ∷ ys) = file_name (y ∷ ys)

abbrev pub components_eq : List Bytes → List Bytes → Bool
components_eq = (list_eq ⦃e = bytes_eq⦄).beq

abbrev pub is_single : List Bytes → Option Bytes → Bool
is_single path none = false
is_single path (some name) = components_eq path (name ∷ [])

abbrev is_name_of : Option (List Bytes) → Bool
is_name_of none = false
is_name_of (some path) = is_single path (file_name path)

unfoldable pub is_file_in_current_dir : Bytes → GrizolFileInfo → Bool
is_file_in_current_dir base_dir file =
    is_name_of (strip_prefix (components base_dir) (components file.file_info.name))

-- ===== src/Pal/FileSystem.antt =====
-- DC_PAL/FileSystem.h: the directory that a file system starts from. A path is the list of its
-- characters.
use libdronecan.Prelude.{ℕ, Bool, Option, none, some, List, [], ◌∷◌, if◌then◌else◌}

abbrev pub Chars : Type 0
Chars = List ℕ

-- '.'
abbrev dot : ℕ
dot = 46

-- The constructor of `FileSystem`, where `none` is a null pointer and the flag says whether
-- ARDUPILOT_BUILD is defined.
unfoldable pub root_path : (ardupilot_build : Bool) → Option Chars → Chars
root_path ardupilot_build none = if ardupilot_build then [] else dot ∷ []
root_path ardupilot_build (some path) = path

-- ===== src/Config/Env.antt =====
-- hub/config.py, `_parse_env` and `load_env_files`.
pub mod Quoted
use vortex_portal.Base.{
  ℕ, zero, suc, Bool, true, false, ◌&&◌, ◌||◌, not, Option, none, some, List, [], ◌∷◌, ◌++◌,
  if◌then◌else◌, leb, ◌==◌, length, drop, is_some,
}
use vortex_portal.Base.Text.{Text, codes, strip, non_empty, starts_with}
use vortex_portal.Base.Dict.{Dict, get, put}

-- The characters at which `str.splitlines` ends a line.
unfoldable pub ends_line : ℕ → Bool
ends_line c =
    (leb 10 c && leb c 13) || (leb 28 c && leb c 30) || (c == 133) || (c == 8232) || (c == 8233)

-- The first line gets one more character in front.
abbrev onto : ℕ → List Text → List Text
onto c [] = (c ∷ []) ∷ []
onto c (line ∷ lines) = (c ∷ line) ∷ lines

-- `s.splitlines()`, where a carriage return and a line feed end one line together
unfoldable pub splitlines : Text → List Text
unfolding ends_line
splitlines [] = []
splitlines (c ∷ []) = if ends_line c then [] ∷ [] else (c ∷ []) ∷ []
splitlines (c ∷ d ∷ s) =
    let rest = splitlines (d ∷ s) in
    let skip = splitlines s in
    if c == 13 && d == 10 then [] ∷ skip else if ends_line c then [] ∷ rest else onto c rest

-- line.partition("="), None where there is no "="
unfoldable pub partition : Text → Option (Text × Text)
partition [] = none
partition (c ∷ s) =
    let rest = partition s in
    if c == b'='
    then some ([], s)
    else (elim rest [ none ↦ none | some (key, val) ↦ some (c ∷ key, val) ])

-- The last character, and the text without it.
unfoldable pub last : ℕ → Text → ℕ
last c [] = c
last c (d ∷ s) = last d s

unfoldable pub init : ℕ → Text → Text
init c [] = []
init c (d ∷ s) = c ∷ init d s

-- if len(val) >= 2 and val[0] == val[-1] and val[0] in ("'", '"'): val = val[1:-1]
unfoldable pub unquote : Text → Text
unfolding last init
unquote [] = []
unquote (c ∷ []) = c ∷ []
unquote (c ∷ d ∷ s) = if c == last d s && (c == b'\'' || c == b'"') then init d s else c ∷ d ∷ s

-- if key.startswith("export "): key = key[len("export "):].strip()
unfoldable pub strip_export : Text → Text
strip_export key = if starts_with (codes "export ") key then strip (drop 7 key) else key

abbrev pub entry_of : Option (Text × Text) → Option (Text × Text)
entry_of none = none
entry_of (some (key, val)) =
    let k = strip_export (strip key) in if non_empty k then some (k, unquote (strip val)) else none

-- One turn of the loop: the entry that the line adds, if any.
unfoldable pub parse_line : Text → Option (Text × Text)
parse_line raw =
    let line = strip raw in
    if not (non_empty line) || starts_with (codes "#") line then none else entry_of (partition line)

abbrev add_entry : Option (Text × Text) → Dict Text → Dict Text
add_entry none out = out
add_entry (some (k, v)) out = put k v out

parse_lines : List Text → Dict Text → Dict Text
parse_lines [] out = out
parse_lines (raw ∷ lines) out = parse_lines lines (add_entry (parse_line raw) out)

-- `none` is the OSError of a file that cannot be read.
unfoldable pub parse_env : Option Text → Dict Text
unfolding parse_lines
parse_env none = []
parse_env (some text) = parse_lines (splitlines text) []

-- if k not in os.environ: os.environ[k] = v
fold_entries : Dict Text → Dict Text → Dict Text
fold_entries [] environ = environ
fold_entries ((k, v) ∷ entries) environ =
    fold_entries entries (if is_some (get k environ) then environ else put k v environ)

-- The loop of `load_env_files` over the candidates that are files, each once, in order.
unfoldable pub load_env_files : List (Option Text) → Dict Text → Dict Text
unfolding fold_entries
load_env_files [] environ = environ
load_env_files (file ∷ files) environ = load_env_files files (fold_entries (parse_env file) environ)

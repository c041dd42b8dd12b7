-- ===== src/Bootstrap.antt =====
-- internal/bootstrap/mount.go and shim.go: the mounts and the userdata of a node. What is written is a text,
-- what is read is the list of its codes, in which space is ASCII space. Of pack.go only
-- ScriptKey is modelled, in Aws/Launch/Keys.
pub mod Mounts
pub mod Shim
pub mod Examples
use queuezero.Prelude.{
  ℕ, suc, ◌+◌, String, ◌<>◌, Bool, true, false, ◌||◌, Option, none, some, List, [], ◌∷◌, ◌==◌,
  if◌then◌else◌, nat_beq, ltb, Result, ok, err,
}
use queuezero.Prelude.Texts.{cut, codes, trim_space, split}

pub record Mount : Type 0 where
  pub dns : String
  pub path : String

-- strings.Join
abbrev pub join : String → List String → String
join sep [] = ""
join sep (s ∷ []) = s
join sep (s ∷ t ∷ rest) = s <> (sep <> join sep (t ∷ rest))

abbrev pub is_empty : Mount → Bool
is_empty m = (m.dns == "") || (m.path == "")

abbrev pub parts_of : List Mount → List String
parts_of [] = []
parts_of (m ∷ ms) =
    let rest = parts_of ms in if is_empty m then rest else (m.dns <> (":" <> m.path)) ∷ rest

-- FormatMountSpec
pub format_mount_spec : List Mount → String
format_mount_spec ms = join "," (parts_of ms)

abbrev halves : Option (List ℕ × List ℕ) → Option (List ℕ × List ℕ)
halves none = none
halves (some ([], p)) = none
halves (some (d ∷ ds, [])) = none
halves (some (d ∷ ds, p ∷ ps)) = some (d ∷ ds, p ∷ ps)

abbrev add_some : Option (List ℕ × List ℕ) → List (List ℕ × List ℕ) → List (List ℕ × List ℕ)
add_some none rest = rest
add_some (some m) rest = m ∷ rest

-- The loop over the entries: a DNS name with its path. An empty entry has no colon.
pub mounts_of : List (List ℕ) → List (List ℕ × List ℕ)
mounts_of [] = []
mounts_of (e ∷ es) = add_some (halves (cut 58 (trim_space e))) (mounts_of es)

abbrev if_any : List ℕ → List (List ℕ × List ℕ)
if_any [] = []
if_any (c ∷ cs) = mounts_of (split 44 (c ∷ cs))

-- ParseMountSpec
pub parse_mount_spec : List ℕ → List (List ℕ × List ℕ)
unfolding mounts_of
parse_mount_spec spec = if_any (trim_space spec)

-- MountPaths
abbrev paths_of : List Mount → List String
paths_of [] = []
paths_of (m ∷ ms) = let rest = paths_of ms in if m.path == "" then rest else m.path ∷ rest

pub mount_paths : List Mount → String
mount_paths ms = join "," (paths_of ms)

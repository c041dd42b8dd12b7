-- ===== src/Slurm/Scontrol/Commands.antt =====
-- The calls of execScontrol: ShowHostnames and UpdateNode.
use queuezero.Prelude.{
  Bool, true, false, Option, none, some, List, [], ◌∷◌, ◌++◌, if◌then◌else◌, Result, ok, err,
}
use queuezero.Prelude.Texts.{codes, trim_space}
use queuezero.Slurm.Scontrol.{Text, HostlistError, names_at, expand_hostlist}

pub record Exec (W : Type 0) : Type 0 where
  pub available : Bool
  pub run : List Text → W → Result Text Text × W

pub data ShowError : Type 0 where
  not_expanded : HostlistError → ShowError
  not_run : Text → ShowError

abbrev expanded : Result HostlistError (List Text) → Result ShowError (List Text)
expanded (ok names) = ok names
expanded (err e) = err (ShowError.not_expanded e)

abbrev listed : {W : Type 0} → Result Text Text × W → Result ShowError (List Text) × W
listed (ok out, w) = (ok (names_at 10 (trim_space out)), w)
listed (err e, w) = (err (ShowError.not_run e), w)

abbrev failed : {W : Type 0} → Result Text Text × W → Option Text × W
failed (ok out, w) = (none, w)
failed (err e, w) = (some e, w)

abbrev is_blank : Text → Bool
is_blank [] = true
is_blank (c ∷ cs) = false

abbrev pub update_args : Text → Text → Text → List Text
update_args node state reason =
    codes "update"
    ∷ (codes "nodename=" ++ node)
    ∷ (codes "state=" ++ state)
    ∷ (if is_blank reason then [] else (codes "reason=" ++ reason) ∷ [])

module _ {W : Type 0} (s : Exec W) where
  -- execScontrol.ShowHostnames
  pub show_hostnames : Text → W → Result ShowError (List Text) × W
  show_hostnames hostlist w =
      if s.available
      then listed (s.run (codes "show" ∷ codes "hostnames" ∷ hostlist ∷ []) w)
      else (expanded (expand_hostlist hostlist), w)

  -- execScontrol.UpdateNode
  pub update_node : Text → Text → Text → W → Option Text × W
  update_node node state reason w =
      if s.available then failed (s.run (update_args node state reason) w) else (none, w)

-- ===== src/Ivy/Task/Answers.antt =====
-- When the task `ivy:resolve` succeeds (src/ivy_resolve.c).
use gantt.Prelude.{
  ℕ, suc, ◌≡◌, refl, Bool, true, false, ◌&&◌, ◌||◌, not, Option, some, List, length, Bool-cases,
  Option-cases, inl, inr,
}
use gantt.Text.{Bytes, codes}
use gantt.Dict.{Dict}
use gantt.Target.{is_some}
use gantt.Ivy.Resolvers.{ModuleDescriptor, Outside}
use gantt.Ivy.Walk.{Walk, IvySettings}
use gantt.Ivy.Walk.Known.{Within, IsFinite}
use gantt.Ivy.Resolve.{requested}
use gantt.Ivy.Resolve.Run.{resolve_run-Settled}
use gantt.Ivy.Task.{
  attribute_or, resolve_optional, ran, run_files, answer, resolve_file, discover_settings_file,
  failonerror, ivy_resolve_invoke,
}

or_false : (b : Bool) → (b || false) ≡ b
or_false true = refl
or_false false = refl

or_true : (b : Bool) → (b || true) ≡ true
or_true true = refl
or_true false = refl

module _ (D : (V : Type 0) → Dict V) (O : Outside) (expand : Bytes → Bytes)
    (load_settings : Outside.World O → Option Bytes → Option IvySettings) (keys : List Bytes) where
  -- The settings and the descriptor that are read, if they can be, lead to finitely many modules.
  abbrev pub IsBounded : Outside.World O → Bytes → Option Bytes → Option Bytes → Type 0
  IsBounded w file settings_file conf =
      (settings : IvySettings) (root_md : ModuleDescriptor)
      → load_settings w settings_file ≡ some settings
      → Outside.descriptor_parse_file O w file ≡ some root_md
      → IsFinite D O settings (requested conf root_md.configurations) keys
        × Within D O settings (requested conf root_md.configurations) keys root_md.dependencies

  -- The files are there and can be read.
  abbrev pub can_resolve : Outside.World O → Bytes → Option Bytes → Bool
  can_resolve w file settings_file =
      Outside.file_exists O w file
      && is_some (load_settings w settings_file)
      && is_some (Outside.descriptor_parse_file O w file)

  abbrev fuel : ℕ
  fuel = suc (length keys)

  ran-some :
      (file : Bytes) (failonerror : Bool) (o : Option (Walk D O)) (ctx : Walk D O)
      → o ≡ some ctx
      → (w' : Outside.World O) × (answer D O expand load_settings fuel file failonerror
            (ran D O expand load_settings fuel o)
          ≡ some (true, w'))
  unfolding ran answer
  ran-some file failonerror o ctx e = rw (e, ran, answer) (_, refl)

  resolve_file-answer :
      (file : Bytes) (settings_file conf : Option Bytes) (failonerror : Bool) (w : Outside.World O)
      → IsBounded w file settings_file conf
      → (w' : Outside.World O) × (resolve_file D O expand load_settings fuel file settings_file conf
            failonerror w
          ≡ some (not failonerror || can_resolve w file settings_file, w'))
  unfolding resolve_file run_files answer is_some
  resolve_file-answer file settings_file conf failonerror w bounded =
      elim (Bool-cases (Outside.file_exists O w file)) [
        | inr x ↦ rw (x, or_false (not failonerror)) (_, refl)
        | inl x ↦ elim (Option-cases (load_settings w settings_file)) [
          | inl s ↦ rw (x, s, run_files, is_some, or_false (not failonerror)) (_, refl)
          | inr (settings, s) ↦ elim (Option-cases (Outside.descriptor_parse_file O w file)) [
            | inl d ↦ rw (x, s, d, run_files, is_some, or_false (not failonerror)) (_, refl)
            | inr (root_md, d) ↦
                let (finite, within) = bounded settings root_md s d in
                let (ctx, e, _) =
                  resolve_run-Settled D O settings root_md conf keys w finite within in
                rw (x, s, d, run_files, is_some, or_true (not failonerror))
                  (ran-some file failonerror _ ctx e)
          ]
        ]
      ]

  -- Where the attributes can be resolved and the modules are finitely many, the task comes back. It
  -- succeeds if the file of the module is there and it and the settings can be read, and whenever
  -- `failonerror` is not set; a dependency that is not found is no error of the task.
  pub ivy_resolve_invoke_lem :
      (resolve : Bytes → Option Bytes) (attribute : Bytes → Option Bytes) (file : Bytes)
      (settings_file conf : Option Bytes) (w : Outside.World O)
      → resolve (attribute_or (attribute (codes "file")) (codes "ivy.xml")) ≡ some file
      → discover_settings_file D O expand load_settings fuel resolve attribute w
        ≡ some settings_file
      → resolve_optional resolve (attribute (codes "conf")) ≡ some conf
      → IsBounded w (expand file) settings_file conf
      → (w' : Outside.World O) × (ivy_resolve_invoke D O expand load_settings fuel resolve attribute
            w
          ≡ some (
            not (failonerror D O expand load_settings fuel resolve attribute)
                || can_resolve w (expand file) settings_file,
            w',
          ))
  unfolding ivy_resolve_invoke
  ivy_resolve_invoke_lem resolve attribute file settings_file conf w f s c bounded =
      rw (f, s, c, ivy_resolve_invoke)
        (resolve_file-answer (expand file) settings_file conf _ w bounded)

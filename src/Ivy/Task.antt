-- ===== src/Ivy/Task.antt =====
-- The task `ivy:resolve`: `discover_settings_file` and `ivy_resolve_invoke` of src/ivy_resolve.c, with
-- the beginning of `ivy_resolve_run`, which reads the settings and the descriptor. What
-- `resolve_variables` makes of an attribute is a parameter, with `none` where it goes on forever; so
-- are `expand_location` in the project and the reading of settings.
pub mod Answers
use gantt.Prelude.{
  ℕ, suc, ◌≡◌, refl, Bool, true, false, ◌&&◌, ◌||◌, not, Option, none, some, List, [], ◌∷◌, length,
  if◌then◌else◌, Bool-cases, Option-cases, inl, inr,
}
use gantt.Text.{Bytes, codes}
use gantt.Dict.{Dict}
use gantt.Target.{is_some}
use gantt.Platform.{parse_boolean}
use gantt.Ivy.Resolvers.{ModuleDescriptor, Outside, ivy_file_not_found, resolved, resolve_failed}
use gantt.Ivy.Walk.{Walk, IvySettings}
use gantt.Ivy.Walk.Known.{Within, IsFinite}
use gantt.Ivy.Resolve.{requested, resolve_run}
use gantt.Ivy.Resolve.Run.{resolve_run-Settled}

-- The attribute or what stands for it.
unfoldable pub attribute_or : Option Bytes → Bytes → Bytes
attribute_or none default = default
attribute_or (some value) default = value

-- An attribute that need not be there.
unfoldable pub resolve_optional : (Bytes → Option Bytes) → Option Bytes → Option (Option Bytes)
resolve_optional resolve none = some none
resolve_optional resolve (some value) = elim (resolve value) [
  | none ↦ none
  | some text ↦ some (some text)
]

module _ (D : (V : Type 0) → Dict V) (O : Outside) (expand : Bytes → Bytes)
    (load_settings : Outside.World O → Option Bytes → Option IvySettings) (fuel : ℕ) where
  -- `ivy_resolve_run`: whether there is a resolution, and what lies outside.
  abbrev pub Run : Type 0
  Run = Option (Walk D O) × Outside.World O

  unfoldable pub ran : Option (Walk D O) → Option Run
  ran none = none
  ran (some ctx) = some (some ctx, ctx.world)

  unfoldable pub run_files : Bytes → Option Bytes → Option Bytes → Outside.World O → Option Run
  run_files ivy_file settings_file conf_filter w = elim (load_settings w settings_file) [
    | none ↦ some (none, w)
    | some settings ↦ elim (Outside.descriptor_parse_file O w ivy_file) [
      | none ↦ some (none, w)
      | some root_md ↦ ran (resolve_run D O fuel settings root_md conf_filter w)
    ]
  ]

  -- The rest of the task, behind the resolution.
  unfoldable pub answer : Bytes → Bool → Option Run → Option (Bool × Outside.World O)
  answer file failonerror none = none
  answer file failonerror (some (none, w)) =
      some (not failonerror, Outside.task_log O w (resolve_failed file))
  answer file failonerror (some (some ctx, w)) =
      some (true, Outside.task_log O w (resolved (length (Dict.entries (D _) ctx.modules))))

  unfoldable pub resolve_file :
      Bytes → Option Bytes → Option Bytes → Bool → Outside.World O → Option (Bool × Outside.World O)
  resolve_file file settings_file conf failonerror w =
      if Outside.file_exists O w file
      then answer file failonerror (run_files file settings_file conf w)
      else some (not failonerror, Outside.task_log O w (ivy_file_not_found file))

  module _ (resolve : Bytes → Option Bytes) (attribute : Bytes → Option Bytes) where
    unfoldable pub discover_settings_file : Outside.World O → Option (Option Bytes)
    discover_settings_file w = elim (attribute (codes "settingsfile")) [
      | some attr ↦ elim (resolve attr) [
        | none ↦ none
        | some settings_file ↦ some (some (expand settings_file))
      ]
      | none ↦ some (
          if Outside.file_exists O w (expand (codes "ivysettings.xml"))
          then some (expand (codes "ivysettings.xml"))
          else none)
    ]

    abbrev pub failonerror : Bool
    failonerror = parse_boolean (attribute (codes "failonerror")) true

    -- `ivy_resolve_invoke`: whether the task succeeds, and what lies outside.
    unfoldable pub ivy_resolve_invoke : Outside.World O → Option (Bool × Outside.World O)
    ivy_resolve_invoke w =
        elim (resolve (attribute_or (attribute (codes "file")) (codes "ivy.xml"))) [
          | none ↦ none
          | some file ↦ elim (discover_settings_file w) [
            | none ↦ none
            | some settings_file ↦ elim (resolve_optional resolve (attribute (codes "conf"))) [
              | none ↦ none
              | some conf ↦ resolve_file (expand file) settings_file conf failonerror w
            ]
          ]
        ]

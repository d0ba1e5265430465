-- ===== src/Examples/Retrieval.antt =====
-- Artifacts that `ivy:retrieve` copies.
use gantt.Prelude.{ℕ, Bool, true, false, ◌||◌, none, some, List, [], ◌∷◌, In, if◌then◌else◌}
use gantt.Text.{Bytes, codes, streq}
use gantt.Dict.{Dict}
use gantt.Hashtable.Refines.{hashtable_dict}
use gantt.Ivy.Confs.{IvyModuleId}
use gantt.Ivy.Resolvers.{Outside, Warning}
use gantt.Ivy.Walk.{Walk, ModuleReport, RevisionReport, IvyArtifact}
use gantt.Ivy.Retrieve.{Storage, retrieve_all}

abbrev lib_id : IvyModuleId
lib_id = record {
  organisation = some (codes "org");
  name = some (codes "lib");
  revision = some (codes "1.0");
}

-- The files that are there, and the warnings.
record Disk : Type 0 where
  files : List Bytes
  log : List Warning

abbrev listed : Bytes → List Bytes → Bool
listed path [] = false
listed path (file ∷ files) = streq file path || listed path files

abbrev outside : Outside
outside = record {
  World = Disk;
  file_exists = λ w path. listed path w.files;
  file_is_directory = λ w path. false;
  mkdir_p = λ w path. w;
  cp = λ w source dest. (false, w);
  get_invoke = λ w source dest username password. (false, w);
  pom_parse_file = λ w path id. none;
  descriptor_parse_file = λ w path. none;
  task_log = λ w warning. record w { log = warning ∷ w.log };
}

-- A file that is there holds one byte, and every file can be made.
abbrev storage : Storage outside
storage = record {
  read_file = λ w path. if listed path w.files then some (b'x' ∷ []) else none;
  create_file = λ w dest. (true, record w { files = dest ∷ w.files });
  append_file = λ w dest block. (true, w);
}

abbrev Warned : Disk → Warning → Type 0
Warned w x = In x w.log

abbrev jar : IvyArtifact
jar = record {
  id = lib_id;
  artifact_type = codes "jar";
  ext = codes "jar";
  cached_path = codes "cache/lib.jar";
}

abbrev report : RevisionReport
report = record {
  revision = codes "1.0";
  status = none;
  resolver_name = none;
  pubdate = none;
  homepage = none;
  evicted = false;
  evicted_by_rev = none;
  is_default = true;
  error = none;
  downloaded = true;
  callers = [];
  artifacts = jar ∷ [];
  licenses = [];
  confs = codes "default" ∷ [];
}

abbrev module_report : ModuleReport
module_report = record { id = lib_id; revisions = codes "org:lib:1.0" ∷ [] }

abbrev resolution : Walk hashtable_dict outside
resolution = record {
  ancestor_path = Dict.empty (hashtable_dict _);
  descriptor_cache = Dict.empty (hashtable_dict _);
  modules =
      Dict.insert (hashtable_dict _) (Dict.empty (hashtable_dict _)) (codes "org:lib")
        module_report;
  revision_index =
      Dict.insert (hashtable_dict _) (Dict.empty (hashtable_dict _)) (codes "org:lib:1.0") report;
  world = record { files = []; log = [] };
}

-- The artifact is in the cache, and not yet at its place.
abbrev disk : Disk
disk = record { files = codes "cache/lib.jar" ∷ []; log = [] }

abbrev retrieved : ℕ × Disk
retrieved =
    retrieve_all hashtable_dict outside storage (codes "cache") (λ text. text)
      (codes "[conf]/[artifact].[ext]") resolution (0, disk)

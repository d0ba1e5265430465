-- ===== src/Lib.antt =====
-- gantt, a build tool that reads Ant's build files, in C.
--
-- How the parts work together: a build file gives a project with targets, a property table and
-- named filesets and selectors (src/project.c, src/parser.c). `target_invoke` (src/target.c) runs a
-- target behind its dependencies. Tasks read their attributes through `resolve_variables`
-- (src/project.c) and choose files by patterns (src/match.c, src/selector.c, src/fileset.c). All
-- tables are the hash table of src/util.c. `property_invoke` (src/property.c) fills the properties,
-- from files, archives, the environment and path structures (src/path.c). The Ivy tasks resolve modules
-- from repositories (src/ivy_resolve.c): they ask a chain of resolvers, walk the dependencies, and
-- report on each revision, with the revisions, patterns and keys of src/ivy_parse.c. XML is read by
-- expat into the trees of src/xml.c.
--
-- Which file models what, with the source's names for the functions unless one is given:
--   Prelude         numbers, Boolean tests and list operations that the others share
--   Text            strings as lists of bytes: str_split, str_strip, str_down (src/util.c)
--   Hashtable       the hash table of src/util.c, hashtable_insert as `insert`, and so on
--   Dict            what the clients of the hash table rely on; `Hashtable.Refines.hashtable_dict`
--                   fills it from the theorems on the hash table
--   Match           match_path and its helpers (src/match.c)
--   Variables       resolve_variables (src/project.c)
--   Target          the depends attribute and target_invoke (src/target.c), the resolution of
--                   dependencies (src/project.c, src/parser.c) as `resolve_project`
--   Location        expand_location (src/property.c)
--   Platform        parse_boolean, os_matches, os_family_matches (src/util.c)
--   Properties      property_parse_string, set_property_if_unset, property_invoke (src/property.c);
--                   property_read_file and property_read_url are `property_read`
--   Paths           resolve_path (src/path.c), list_to_string (src/gantt.c)
--   Conditions      the nested conditions and condition_invoke (src/property.c)
--   Selectors       selector_matches (src/selector.c)
--   Fileset         selector_match_file (src/selector.c), and the passes of add_files over one file
--                   (src/fileset.c) as `takes_file`
--   Ivy             ivy_compare_revisions as `compare_revisions`, ivy_pattern_substitute as
--                   `pattern_substitute` (src/ivy_parse.c); the configurations, the resolvers,
--                   walk_module, ivy_resolve_run as `resolve_run`, ivy_resolve_invoke, and
--                   copy_file_to and retrieve_module_cb as `retrieve_module`
--                   (src/ivy_resolve.c);
--                   xml_attr_escape (src/ivy_report.c)
--   Xml             the nodes and callbacks of src/xml.c
--   StringBuffer    string_t and its operations (src/util.c)
--   Native2ascii    utf8_to_codepoint and convert_file (src/native2ascii.c)
--   ConvertEol      convert_eol (src/fileops.c)
--   Javac           needs_compilation (src/javac.c)
--   Examples        the theorems at concrete inputs
--
-- Bounds and fuel: the hash wraps at 32 bits, as `unsigned int` does, and the number of a revision
-- token stops at the greatest 64-bit `long`, as `strtol` does. The loops of str_split, of
-- tokenize_revision, of ivy_pattern_substitute and of native2ascii take a character in each round, so
-- the length of the text is fuel enough; the growth of a string adds a byte at least in each round.
-- resolve_variables, resolve_path, target_invoke, selector_matches and walk_module recur in the
-- source without a bound; their fuel is an argument, and there are theorems on how much is enough.
--
-- Parameters: fnmatch, the version of Java, the name of the system, the working directory,
-- file_exists, stat and readdir, the contents of files, archives and URLs, the environment, what a
-- task does; for the Ivy tasks the file system, `mkdir`, `cp`, opening and writing a file, the get
-- task and the parsers of descriptors and settings; for XML the events of expat. Not modelled: allocation
-- that fails, processes, the network, the parser's handlers, the tasks that run programs, and the
-- Ivy tasks other than ivy:resolve, but for the loop of ivy:retrieve. A number in an `int` or
-- `size_t` that counts things in memory is taken not to overflow.
pub mod Prelude
pub mod Text
pub mod Dict
pub mod Hashtable
pub mod Match
pub mod Variables
pub mod Target
pub mod Ivy
pub mod Location
pub mod Paths
pub mod Platform
pub mod Xml
pub mod ConvertEol
pub mod Javac
pub mod Native2ascii
pub mod StringBuffer
pub mod Properties
pub mod Conditions
pub mod Selectors
pub mod Fileset
pub mod Examples

-- ===== src/StaticFiles.antt =====
-- cot/src/static_files.rs: the files of the apps, and the service that answers with them in front of
-- another. What `mime_guess` returns for a path is a parameter.
pub mod Last
pub mod Tests
use flareon.Base.{
  ℕ, List, [], ◌∷◌, Option, none, some, Bool, if◌then◌else◌, Text, Text-Eq, codes, length, drop,
  lookup, insert,
}
use flareon.Matcher.{starts_with}
use flareon.Project.{Parts, with_apps, ProjectContext}

-- `Bytes`.
abbrev pub Bytes : Type 0
Bytes = List ℕ

pub record File : Type 0 where
  pub content : Bytes
  pub mime_type : Text

pub record StaticFiles : Type 0 where
  pub files : List (Text × File)

-- The status is 200.
pub record FileResponse : Type 0 where
  pub content_type : Text
  pub body : Bytes

unfoldable pub new : StaticFiles
new = record { files = [] }

unfoldable pub as_response : File → FileResponse
as_response f = record { content_type = f.mime_type; body = f.content }

unfoldable pub get_file : Text → StaticFiles → Option File
get_file path s = lookup path s.files

module _ (mime_from_path : Text → Text) where
  unfoldable pub add_file : Text → Bytes → StaticFiles → StaticFiles
  add_file path content s = record {
    files = insert path (record { content = content; mime_type = mime_from_path path }) s.files;
  }

  -- The loop over the files of an app.
  unfoldable pub add_files : List (Text × Bytes) → StaticFiles → StaticFiles
  unfolding add_file
  add_files [] s = s
  add_files ((path, content) ∷ rest) s = add_files rest (add_file path content s)

  module _ (parts : Parts) (static_files : parts.App → List (Text × Bytes)) where
    -- The loop over the apps.
    unfoldable pub add_apps : List parts.App → StaticFiles → StaticFiles
    unfolding add_files
    add_apps [] s = s
    add_apps (app ∷ apps) s = add_apps apps (add_files (static_files app) s)

    unfoldable pub from_app_context : ProjectContext parts with_apps → StaticFiles
    unfolding add_apps new
    from_app_context context = add_apps context.apps new

-- The answer of the service, or the call of the inner one.
pub data ServiceAnswer : Type 0 where
  static_file_response : FileResponse → ServiceAnswer
  inner_call : ServiceAnswer

abbrev pub static_path : Text
static_path = codes "/static/"

abbrev pub strip_prefix : Text → Text → Option Text
strip_prefix prefix path =
    if starts_with path prefix then some (drop (length prefix) path) else none

abbrev pub response_or_inner : Option File → ServiceAnswer
response_or_inner (some f) = static_file_response (as_response f)
response_or_inner none = inner_call

abbrev pub at_stripped : StaticFiles → Option Text → ServiceAnswer
at_stripped s (some stripped_path) = response_or_inner (get_file stripped_path s)
at_stripped s none = inner_call

unfoldable pub call : StaticFiles → Text → ServiceAnswer
call s path = at_stripped s (strip_prefix static_path path)

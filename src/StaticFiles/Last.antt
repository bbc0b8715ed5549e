-- ===== src/StaticFiles/Last.antt =====
-- Which file is served at a path, cot/src/static_files.rs.
use flareon.Base.{
  lookup, List, [], ◌∷◌, ◌++◌, Option, none, some, Bool-cases, inl, inr, if◌then◌else◌, Text,
  Text-Eq, text_eq, lookup, lookup-insert, ◌≡◌, refl, sym, text_eq→eq, ap, ◌∙◌,
}
use flareon.Project.{Parts, with_apps, ProjectContext}
use flareon.StaticFiles.{
  Bytes, File, StaticFiles, new, as_response, get_file, add_file, add_files, add_apps,
  from_app_context, ServiceAnswer, static_file_response, inner_call, static_path, strip_prefix,
  at_stripped, response_or_inner, call,
}

-- The last content for a path.
abbrev pub last_content : Text → List (Text × Bytes) → Option Bytes
last_content path [] = none
last_content path ((p, content) ∷ rest) = elim (last_content path rest) [
  | some later ↦ some later
  | none ↦ if text_eq p path then some content else none
]

-- The files of all apps, in their order.
abbrev pub all_files :
    (parts : Parts) → (parts.App → List (Text × Bytes)) → List parts.App → List (Text × Bytes)
all_files parts static_files [] = []
all_files parts static_files (app ∷ apps) = static_files app ++ all_files parts static_files apps

module _ (mime_from_path : Text → Text) where
  abbrev file_or : Text → Option Bytes → Option File → Option File
  file_or path (some content) before =
      some (record { content = content; mime_type = mime_from_path path })
  file_or path none before = before

  file : Text → Bytes → File
  file path content = record { content = content; mime_type = mime_from_path path }

  get_file-add_file :
      (path p : Text) (content : Bytes) (s : StaticFiles)
      → get_file path (add_file mime_from_path p content s)
        ≡ file_or path (if text_eq p path then some content else none) (get_file path s)
  unfolding add_file get_file file
  get_file-add_file path p content s = elim (Bool-cases (text_eq p path)) [
    | inl same ↦
        lookup-insert p path (file p content) s.files
        ∙ rw same (ap (λ q. some (file q content)) (text_eq→eq p path same))
    | inr other ↦ lookup-insert p path (file p content) s.files ∙ rw other refl
  ]

  file_or-last :
      (path : Text) (later : Option Bytes) (first : Option Bytes) (before : Option File)
      → file_or path later (file_or path first before)
        ≡ file_or path (elim later as (λ _. Option Bytes) [ some c ↦ some c | none ↦ first ]) before
  file_or-last path none first before = refl
  file_or-last path (some c) first before = refl

  get_file-add_files :
      (path : Text) (entries : List (Text × Bytes)) (s : StaticFiles)
      → get_file path (add_files mime_from_path entries s)
        ≡ file_or path (last_content path entries) (get_file path s)
  unfolding add_files add_file get_file
  get_file-add_files path [] s = refl
  get_file-add_files path ((p, content) ∷ rest) s =
      get_file-add_files path rest (add_file mime_from_path p content s)
      ∙ ap (file_or path (last_content path rest)) (get_file-add_file path p content s)
      ∙ file_or-last path (last_content path rest) (if text_eq p path then some content else none)
          (get_file path s)

  add_files-append :
      (xs ys : List (Text × Bytes)) (s : StaticFiles)
      → add_files mime_from_path (xs ++ ys) s
        ≡ add_files mime_from_path ys (add_files mime_from_path xs s)
  unfolding add_files
  add_files-append [] ys s = refl
  add_files-append ((p, content) ∷ xs) ys s =
      add_files-append xs ys (add_file mime_from_path p content s)

  module _ (parts : Parts) (static_files : parts.App → List (Text × Bytes)) where
    add_apps-all_files :
        (apps : List parts.App) (s : StaticFiles)
        → add_apps mime_from_path parts static_files apps s
          ≡ add_files mime_from_path (all_files parts static_files apps) s
    unfolding add_apps add_files
    add_apps-all_files [] s = refl
    add_apps-all_files (app ∷ apps) s =
        add_apps-all_files apps (add_files mime_from_path (static_files app) s)
        ∙ sym (add_files-append (static_files app) (all_files parts static_files apps) s)

    -- What is answered at a path behind the prefix, or at another.
    abbrev pub served : List (Text × Bytes) → Option Text → ServiceAnswer
    served files none = inner_call
    served files (some path) = elim (last_content path files) [
      | some content ↦
          static_file_response (record { content_type = mime_from_path path; body = content })
      | none ↦ inner_call
    ]

    -- At a path that begins with `/static/`, the service answers with the content that the last of the
    -- apps with a file at the rest of the path has there, the last in the app's list, and with the type
    -- guessed for that rest; where no app has one, and at any other path, it calls the inner service.
    pub call-from_app_context :
        (context : ProjectContext parts with_apps) (path : Text)
        → call (from_app_context mime_from_path parts static_files context) path
          ≡ served (all_files parts static_files context.apps) (strip_prefix static_path path)
    unfolding call from_app_context new get_file as_response lookup
    call-from_app_context context path = stripped (strip_prefix static_path path)
      where
        found :
            (p : Text) (o : Option Bytes)
            → response_or_inner (file_or p o none) ≡ (elim o as (λ _. ServiceAnswer) [
              | some content ↦
                  static_file_response (record { content_type = mime_from_path p; body = content })
              | none ↦ inner_call
            ])
        found p none = refl
        found p (some content) = refl

        stripped :
            (o : Option Text)
            → at_stripped (from_app_context mime_from_path parts static_files context) o
              ≡ served (all_files parts static_files context.apps) o
        stripped none = refl
        stripped (some p) =
            ap response_or_inner (
              ap (get_file p) (add_apps-all_files context.apps new)
              ∙ get_file-add_files p (all_files parts static_files context.apps) new)
            ∙ found p (last_content p (all_files parts static_files context.apps))

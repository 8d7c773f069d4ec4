-- ===== src/Osc/Ensurer/Files.antt =====
-- The file with a path, and how the loop that adds files changes it.
use gardener_extension_shoot.Common.{
  String, List, [], ◌∷◌, ◌++◌, Option, none, some, str_eq, if◌then◌else◌, ◌≡◌, refl, arith,
}
use gardener_extension_shoot.Osc.Files.{File}
use gardener_extension_shoot.Osc.Ensurer.{Seed, ensure_files}

-- the first file with a path
unfoldable pub file_at : String → List File → Option File
file_at path [] = none
file_at path (f ∷ fs) = if str_eq f.path path then some f else file_at path fs

-- the first one, unless there is none
abbrev pub or_else : Option File → Option File → Option File
or_else none o = o
or_else (some f) o = some f

-- the last file with a path
unfoldable pub last_at : String → List File → Option File
last_at path [] = none
last_at path (f ∷ fs) = or_else (last_at path fs) (if str_eq f.path path then some f else none)

-- What EnsureFileWithPath does: the file is the one with its path, and the others stay.
abbrev pub PutsFiles : Seed → Type 0
PutsFiles seed =
    (files : List File) (f : File) (path : String)
    → file_at path (seed.ensure_file_with_path files f)
      ≡ (if str_eq f.path path then some f else file_at path files)

or_else_assoc : (a b c : Option File) → or_else a (or_else b c) ≡ or_else (or_else a b) c
or_else_assoc none b c = refl
or_else_assoc (some f) b c = refl

pub last_at-append :
    (path : String) (xs ys : List File)
    → last_at path (xs ++ ys) ≡ or_else (last_at path ys) (last_at path xs)
unfolding last_at
last_at-append path [] ys = ground arith
last_at-append path (x ∷ xs) ys = rw (last_at-append path xs ys) (ground arith)

module _ (seed : Seed) where
  pub ensure_files-append :
      (xs ys files : List File)
      → ensure_files seed (xs ++ ys) files ≡ ensure_files seed ys (ensure_files seed xs files)
  unfolding ensure_files
  ensure_files-append [] ys files = refl
  ensure_files-append (x ∷ xs) ys files = ensure_files-append xs ys _

  -- The file with a path is the last that is added, or the one that was there.
  pub file_at-ensure_files :
      (puts : PutsFiles seed) (path : String) (more files : List File)
      → file_at path (ensure_files seed more files)
        ≡ or_else (last_at path more) (file_at path files)
  unfolding ensure_files last_at
  file_at-ensure_files puts path [] files = refl
  file_at-ensure_files puts path (f ∷ more) files =
      rw
        (
          file_at-ensure_files puts path more (seed.ensure_file_with_path files f),
          puts files f path,
        )
        (ground arith)

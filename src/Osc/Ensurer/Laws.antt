-- ===== src/Osc/Ensurer/Laws.antt =====
-- What EnsureAdditionalFiles does to the files: it leaves the files of others as they are, a second
-- call changes nothing, and a Shoot that the admission has let through gets its files.
use gardener_extension_shoot.Common.{
  String, List, [], ◌∷◌, Option, none, some, false, eq_iff, ◌≡◌, ◌⊎◌, refl, arith,
}
use gardener_extension_shoot.Gardener.{Error}
use gardener_extension_shoot.Go.Strconv.{Unicode}
use gardener_extension_shoot.Validation.{has}
use gardener_extension_shoot.Osc.Files.{File, Library}
use gardener_extension_shoot.Osc.Audit.{AuditLibrary}
use gardener_extension_shoot.Osc.Ensurer.{Seed, SeedCluster, ensure_files, ensure_additional_files}
use gardener_extension_shoot.Osc.Ensurer.Files.{
  file_at, last_at, or_else, PutsFiles, file_at-ensure_files,
}
use gardener_extension_shoot.Osc.Ensurer.Owned.{owned_paths, AreOwned, ensure_additional_files-Adds}

last_at-AreOwned :
    (path : String) (files : List File)
    → AreOwned files
    → has owned_paths path ≡ false
    → last_at path files ≡ none
unfolding last_at
last_at-AreOwned path [] h k = refl
last_at-AreOwned path (f ∷ fs) h k =
    ground (arith, eq_iff f.path path, last_at-AreOwned path fs h.1 k, h.0)

or_else_twice : (a b : Option File) → or_else a (or_else a b) ≡ or_else a b
or_else_twice none b = refl
or_else_twice (some f) b = refl

module _ (unicode : Unicode) (library : Library) (audit : AuditLibrary) (seed : Seed)
    (puts : PutsFiles seed) (get_cluster : Error ⊎ SeedCluster) where
  -- Whatever EnsureAdditionalFiles returns, an error or a panic included, the file with a path that
  -- is not one of the twelve owned paths is the one that was there, or still there is none. The
  -- helper that adds a file must put it at its path and leave the others.
  pub ensure_additional_files-file_at :
      (path : String) (before : List File)
      → has owned_paths path ≡ false
      → file_at path (ensure_additional_files unicode library audit seed get_cluster before).1
        ≡ file_at path before
  ensure_additional_files-file_at path before foreign =
      let adds = ensure_additional_files-Adds unicode library audit seed get_cluster in
      rw
        (
          adds.runs before,
          file_at-ensure_files seed puts path adds.files before,
          last_at-AreOwned path adds.files adds.owned foreign,
        )
        refl

  -- A second call of EnsureAdditionalFiles, on the files that the first one left, returns what the
  -- first one did, and leaves the same file at every path. The helper that adds a file must put it
  -- at its path and leave the others.
  pub ensure_additional_files_twice :
      (before : List File)
      → let first = ensure_additional_files unicode library audit seed get_cluster before in
        let second = ensure_additional_files unicode library audit seed get_cluster first.1 in
        (second.0 ≡ first.0) × ((path : String) → file_at path second.1 ≡ file_at path first.1)
  ensure_additional_files_twice before =
      let adds = ensure_additional_files-Adds unicode library audit seed get_cluster in
      rw (adds.runs before, adds.runs (ensure_files seed adds.files before))
        (
          refl,
          λ path.
              rw
                (
                  file_at-ensure_files seed puts path adds.files
                      (ensure_files seed adds.files before),
                  file_at-ensure_files seed puts path adds.files before,
                )
                (or_else_twice (last_at path adds.files) (file_at path before)),
        )

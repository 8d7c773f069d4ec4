-- ===== src/Tests/Utils.antt =====
-- The tests of the name of a project.
use gardener_extension_shoot.Common.{◌++◌, codes, ◌≡◌, refl, arith}
use gardener_extension_shoot.Go.Strings.{strip_prefix}
use gardener_extension_shoot.Utils.{
  trim_prefix, trim_suffix, trim_left, trim, project_name, NoDash, dashes, project_name-namespace,
}

project_name-of_foo : project_name (codes "shoot--foo--bar") (codes "bar") ≡ codes "foo"
unfolding project_name trim_suffix trim_prefix trim trim_left strip_prefix
project_name-of_foo = refl

foo-NoDash : NoDash (codes "foo")
foo-NoDash = ground arith

project_name-namespace_example :
    project_name
      (codes "shoot-" ++ ((dashes 1 ++ (codes "foo" ++ dashes 1)) ++ (codes "-" ++ codes "bar")))
      (codes "bar")
    ≡ codes "foo"
project_name-namespace_example =
    project_name-namespace 1 1 (codes "foo") (codes "bar") foo-NoDash (ground arith)

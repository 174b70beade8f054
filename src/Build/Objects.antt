-- ===== src/Build/Objects.antt =====
-- The object that a build script leaves and the one that the tracer includes: build.rs and
-- `BPF_OBJECT` in src/main.rs of crates/tragach-slowquery, crates/tragach-attach,
-- crates/tragach-pageio and crates/tragach-iowait.
use tragach.Build.Succeeded.{Done, build-Done}
use tragach.Build.{Machine, Outcome, copied, build_bpf_subcrate}
use mathlib.Core.Path.{ap₂}
use tragach.Prelude.{some_injective, ◌≡◌, refl, sym, ◌∙◌, false, some, ◌++◌, Text, codes}
use tragach.Startup.{join, ends_with_slash}

pub data Crate : Type 0 where
  slowquery attach pageio iowait : Crate

-- `main` of the four scripts.
unfoldable pub main_slowquery : Machine → Outcome
main_slowquery m = build_bpf_subcrate m (codes "src/bpf")

unfoldable pub main_attach : Machine → Outcome
main_attach m = build_bpf_subcrate m (codes "src/bpf")

unfoldable pub main_pageio : Machine → Outcome
main_pageio m = build_bpf_subcrate m (codes "src/bpf")

unfoldable pub main_iowait : Machine → Outcome
main_iowait m = build_bpf_subcrate m (codes "src/bpf")

abbrev pub main : Crate → Machine → Outcome
main slowquery = main_slowquery
main attach = main_attach
main pageio = main_pageio
main iowait = main_iowait

-- `concat!(env!("OUT_DIR"), ..)`
abbrev pub object_slowquery : (out_dir : Text) → Text
object_slowquery out_dir = out_dir ++ codes "/tragach-slowquery"

abbrev pub object_attach : (out_dir : Text) → Text
object_attach out_dir = out_dir ++ codes "/tragach-attach"

abbrev pub object_pageio : (out_dir : Text) → Text
object_pageio out_dir = out_dir ++ codes "/tragach-pageio"

abbrev pub object_iowait : (out_dir : Text) → Text
object_iowait out_dir = out_dir ++ codes "/tragach-iowait"

abbrev pub object : Crate → (out_dir : Text) → Text
object slowquery = object_slowquery
object attach = object_attach
object pageio = object_pageio
object iowait = object_iowait

-- The package's name in the crate's Cargo.toml.
abbrev pub crate_name : Crate → Text
crate_name slowquery = codes "tragach-slowquery"
crate_name attach = codes "tragach-attach"
crate_name pageio = codes "tragach-pageio"
crate_name iowait = codes "tragach-iowait"

join-object :
    (c : Crate) (out_dir : Text)
    → ends_with_slash out_dir ≡ false
    → join out_dir (crate_name c) ≡ object c out_dir
join-object slowquery out_dir h = rw h refl
join-object attach out_dir h = rw h refl
join-object pageio out_dir h = rw h refl
join-object iowait out_dir h = rw h refl

main-build :
    (c : Crate) (m : Machine) {o : Outcome}
    → main c m ≡ o
    → build_bpf_subcrate m (codes "src/bpf") ≡ o
unfolding main_slowquery main_attach main_pageio main_iowait
main-build slowquery m e = e
main-build attach m e = e
main-build pageio m e = e
main-build iowait m e = e

-- If the build script of a crate says that it copied an object, then the manifest of src/bpf is there,
-- the command for it succeeded with the architecture and the target of cargo's environment, the
-- copy of what that command leaves succeeded, and it is the file that `main` of the tracer includes,
-- if OUT_DIR does not end with a slash and the package has the crate's name.
pub main-includes :
    (c : Crate) (m : Machine) (out_dir built dst : Text)
    → m.var "OUT_DIR" ≡ some out_dir
    → ends_with_slash out_dir ≡ false
    → m.var "CARGO_PKG_NAME" ≡ some (crate_name c)
    → main c m ≡ copied built dst
    → Done m (join (join m.manifest_dir (codes "src/bpf")) (codes "Cargo.toml")) built dst
      × (dst ≡ object c out_dir)
main-includes c m out_dir built dst at no_slash name e =
    let d = build-Done m built dst (codes "src/bpf") (main-build c m e) in
    let same_dir : d.out_dir ≡ out_dir = some_injective (sym d.out_dir_var ∙ at) in
    let same_name : d.pkg_name ≡ crate_name c = some_injective (sym d.pkg_name_var ∙ name) in
    (d, d.dst_at ∙ ap₂ join same_dir same_name ∙ join-object c out_dir no_slash)

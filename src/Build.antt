-- ===== src/Build.antt =====
-- The build scripts, crates/tragach-slowquery/build.rs and its copies in the other three crates:
-- they build the BPF crate of the tracer with another toolchain and copy the object. Cargo's
-- environment, the file system and the running of commands are a `Machine`.
pub mod Succeeded
pub mod Objects
use Prim.Native.String.{String}
use tragach.Prelude.{
  Bool, true, false, Option, none, some, List, [], ◌∷◌, ◌++◌, Text, codes, eq_str, if◌then◌else◌,
}
use tragach.Startup.{join}

-- A command with its arguments, the variable CARGO_ENCODED_RUSTFLAGS that it is given and the
-- variables that are removed.
pub record Command : Type 0 where
  pub program : Text
  pub args : List Text
  pub rustflags : Text
  pub env_removed : List Text

-- `status` is none if the command cannot be run, and otherwise whether it succeeded.
pub record Machine : Type 0 where
  pub manifest_dir : Text
  pub exists : Text → Bool
  pub var : String → Option Text
  pub status : Command → Option Bool
  pub copy : (from to : Text) → Bool

pub data Outcome : Type 0 where
  copied : (built dst : Text) → Outcome
  unset : String → Outcome
  manifest_missing unsupported_endian not_run build_failed copy_failed : Outcome

-- `std::env::var(name)?`
abbrev pub with_var : String → Option Text → (Text → Outcome) → Outcome
with_var name none f = unset name
with_var name (some value) f = f value

unfoldable pub target_triple : Text → Option Text
target_triple endian =
    if eq_str endian (codes "little")
    then some (codes "bpfel-unknown-none")
    else if eq_str endian (codes "big")
    then some (codes "bpfeb-unknown-none")
    else none

-- The flags stand apart by the character 31.
abbrev pub rustflags : Text → Text
rustflags target_arch =
    codes "--cfg=bpf_target_arch=\""
    ++ (target_arch
        ++ (codes "\"" ++ (31 ∷ codes "-Cdebuginfo=2" ++ (31 ∷ codes "-Clink-arg=--btf"))))

abbrev pub cargo : (bpf_manifest target_arch triple target_dir : Text) → Command
cargo bpf_manifest target_arch triple target_dir = record {
  program = codes "rustup";
  args =
      codes "run"
      ∷ codes "nightly"
      ∷ codes "cargo"
      ∷ codes "build"
      ∷ codes "--manifest-path"
      ∷ bpf_manifest
      ∷ codes "-Z"
      ∷ codes "build-std=core"
      ∷ codes "--target"
      ∷ triple
      ∷ codes "--release"
      ∷ codes "--target-dir"
      ∷ target_dir
      ∷ [];
  rustflags = rustflags target_arch;
  env_removed = codes "RUSTC" ∷ codes "RUSTC_WORKSPACE_WRAPPER" ∷ [];
}

module _ (m : Machine) where
  abbrev pub copy_object : (triple out_dir target_dir pkg_name : Text) → Outcome
  copy_object triple out_dir target_dir pkg_name =
      let built = join (join (join target_dir triple) (codes "release")) pkg_name in
      let dst = join out_dir pkg_name in if m.copy built dst then copied built dst else copy_failed

  abbrev pub after_build : (triple out_dir target_dir : Text) → Option Bool → Outcome
  after_build triple out_dir target_dir none = not_run
  after_build triple out_dir target_dir (some false) = build_failed
  after_build triple out_dir target_dir (some true) =
      with_var "CARGO_PKG_NAME" (m.var "CARGO_PKG_NAME") (copy_object triple out_dir target_dir)

  abbrev pub build_for : (bpf_manifest target_arch : Text) → Option Text → Outcome
  build_for bpf_manifest target_arch none = unsupported_endian
  build_for bpf_manifest target_arch (some triple) = with_var "OUT_DIR" (m.var "OUT_DIR") λ out_dir.
      let target_dir = join out_dir (codes "bpf-target") in
      after_build triple out_dir target_dir
        (m.status (cargo bpf_manifest target_arch triple target_dir))

  unfoldable pub build_bpf_subcrate : (rel_dir : Text) → Outcome
  unfolding target_triple
  build_bpf_subcrate rel_dir =
      let bpf_manifest = join (join m.manifest_dir rel_dir) (codes "Cargo.toml") in
      let build = with_var "CARGO_CFG_TARGET_ARCH" (m.var "CARGO_CFG_TARGET_ARCH") λ target_arch.
        with_var "CARGO_CFG_TARGET_ENDIAN" (m.var "CARGO_CFG_TARGET_ENDIAN")
          λ endian. build_for bpf_manifest target_arch (target_triple endian) in
      if m.exists bpf_manifest then build else manifest_missing

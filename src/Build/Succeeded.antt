-- ===== src/Build/Succeeded.antt =====
-- What `build_bpf_subcrate` of the four build scripts has done when it copies an object, after
-- crates/tragach-slowquery/build.rs.
use Prim.Native.String.{String}
use tragach.Build.{
  Machine, Outcome, copied, manifest_missing, copy_failed, with_var, target_triple, cargo,
  copy_object, after_build, build_for, build_bpf_subcrate,
}
use tragach.Prelude.{
  ◌≡◌, refl, ap, sym, ◌∙◌, Bool, true, false, Option, none, some, Text, codes, if◌then◌else◌,
  Bool-cases, inl, inr,
}
use tragach.Startup.{join}

with_var-copied :
    (name : String) (o : Option Text) (f : Text → Outcome) (built dst : Text)
    → with_var name o f ≡ copied built dst
    → (value : Text) × (o ≡ some value) × (f value ≡ copied built dst)
with_var-copied name none f built dst e = absurd (cc)
with_var-copied name (some value) f built dst e = (value, refl, e)

-- What a build that ends well has done.
pub record Done (m : Machine) (bpf_manifest built dst : Text) : Type 0 where
  pub arch : Text
  pub triple : Text
  pub endian : Text
  pub out_dir : Text
  pub pkg_name : Text
  pub exists : m.exists bpf_manifest ≡ true
  pub endian_var : m.var "CARGO_CFG_TARGET_ENDIAN" ≡ some endian
  pub arch_var : m.var "CARGO_CFG_TARGET_ARCH" ≡ some arch
  pub triple_of : target_triple endian ≡ some triple
  pub out_dir_var : m.var "OUT_DIR" ≡ some out_dir
  pub pkg_name_var : m.var "CARGO_PKG_NAME" ≡ some pkg_name
  pub compiled :
      m.status (cargo bpf_manifest arch triple (join out_dir (codes "bpf-target"))) ≡ some true
  pub built_at :
      built
      ≡ join (join (join (join out_dir (codes "bpf-target")) triple) (codes "release")) pkg_name
  pub dst_at : dst ≡ join out_dir pkg_name
  pub moved : m.copy built dst ≡ true

if-copied :
    (b : Bool) (x y : Outcome) (built dst : Text)
    → (if b then x else y) ≡ copied built dst
    → ¬ (y ≡ copied built dst)
    → (b ≡ true) × (x ≡ copied built dst)
if-copied true x y built dst e ne = (refl, e)
if-copied false x y built dst e ne = absurd (ne e)

module _ (m : Machine) (built dst : Text) where
  after_build-copied :
      (triple out_dir target_dir : Text) (o : Option Bool)
      → after_build m triple out_dir target_dir o ≡ copied built dst
      → (o ≡ some true)
        × (with_var "CARGO_PKG_NAME"
              (m.var "CARGO_PKG_NAME")
              (copy_object m triple out_dir target_dir)
            ≡ copied built dst)
  after_build-copied triple out_dir target_dir none e = absurd (cc)
  after_build-copied triple out_dir target_dir (some false) e = absurd (cc)
  after_build-copied triple out_dir target_dir (some true) e = (refl, e)

  build_for-copied :
      (bpf_manifest arch : Text) (o : Option Text)
      → build_for m bpf_manifest arch o ≡ copied built dst
      → (triple : Text) × (o ≡ some triple)
        × (build_for m bpf_manifest arch (some triple) ≡ copied built dst)
  build_for-copied bpf_manifest arch none e = absurd (cc)
  build_for-copied bpf_manifest arch (some triple) e = (triple, refl, e)

  abbrev for_endian : (bpf_manifest arch endian : Text) → Outcome
  for_endian bpf_manifest arch endian = build_for m bpf_manifest arch (target_triple endian)

  abbrev for_arch : (bpf_manifest arch : Text) → Outcome
  for_arch bpf_manifest arch =
      with_var "CARGO_CFG_TARGET_ENDIAN" (m.var "CARGO_CFG_TARGET_ENDIAN")
        (for_endian bpf_manifest arch)

  abbrev in_out_dir : (bpf_manifest arch triple out_dir : Text) → Outcome
  in_out_dir bpf_manifest arch triple out_dir =
      let target_dir = join out_dir (codes "bpf-target") in
      after_build m triple out_dir target_dir (m.status (cargo bpf_manifest arch triple target_dir))

  copy-copied :
      (from to : Text)
      → (if m.copy from to then copied from to else copy_failed) ≡ copied built dst
      → (m.copy built dst ≡ true) × (built ≡ from) × (dst ≡ to)
  copy-copied from to e = elim (Bool-cases (m.copy from to)) [
    | inl h ↦
        let same : copied from to ≡ copied built dst =
          sym (ap (λ b. if b then copied from to else copy_failed) h) ∙ e in
        let source : built ≡ from = cc in
        let target : dst ≡ to = cc in (rw (source, target) h, source, target)
    | inr h ↦
        let same : copy_failed ≡ copied built dst =
          sym (ap (λ b. if b then copied from to else copy_failed) h) ∙ e in
        absurd (cc)
  ]

  pub build-Done :
      (rel_dir : Text)
      → build_bpf_subcrate m rel_dir ≡ copied built dst
      → Done m (join (join m.manifest_dir rel_dir) (codes "Cargo.toml")) built dst
  unfolding build_bpf_subcrate
  build-Done rel_dir e =
      let bpf_manifest = join (join m.manifest_dir rel_dir) (codes "Cargo.toml") in
      let (exists, e1) =
        if-copied (m.exists bpf_manifest)
          (with_var "CARGO_CFG_TARGET_ARCH" (m.var "CARGO_CFG_TARGET_ARCH") (for_arch bpf_manifest))
          manifest_missing built dst e (λ h. cc) in
      let (arch, arch_var, e2) =
        with_var-copied "CARGO_CFG_TARGET_ARCH" (m.var "CARGO_CFG_TARGET_ARCH")
          (for_arch bpf_manifest) built dst e1 in
      let (endian, endian_var, e3) =
        with_var-copied "CARGO_CFG_TARGET_ENDIAN" (m.var "CARGO_CFG_TARGET_ENDIAN")
          (for_endian bpf_manifest arch) built dst e2 in
      let (triple, triple_of, e4) = build_for-copied bpf_manifest arch (target_triple endian) e3 in
      let (out_dir, out_dir_var, e5) =
        with_var-copied "OUT_DIR" (m.var "OUT_DIR") (in_out_dir bpf_manifest arch triple) built dst
          e4 in
      let target_dir = join out_dir (codes "bpf-target") in
      let (compiled, e6) =
        after_build-copied triple out_dir target_dir
          (m.status (cargo bpf_manifest arch triple target_dir)) e5 in
      let (pkg_name, pkg_name_var, e7) =
        with_var-copied "CARGO_PKG_NAME" (m.var "CARGO_PKG_NAME")
          (copy_object m triple out_dir target_dir) built dst e6 in
      let (moved, built_at, dst_at) =
        copy-copied (join (join (join target_dir triple) (codes "release")) pkg_name)
          (join out_dir pkg_name) e7 in
      record {
        arch = arch;
        triple = triple;
        endian = endian;
        out_dir = out_dir;
        pkg_name = pkg_name;
        exists = exists;
        endian_var = endian_var;
        arch_var = arch_var;
        triple_of = triple_of;
        out_dir_var = out_dir_var;
        pkg_name_var = pkg_name_var;
        compiled = compiled;
        built_at = built_at;
        dst_at = dst_at;
        moved = moved;
      }

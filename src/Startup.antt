-- ===== src/Startup.antt =====
-- How the tracers start, the part of `main` that crates/tragach-slowquery/src/main.rs,
-- crates/tragach-attach/src/main.rs, crates/tragach-pageio/src/main.rs and
-- crates/tragach-iowait/src/main.rs share. The answers of the file system, of pgrep, of the kernel and
-- of aya are a `Host`; what the start has done to the kernel is a list of effects.
pub mod Attaching
pub mod Outcomes
pub mod Tracers
pub mod Order
pub mod Runs
pub mod Willing
pub mod Gives
pub mod Pid
use Prim.Native.String.{String}
use tragach.Prelude.{
  ℕ, ◌^◌, Bool, true, false, Option, none, some, List, [], ◌∷◌, ◌++◌, Text, codes, first_word,
  from_str_radix, ◌==◌, if◌then◌else◌,
}
use tragach.Symbols.{Symbol}

pub data Attachment : Type 0 where
  uprobe : (offset : ℕ) (target : Text) → Attachment
  tracepoint : (category name : String) → Attachment

pub data Effect : Type 0 where
  target_set : ℕ → Effect
  attached : String → Attachment → Effect

pub data Failure : Type 0 where
  engine_missing debug_missing unresolved rlimit object_invalid target_failed : Failure
  no_pgrep no_server not_utf8 no_pid bad_pid no_kallsyms : Failure
  program_missing program_kind load_failed attach_failed map_missing map_kind : String → Failure

-- `exists` is `Path::exists`, `symbols` the reading and the parsing of an ELF file. `pgrep` is whether
-- the command ran, whether it succeeded, and its output as UTF-8. `load_object` is `Ebpf::load`,
-- `has_program` and `is_program` are `program_mut` and the conversion to the program's kind,
-- `has_map` and `is_map` the same of a map.
pub record Host : Type 0 where
  pub exists : Text → Bool
  pub symbols : Text → Option (List Symbol)
  pub pgrep : Option (Bool × Option Text)
  pub setrlimit : Bool
  pub load_object : Bool
  pub has_program : String → Bool
  pub is_program : String → Bool
  pub load_program : String → Bool
  pub attach : String → Attachment → Bool
  pub has_map : String → Bool
  pub is_map : String → Bool
  pub set_target : ℕ → Bool
  pub kallsyms : Option Text

pub data Outcome (A : Type 0) : Type 0 where
  ok : A → Outcome A
  failed : Failure → Outcome A

abbrev pub Start : Type 0 → Type 0
Start A = List Effect → Outcome A × List Effect

abbrev pub bind_start :
    {A B : Type 0} → Outcome A × List Effect → (A → Start B) → Outcome B × List Effect
bind_start (ok a, log) f = f a log
bind_start (failed e, log) f = (failed e, log)

infixl 5 ◌>>=◌ ◌>>◌
unfoldable pub ◌>>=◌ : {A B : Type 0} → Start A → (A → Start B) → Start B
◌>>=◌ m f log = bind_start (m log) f

unfoldable pub ◌>>◌ : {B : Type 0} → Start (Unit {0}) → Start B → Start B
unfolding ◌>>=◌
m >> k = m >>= λ _. k

unfoldable pub done : {A : Type 0} → A → Start A
done a log = (ok a, log)

unfoldable pub require : Bool → Failure → Start (Unit {0})
require b e log = (if b then ok tt else failed e, log)

unfoldable pub the : {A : Type 0} → Option A → Failure → Start A
the none e log = (failed e, log)
the (some a) e log = (ok a, log)

unfoldable pub effect : Effect → Start (Unit {0})
effect e log = (ok tt, log ++ e ∷ [])

-- `if let Err(e) = .. { warn!(..) }`
unfoldable pub ignore : {A : Type 0} → Start A → Start (Unit {0})
ignore m log = (ok tt, (m log).1)

abbrev pub ends_with_slash : Text → Bool
ends_with_slash [] = true
ends_with_slash (c ∷ []) = c == 47
ends_with_slash (c ∷ t) = ends_with_slash t

abbrev pub is_absolute : Text → Bool
is_absolute [] = false
is_absolute (c ∷ t) = c == 47

-- `Path::join`: an absolute path replaces the other.
abbrev pub join : Text → Text → Text
join path rest =
    if is_absolute rest
    then rest
    else if ends_with_slash path
    then path ++ rest
    else path ++ 47 ∷ rest

abbrev pub libengine : Text → Text
libengine prefix = join prefix (codes "plugins/libEngine13.so")

abbrev pub debug_file : Text → Option Text → Text
debug_file prefix none = join prefix (codes "plugins/.debug/libEngine13.so.debug")
debug_file prefix (some path) = path

-- The first word that pgrep prints, as a u32.
abbrev pub parse_pid : Text → Option ℕ
parse_pid word = from_str_radix 10 (2 ^ 32) word

module _ (host : Host) where
  unfoldable pub ensure_paths : (libengine debug : Text) → Start (Unit {0})
  ensure_paths lib debug = do
    require (host.exists lib) engine_missing
    require (host.exists debug) debug_missing

  unfoldable pub raise_rlimit_memlock : Start (Unit {0})
  raise_rlimit_memlock = require host.setrlimit rlimit

  unfoldable pub resolve_firebird_pid : Start ℕ
  resolve_firebird_pid = do
    (success, text) ← the host.pgrep no_pgrep
    require success no_server
    out ← the text not_utf8
    word ← the (first_word out) no_pid
    the (parse_pid word) bad_pid

  -- `args.pid`, or the server's.
  unfoldable pub target_pid : Option ℕ → Start ℕ
  target_pid (some pid) = done pid
  target_pid none = resolve_firebird_pid

  unfoldable pub set_target : ℕ → Start (Unit {0})
  set_target pid = do
    require (host.has_map "TARGET_TGID") (map_missing "TARGET_TGID")
    require (host.is_map "TARGET_TGID") (map_kind "TARGET_TGID")
    require (host.set_target pid) target_failed
    effect (target_set pid)

  -- `program_mut`, the conversion, `load` and `attach` of one program.
  unfoldable pub attach_program : String → Attachment → Start (Unit {0})
  attach_program name a = do
    require (host.has_program name) (program_missing name)
    require (host.is_program name) (program_kind name)
    require (host.load_program name) (load_failed name)
    require (host.attach name a) (attach_failed name)
    effect (attached name a)

  -- `take_map` and the conversion.
  unfoldable pub take_map : String → Start (Unit {0})
  take_map name = do
    require (host.has_map name) (map_missing name)
    require (host.is_map name) (map_kind name)

-- ===== src/Agent/Jailer.antt =====
-- crates/bigtop-agent/src/jailer.rs: the command line of the jailer, and the host's path of a jailed
-- file.
use bigtop.Common.{ℕ, Bool, Option, none, some, List, [], ◌∷◌, ◌++◌, String, if◌then◌else◌, eqb}
use Prim.Native.Char.{code}
use bigtop.Common.Decimal.{show}
use bigtop.Common.Text.{path_join}

abbrev pub jailed_api_sock : String
jailed_api_sock = "/fc.sock"

abbrev pub jailed_log_path : String
jailed_log_path = "/firecracker.log"

pub record JailerOptions : Type 0 where
  pub bin : String
  pub uid : ℕ
  pub gid : ℕ
  pub chroot_base_dir : String
  pub netns : Option String
  pub daemonize : Bool

pub record JailerConfig : Type 0 where
  pub bin : String
  pub id : String
  pub uid : ℕ
  pub gid : ℕ
  pub chroot_base_dir : String
  pub netns : Option String
  pub daemonize : Bool
  pub exec_file : String

unfoldable pub new : String → JailerOptions → String → JailerConfig
new id opts exec_file = record {
  bin = opts.bin;
  id = id;
  uid = opts.uid;
  gid = opts.gid;
  chroot_base_dir = opts.chroot_base_dir;
  netns = opts.netns;
  daemonize = opts.daemonize;
  exec_file = exec_file;
}

abbrev netns_args : Option String → List String
netns_args none = []
netns_args (some netns) = "--netns" ∷ netns ∷ []

unfoldable pub argv : JailerConfig → List String → List String
unfolding show
argv self fc_args =
    (self.bin
      ∷ "--id"
      ∷ self.id
      ∷ "--uid"
      ∷ show self.uid
      ∷ "--gid"
      ∷ show self.gid
      ∷ "--chroot-base-dir"
      ∷ self.chroot_base_dir
      ∷ [])
    ++ netns_args self.netns
    ++ (if self.daemonize then "--daemonize" ∷ [] else [])
    ++ ("--exec-file" ∷ self.exec_file ∷ "--" ∷ [])
    ++ fc_args

-- `jailed.strip_prefix("/")`, or the path itself.
unfoldable pub relative : String → String
relative String.[] = ""
relative (String.◌∷◌ c s) = if eqb (code c) b'/' then s else String.◌∷◌ c s

unfoldable pub host_path : JailerConfig → String → String
unfolding relative path_join
host_path self jailed =
    path_join (path_join (path_join self.chroot_base_dir self.id) "root") (relative jailed)

-- ===== src/Tests/Syncing.antt =====
-- pkg/tuned/controller.go: changeSyncer at concrete inputs.
use cluster_node_tuning_oper.Base.{
  list_dec, nat_eq, list_eq, string_eq, bool_eq, ◌≡◌, refl, true, false, List, [], ◌∷◌, none, some,
  utf8, ◌==◌,
}
use cluster_node_tuning_oper.Base.Dict.{lookup, NodupKeys}
use cluster_node_tuning_oper.Operator.Types.{TunedProfile}
use cluster_node_tuning_oper.Daemon.Builtin.{Bytes}
use cluster_node_tuning_oper.Daemon.Includes.{conf}
use cluster_node_tuning_oper.Daemon.Status.{has_bit}
use cluster_node_tuning_oper.Daemon.Control.{System, sent, process, sigterm, start}
use cluster_node_tuning_oper.Daemon.Extract.{Files}
use cluster_node_tuning_oper.Daemon.Extract.Provider.{Output}
use cluster_node_tuning_oper.Daemon.Extract.Written.{Succeeds, defined, IsClear}
use cluster_node_tuning_oper.Daemon.Syncer.{reapply_is, Change, Node, Env, change_syncer}
use cluster_node_tuning_oper.Daemon.Syncer.Steps.{Fine, Works, recommendation}
use cluster_node_tuning_oper.Daemon.Syncer.Converges.{change_syncer-InStep}
use cluster_node_tuning_oper.Daemon.Syncer.Quiet.{later, change_syncer-settles}

abbrev output : Output
output = record { readable = true; create = true; write = λ text. (text, true) }

output-Works : Works output
output-Works = record { readable = refl; creates = refl; writes = λ _. refl }

abbrev files : Files
files = record {
  make_dir = λ _. true;
  create = λ _. true;
  write = λ _ text. (text, true);
  read_dir = true;
  remove_all = λ _. true;
}

files-Succeeds : Succeeds files
files-Succeeds = record {
  makes = λ _. refl;
  creates = λ _. refl;
  writes = λ _ _. refl;
  reads = refl;
  removes = λ _. refl;
}

abbrev obedient : System
obedient = record { hup = sent; term = sent; kill = sent; exits_in_time = true }

abbrev listed : List TunedProfile
listed = record { name = some "hw"; contents = some "x" } ∷ []

abbrev env : Env
env = record {
  system = obedient;
  provider = output;
  recommend_dir = true;
  recommend = output;
  files = files;
  depends = λ _ _. [];
  profiles = some listed;
  reports = true;
  saves = true;
  must_bool = λ text. text == utf8 "1";
}

env-Fine : Fine env
unfolding utf8 nat_eq list_eq
env-Fine = record {
  obeys = record { hups = λ e. cc; terms = λ e. cc; kills = λ e. cc };
  provider = output-Works;
  recommend_dir = refl;
  recommend = output-Works;
  files = files-Succeeds;
  reports = refl;
  saves = refl;
  reads_one = refl;
  reads_zero = refl;
}

-- The debug mode and the profile hw are asked for.
abbrev change : Change
change = record {
  profile = true;
  profile_status = true;
  debug = true;
  provider = b'a' ∷ [];
  reapply_sysctl = false;
  recommended_profile = b'h' ∷ b'w' ∷ [];
}

abbrev old_name : Bytes
old_name = b'v' ∷ b'm' ∷ []

abbrev node : Node
node = record {
  control = record {
    daemon = record {
      restart = 0;
      status = 1;
      stderr = [];
      stopping = false;
      recommended_profile = old_name;
    };
    command = process;
    trace = [];
  };
  provider_file = none;
  recommend_file = some (recommendation old_name);
  custom = (old_name, conf []) ∷ [];
  reapply = some (b'1' ∷ []);
  main_file = some (b'1' ∷ []);
}

node-NodupKeys : NodupKeys node.custom
unfolding lookup
node-NodupKeys = (refl, tt)

node-IsClear : IsClear (defined listed) node.custom
unfolding lookup nat_eq list_eq utf8
node-IsClear = (λ e. cc, tt)

change_syncer-settles_example :
    let m = later 1 [] process (change_syncer env change node).0 in
    ((change_syncer env change m).0.control ≡ m.control)
    × ((change_syncer env change m).1 ≡ true)
    × ((change_syncer env change m).2 ≡ false)
unfolding has_bit nat_eq
change_syncer-settles_example =
    change_syncer-settles env env change listed node 1 [] process env-Fine env-Fine refl refl refl
      refl refl (λ e. cc) refl node-NodupKeys node-IsClear (tt, tt) refl

-- The debug mode and the option are others, so the daemon is stopped and started in the debug mode.
restarts : (change_syncer env change node).0.control.trace ≡ sigterm ∷ start true ∷ []
unfolding has_bit nat_eq bool_eq reapply_is utf8 list_eq list_dec
restarts =
    (change_syncer-InStep env change listed node env-Fine refl refl refl (λ e. cc) refl refl
      node-NodupKeys node-IsClear).2.trace

-- ===== src/Barco/CommandLine.antt =====
-- The command line of src/barco.c: the table that `main` hands to `arg_parse` (its parts 1 and 2),
-- and what `main` reads of the result. -v only sets the level of the log library, whose lines on
-- standard error are not modelled; its count is read all the same.
pub mod Laws
use docker.Base.{ℕ, ℤ, Bool, Bytes, List, [], ◌∷◌, Option, none, some, codes, ltb, if◌then◌else◌}
use docker.Sys.{M}
use docker.Barco.Defs.{Args}
use docker.Barco.Main.{main}

abbrev pub argtable_arg_max : ℕ
argtable_arg_max = 20

-- The global pointers, each to an entry of the table.
pub data Global : Type 0 where
  help version uid mnt cmd arg vrb veth_name veth_peer container_ip host_ip nat dns : Global

-- struct arg_lit, struct arg_int and struct arg_str
pub data ArgKind : Type 0 where
  arg_lit arg_int arg_str : ArgKind

-- An entry as `arg_litn`, `arg_intn` or `arg_strn` makes it, and the pointer that it is stored in.
-- `none` is NULL; a literal has no data type.
pub record ArgEntry : Type 0 where
  pub global : Global
  pub kind : ArgKind
  pub shortopts : Option Bytes
  pub longopts : Bytes
  pub datatype : Option Bytes
  pub mincount : ℕ
  pub maxcount : ℕ
  pub glossary : Bytes

abbrev arg_litn : Global → Option Bytes → Bytes → ℕ → ℕ → Bytes → ArgEntry
arg_litn global shortopts longopts mincount maxcount glossary = record {
  global = global;
  kind = ArgKind.arg_lit;
  shortopts = shortopts;
  longopts = longopts;
  datatype = none;
  mincount = mincount;
  maxcount = maxcount;
  glossary = glossary;
}

abbrev arg_valued : ArgKind → Global → Option Bytes → Bytes → Bytes → ℕ → ℕ → Bytes → ArgEntry
arg_valued kind global shortopts longopts datatype mincount maxcount glossary = record {
  global = global;
  kind = kind;
  shortopts = shortopts;
  longopts = longopts;
  datatype = some datatype;
  mincount = mincount;
  maxcount = maxcount;
  glossary = glossary;
}

abbrev arg_strn : Global → Option Bytes → Bytes → Bytes → ℕ → ℕ → Bytes → ArgEntry
arg_strn = arg_valued ArgKind.arg_str

-- The table without its last entry, `arg_end`, which takes the errors.
unfoldable pub argtable : List ArgEntry
argtable =
    arg_litn Global.help none (codes "help") 0 1 (codes "display help and exit")
    ∷ arg_litn Global.version none (codes "version") 0 1 (codes "display version and exit")
    ∷ arg_valued ArgKind.arg_int Global.uid (some (codes "u")) (codes "uid") (codes "<n>") 1 1
        (codes "UID/GID inside container")
    ∷ arg_strn Global.mnt (some (codes "m")) (codes "mnt") (codes "<path>") 1 1
        (codes "rootfs directory")
    ∷ arg_strn Global.cmd (some (codes "c")) (codes "cmd") (codes "<cmd>") 1 1
        (codes "command to execute")
    ∷ arg_strn Global.arg (some (codes "a")) (codes "arg") (codes "<arg>") 0 1
        (codes "argument for command")
    ∷ arg_litn Global.vrb (some (codes "v")) (codes "verbosity") 0 1 (codes "verbose output")
    ∷ arg_strn Global.veth_name none (codes "veth") (codes "<name>") 0 1
        (codes "veth name inside container (e.g., eth0)")
    ∷ arg_strn Global.veth_peer none (codes "veth-peer") (codes "<name>") 0 1
        (codes "veth peer name on host (auto-generated if omitted)")
    ∷ arg_strn Global.container_ip none (codes "container-ip") (codes "<ip/cidr>") 0 1
        (codes "IP address for container (e.g., 10.0.0.2/24)")
    ∷ arg_strn Global.host_ip none (codes "host-ip") (codes "<ip/cidr>") 0 1
        (codes "IP address for host veth (e.g., 10.0.0.1/24)")
    ∷ arg_litn Global.nat none (codes "nat") 0 1
        (codes "enable NAT/masquerade for container internet access")
    ∷ arg_strn Global.dns none (codes "dns") (codes "<ip>") 0 1
        (codes "DNS server for container (default: 8.8.8.8)")
    ∷ []

-- What `arg_parse` returns, and the entries' memory behind it: how often an option was given, and
-- the arrays of its values, of which only so many are written.
pub record ParsedArgs : Type 0 where
  pub errors : ℕ
  pub count : Global → ℕ
  pub ival : Global → ℕ → ℤ
  pub sval : Global → ℕ → Bytes

-- `arg_parse` with the table, the size of `arg_end` and the arguments.
abbrev pub ArgParse : Type 0
ArgParse = List ArgEntry → ℕ → List Bytes → ParsedArgs

abbrev pub is_given : ParsedArgs → Global → Bool
is_given p g = ltb 0 (p.count g)

-- `g->count ? g->sval[0] : NULL`
abbrev pub given : ParsedArgs → Global → Option Bytes
given p g = if is_given p g then some (p.sval g 0) else none

-- What `main` reads of the entries.
unfoldable pub read_args : ParsedArgs → Args
read_args p = record {
  errors = p.errors;
  help = is_given p Global.help;
  uid = p.ival Global.uid 0;
  mnt = p.sval Global.mnt 0;
  cmd = p.sval Global.cmd 0;
  arg = given p Global.arg;
  veth_name = given p Global.veth_name;
  veth_peer = given p Global.veth_peer;
  container_ip = given p Global.container_ip;
  host_ip = given p Global.host_ip;
  verbose = is_given p Global.vrb;
  nat = is_given p Global.nat;
  dns = given p Global.dns;
}

-- The whole command.
unfoldable pub barco : ArgParse → ℕ → List Bytes → M (Option ℤ)
barco arg_parse rounds argv = main rounds (read_args (arg_parse argtable argtable_arg_max argv))

-- ===== src/Tests/CommandLineRuns.antt =====
-- The theorems about the command line with a concrete `arg_parse`.
use docker.Base.{
  ℕ, ◌+◌, ◌∷◌, ◌≡◌, refl, true, ◌&&◌, Bytes, List, [], pos, codes, leb, some, arith, atoi, eq_bytes,
  if◌then◌else◌,
}
use docker.Sys.{Call, Block, made}
use docker.Barco.CommandLine.{
  Global, ArgEntry, ArgParse, argtable, argtable_arg_max, read_args, barco,
}
use docker.Barco.CommandLine.Laws.{
  within_counts, ChecksCounts, Agrees, barco-Agrees, barco_without_needed,
}
use docker.Tests.Kernels.{generous}
use docker.Tests.MainRuns.{plain}

-- The spelling that the parser below knows.
abbrev flag : Global → Bytes
flag Global.help = codes "--help"
flag Global.version = codes "--version"
flag Global.uid = codes "-u"
flag Global.mnt = codes "-m"
flag Global.cmd = codes "-c"
flag Global.arg = codes "-a"
flag Global.vrb = codes "-v"
flag Global.veth_name = codes "--veth"
flag Global.veth_peer = codes "--veth-peer"
flag Global.container_ip = codes "--container-ip"
flag Global.host_ip = codes "--host-ip"
flag Global.nat = codes "--nat"
flag Global.dns = codes "--dns"

abbrev occurrences : Bytes → List Bytes → ℕ
occurrences word [] = 0
occurrences word (a ∷ rest) = (if eq_bytes word a then 1 else 0) + occurrences word rest

-- The word behind the first occurrence.
abbrev value_of : Bytes → List Bytes → Bytes
value_of word [] = []
value_of word (a ∷ []) = []
value_of word (a ∷ b ∷ rest) = if eq_bytes word a then b else value_of word (b ∷ rest)

abbrev violations : List ArgEntry → List Bytes → ℕ
violations [] argv = 0
violations (e ∷ es) argv =
    let n = occurrences (flag e.global) argv in
    (if leb e.mincount n && leb n e.maxcount then 0 else 1) + violations es argv

abbrev simple_parse : ArgParse
simple_parse table max argv = record {
  errors = violations table argv;
  count = λ g. occurrences (flag g) argv;
  ival = λ g i. atoi (value_of (flag g) argv);
  sval = λ g i. value_of (flag g) argv;
}

within :
    (table : List ArgEntry) (argv : List Bytes)
    → violations table argv ≡ 0
    → within_counts table (λ g. occurrences (flag g) argv) ≡ true
within [] argv h = refl
within (e ∷ es) argv h = ground (arith, within es argv)

simple_parse-ChecksCounts : ChecksCounts simple_parse
simple_parse-ChecksCounts table max argv h = within table argv h

abbrev command_line : List Bytes
command_line =
    codes "-u" ∷ codes "0" ∷ codes "-m" ∷ codes "/srv/root" ∷ codes "-c" ∷ codes "/bin/sh" ∷ []

read_plain : read_args (simple_parse argtable argtable_arg_max command_line) ≡ plain
unfolding read_args argtable atoi
read_plain = refl

abbrev versioned_line : List Bytes
versioned_line =
    codes "-u"
    ∷ codes "0"
    ∷ codes "-m"
    ∷ codes "/srv/root"
    ∷ codes "-c"
    ∷ codes "/bin/sh"
    ∷ codes "--version"
    ∷ []

versioned-Agrees :
    Agrees
      (simple_parse argtable argtable_arg_max command_line)
      (simple_parse argtable argtable_arg_max versioned_line)
unfolding argtable
versioned-Agrees = record {
  errors = refl;
  counts = λ g e. ground arith;
  ints = λ g i lt. ground arith;
  texts = λ g i lt. ground arith;
}

barco-Agrees_example :
    barco simple_parse 1 command_line generous [] ≡ barco simple_parse 1 versioned_line generous []
barco-Agrees_example =
    barco-Agrees simple_parse 1 command_line versioned_line generous [] simple_parse-ChecksCounts
      versioned-Agrees

-- `barco --help`
barco_without_needed_example : barco simple_parse 1 (codes "--help" ∷ []) generous [] ≡ (
  some (pos 1),
  made
      (Call.calloc Block.config
        ∷ Call.free Block.veth_peer
        ∷ Call.free Block.veth_tmp
        ∷ Call.free Block.config
        ∷ Call.arg_freetable
        ∷ [])
      [],
)
barco_without_needed_example =
    barco_without_needed simple_parse 1 (codes "--help" ∷ []) Global.uid generous []
      simple_parse-ChecksCounts refl refl refl

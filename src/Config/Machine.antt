-- ===== src/Config/Machine.antt =====
-- What a node takes from its machine: `CmdLineConfig` from the environment, `findMyself` from the address
-- of the host, and `MemoryConfig` from the device. `getenv`, `stoi`, `open` and `mmap` are the system's:
-- their results are arguments, and `stoi` throws where it gives `none`.
use undergraduate_project.Shared.{
  ℕ, ◌%◌, ◌^◌, ◌+◌, ◌-◌, ◌==◌, ltb, if◌then◌else◌, Bool, false, ◌&&◌, not, Option, none, some,
  ◌>>=◌, ℤ, pos, negsuc, Text, text_eq, bytes, is_negative, suc,
}
use undergraduate_project.Config.Load.{NodeType, NodeConfig, ClusterConfig, find_conf_by_ip_str}

pub record CmdLineConfig : Type 0 where
  pub cluster_config_file : Text
  pub pmem_device_name : Text
  pub tcp_port : ℤ
  pub udp_port : ℤ
  pub pmem_size : ℕ
  pub recover : Bool
  pub count : ℤ
  pub size : ℤ
  pub threads : ℤ

abbrev pub Environment : Type 0
Environment = Text → Option Text

unfoldable pub text_or : Environment → Text → Text → Text
text_or env key default = elim (env key) [ none ↦ default | some v ↦ v ]

unfoldable pub number_or : (Text → Option ℤ) → Environment → Text → ℤ → Option ℤ
number_or stoi env key default = elim (env key) [ none ↦ some default | some v ↦ stoi v ]

-- An `int` as a `uint64_t`.
abbrev pub to_uint64 : ℤ → ℕ
to_uint64 (pos n) = n % 2 ^ 64
to_uint64 (negsuc n) = 2 ^ 64 - suc n % 2 ^ 64

abbrev pub at_most_16 : ℤ → ℤ
at_most_16 (pos n) = if ltb 16 n then pos 16 else pos n
at_most_16 (negsuc n) = negsuc n

unfoldable pub cmd_line_config : (Text → Option ℤ) → Environment → Option CmdLineConfig
unfolding text_or number_or
cmd_line_config stoi env = number_or stoi env (bytes "PMEMSZ") (pos 33554432) >>= λ pmem_size.
    number_or stoi env (bytes "PORT") (pos 40346) >>= λ tcp_port.
    number_or stoi env (bytes "NN") (pos 100) >>= λ count.
    number_or stoi env (bytes "SZ") (pos 4096) >>= λ size.
    number_or stoi env (bytes "TH") (pos 1) >>= λ threads. some (record {
      cluster_config_file = text_or env (bytes "CLUSTERCONF") (bytes "cluster.conf");
      pmem_device_name = text_or env (bytes "PMEMDEV") (bytes "/dev/dax1.0");
      tcp_port = tcp_port;
      udp_port = pos 31850;
      pmem_size = to_uint64 pmem_size;
      recover = elim (env (bytes "RECOVER")) [
        | none ↦ false
        | some v ↦ not (text_eq v (bytes "OFF")) && not (text_eq v (bytes "NO"))
      ];
      count = count;
      size = size;
      threads = at_most_16 threads;
    })

-- `ip` is the first address of the host's name.
unfoldable pub find_myself : ClusterConfig → NodeType → Text → NodeConfig
unfolding find_conf_by_ip_str
find_myself c junk ip = find_conf_by_ip_str c junk ip

pub record MemoryConfig : Type 0 where
  pub base : ℕ
  pub capacity : ℕ
  pub fd : ℤ

-- `none` is `exit(-1)`. The flag `pmemOccupied` is taken by one exchange, which may fail spuriously; `fd`
-- and `base` are what `open` and `mmap` give.
unfoldable pub memory_config : Bool → Bool → CmdLineConfig → ℤ → ℕ → Option MemoryConfig
memory_config occupied spurious conf fd base =
    if not (not occupied && not spurious)
    then none
    else if is_negative fd
    then none
    else if (base + 1) % 2 ^ 64 == 0
    then none
    else some (record { base = base; capacity = conf.pmem_size; fd = fd })

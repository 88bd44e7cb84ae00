-- ===== src/Examples/Erpc.antt =====
-- Tests of include/network/netif.hpp and src/network/netif.cpp.
use undergraduate_project.Shared.{
  ◌==◌, if◌then◌else◌, ℕ, ◌+◌, ◌≤◌, ◌≡◌, ◌⊎◌, ltb, refl, [], ◌∷◌, false, none, some, pos, arith,
  bytes, replicate,
}
use undergraduate_project.Bitmap.Alloc.{Round}
use undergraduate_project.Config.Load.{ClusterConfig, NodeConfig, node_dms, node_client}
use undergraduate_project.Netif.Sessions.{erpc_test, Sessions, connect_loop}
use undergraduate_project.Client.Mount.{Servers, IsIn, parse_config, mounted_client_reaches_servers}
use undergraduate_project.Netif.Calls.{Netif, rpc_call, returned}
use undergraduate_project.Netif.Responses.{
  call_returns_its_response, BuffersKept, refused_calls_leak,
}
use undergraduate_project.Netif.Memory.{
  Bytes, MemRequest, place, mem_size, mem_read_handler, mem_write_handler, mem_read_after_write,
}

abbrev no_sessions : Sessions
no_sessions = record { sessions = λ n. 99; sess2id = λ n. none }

abbrev directory_node : NodeConfig
directory_node = record {
  id = pos 0;
  hostname = bytes "a";
  ip_addr_str = bytes "a";
  ib_dev_ip_addr_str = bytes "a";
  type = node_dms;
}

abbrev client_node : NodeConfig
client_node = record directory_node { id = pos 1; type = node_client }

abbrev connected : Sessions
connected =
    elim (connect_loop false (pos 1) (λ i. i + 4) 0 (directory_node ∷ client_node ∷ [])
      no_sessions) [ none ↦ no_sessions | some t ↦ t ]

abbrev netif : Netif
netif = record {
  sessions = λ n. 4;
  word = 2;
  completed = λ n. false;
  resp_buf = λ n. [];
  buffers = 0;
  queued = [];
}

-- The slot 1 is free; the word after the call is that of before.
call_returns_its_response_example :
    (t : Netif) × (rpc_call netif 0 erpc_test
        (bytes "ping")
        4
        ((record { loaded = 2; current = 2; spurious = false }) ∷ [])
        (((0, bytes "other") ∷ []) ∷ ((1, bytes "pong and more") ∷ []) ∷ [])
        ((record { loaded = 0; current = 0; spurious = false }) ∷ [])
      ≡ returned t (bytes "pong"))
    × (t.word ≡ 2)
    × (t.buffers ≡ 0)
    × (t.queued ≡ (record { session = 4; type = erpc_test; payload = bytes "ping"; tag = 1 }) ∷ [])
unfolding undergraduate_project.Bitmap.Alloc.alloc_bit undergraduate_project.Bitmap.Alloc.exchanges
    undergraduate_project.Bitmap.Words.ffs undergraduate_project.Bitmap.Alloc.claimed
    undergraduate_project.Bitmap.Words.negate undergraduate_project.Bitmap.Words.complement
    undergraduate_project.Bitmap.Alloc.free_bit
call_returns_its_response_example =
    call_returns_its_response netif 0 erpc_test (bytes "ping") 4
      ((record { loaded = 2; current = 2; spurious = false }) ∷ [])
      ((record { loaded = 0; current = 0; spurious = false }) ∷ []) 1 0 2
      (((0, bytes "other") ∷ []) ∷ []) [] [] (bytes "pong and more") [] refl refl
      ((omega arith, tt), tt) tt

refused_calls_leak_example :
    BuffersKept
      (record netif { word = 0 })
      (rpc_call (record netif { word = 0 }) 0 erpc_test (bytes "ping") 4 [] [] [])
refused_calls_leak_example =
    refused_calls_leak (record netif { word = 0 }) 0 erpc_test (bytes "ping") 4 [] [] []

abbrev blank_memory : Bytes
blank_memory a = 0

abbrev ones : MemRequest
ones = record { addr = 64; bytes = replicate 2048 1 }

mem_read_after_write_example :
    (◌≡◌ {A = ℕ} 64 64
      → mem_read_handler 4096 (mem_write_handler 4096 blank_memory ones).0 (record { value = 64 })
        ≡ replicate 2048 1)
    × ((place 4096 64 + mem_size ≤ place 4096 64) ⊎ (place 4096 64 + mem_size ≤ place 4096 64)
        → mem_read_handler 4096 (mem_write_handler 4096 blank_memory ones).0 (record { value = 64 })
          ≡ mem_read_handler 4096 blank_memory (record { value = 64 }))
mem_read_after_write_example =
    mem_read_after_write 4096 blank_memory ones (record { value = 64 }) refl

abbrev small_config : ClusterConfig
small_config = record {
  node_conf = λ j. if j == 0 then directory_node else client_node;
  node_ids = λ j. ltb j 2;
  ip2id = λ k. none;
  host2id = λ k. none;
  node_count = 2;
}

abbrev no_servers : Servers
no_servers = record { directory_trans = pos 7; file_trans = []; data_trans = [] }

mounted_client_reaches_servers_example :
    ((parse_config small_config no_servers).directory_trans ≡ pos 0
      → ((parse_config small_config no_servers).directory_trans ≡ pos 7)
        ⊎ (connected.sess2id (connected.sessions 0) ≡ some 0))
    × (IsIn (pos 0) (parse_config small_config no_servers).file_trans
        → connected.sess2id (connected.sessions 0) ≡ some 0)
unfolding connect_loop
mounted_client_reaches_servers_example =
    mounted_client_reaches_servers small_config no_servers false 1 (λ i. i + 4) no_sessions
      {t = connected} 0 refl (λ j k e. omega (arith, e)) refl refl

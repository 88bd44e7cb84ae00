-- ===== src/Rpc/Message.antt =====
-- include/network/message.hpp and `ReqBuf`. Of the union in a message only the member that calls use is
-- modelled; the constructors of `RpcType` are the kinds of call.
use undergraduate_project.Shared.{ℕ, ℤ, Text, Bool, true, false}
use undergraduate_project.Rdma.Completions.{Wc}

pub data RpcType : Type 0 where
  undef open_file access create csize remove stat mkdir rmdir opendir readdir test : RpcType

pub record RpcMessage : Type 0 where
  pub type : RpcType
  pub result : ℤ
  pub mode : ℕ
  pub raw : Text

pub data MessageType : Type 0 where
  undef remote_mr recover_start recover_response recover_end : MessageType
  rpc_call rpc_response sync_request sync_response invalid : MessageType

pub record Message : Type 0 where
  pub type : MessageType
  pub rpc : RpcMessage

pub record ReqBuf : Type 0 where
  pub wc : Wc
  pub msg : Message

-- The tests of `rdmaListen` and `rpcCall`.
abbrev pub is_call : MessageType → Bool
is_call rpc_call = true
is_call _ = false

abbrev pub is_response : MessageType → Bool
is_response rpc_response = true
is_response _ = false

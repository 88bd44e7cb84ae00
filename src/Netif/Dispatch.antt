-- ===== src/Netif/Dispatch.antt =====
-- Which handler answers which call: the tables of src/fs/DMServer.cpp and src/fs/FMServer.cpp, what each
-- handler reads and writes, and the calls of src/fs/LocofsClient.cpp.
use undergraduate_project.Shared.{
  ℕ, ◌==◌, if◌then◌else◌, Option, none, some, List, [], ◌∷◌, ◌≡◌, refl,
}
use undergraduate_project.Netif.Sessions.{
  ErpcType, erpc_connect, erpc_disconnect, erpc_test, erpc_memread, erpc_memwrite, erpc_open,
  erpc_access, erpc_create, erpc_csize, erpc_read, erpc_write, erpc_remove, erpc_filestat,
  erpc_dirstat, erpc_mkdir, erpc_rmdir, erpc_readdir,
}

-- `static_cast<int>(type)`.
unfoldable pub code : ErpcType → ℕ
code erpc_connect = 10
code erpc_disconnect = 11
code erpc_test = 12
code erpc_memread = 13
code erpc_memwrite = 14
code erpc_open = 15
code erpc_access = 16
code erpc_create = 17
code erpc_csize = 18
code erpc_read = 19
code erpc_write = 20
code erpc_remove = 21
code erpc_filestat = 22
code erpc_dirstat = 23
code erpc_mkdir = 24
code erpc_rmdir = 25
code erpc_readdir = 26

-- The structs of a call.
pub data Struct : Type 0 where
  pure_value value_with_path stat_data inode_data raw_data mem_data : Struct

pub data Handler : Type 0 where
  dm_test dm_access dm_stat dm_mkdir dm_rmdir dm_readdir : Handler
  fm_test fm_access fm_csize fm_stat fm_create fm_remove fm_open fm_readdir : Handler
  mem_read mem_write : Handler

-- What a handler takes the request for; the tests do not look at it.
unfoldable pub interprets : Handler → Option Struct
interprets dm_test = none
interprets fm_test = none
interprets fm_readdir = some pure_value
interprets mem_read = some pure_value
interprets mem_write = some mem_data
interprets _ = some value_with_path

-- What it allocates for its response.
unfoldable pub allocates : Handler → Struct
allocates dm_stat = stat_data
allocates fm_stat = stat_data
allocates dm_readdir = raw_data
allocates fm_readdir = raw_data
allocates fm_open = inode_data
allocates mem_read = mem_data
allocates _ = pure_value

abbrev pub Table : Type 0
Table = List (ℕ × Handler)

unfoldable pub entry : ErpcType → Handler → ℕ × Handler
unfolding code
entry type handler = (code type, handler)

-- `reqFuncs` of the directory server and of the file server.
unfoldable pub dm_functions : Table
unfolding entry
dm_functions =
    entry erpc_test dm_test
    ∷ entry erpc_access dm_access
    ∷ entry erpc_dirstat dm_stat
    ∷ entry erpc_mkdir dm_mkdir
    ∷ entry erpc_rmdir dm_rmdir
    ∷ entry erpc_readdir dm_readdir
    ∷ []

unfoldable pub fm_functions : Table
unfolding entry
fm_functions =
    entry erpc_test fm_test
    ∷ entry erpc_access fm_access
    ∷ entry erpc_csize fm_csize
    ∷ entry erpc_filestat fm_stat
    ∷ entry erpc_create fm_create
    ∷ entry erpc_remove fm_remove
    ∷ entry erpc_open fm_open
    ∷ entry erpc_readdir fm_readdir
    ∷ []

-- The constructor of `NetworkInterface` adds the handlers for the memory.
unfoldable pub with_memory : Table → Table
unfolding entry
with_memory own = entry erpc_memread mem_read ∷ entry erpc_memwrite mem_write ∷ own

-- The library calls the handler that was registered for the type of a request.
abbrev pub handler_of : Table → ℕ → Option Handler
handler_of [] n = none
handler_of (e ∷ table) n = if e.0 == n then some e.1 else handler_of table n

pub data Server : Type 0 where
  directory_server file_server : Server

unfoldable pub table_of : Server → Table
unfolding with_memory dm_functions fm_functions
table_of directory_server = with_memory dm_functions
table_of file_server = with_memory fm_functions

-- A call: to which server, of which type, and the structs that the client passes.
pub record Call : Type 0 where
  pub server : Server
  pub type : ErpcType
  pub request : Struct
  pub response : Struct

pub data Operation : Type 0 where
  op_write op_read op_mkdir op_open op_rmdir op_unlink op_stat op_statdir op_readdir op_create :
      Operation

abbrev to_directory : ErpcType → Struct → Call
to_directory type response = record {
  server = directory_server;
  type = type;
  request = value_with_path;
  response = response;
}

abbrev to_file : ErpcType → Struct → Call
to_file type response = record {
  server = file_server;
  type = type;
  request = value_with_path;
  response = response;
}

-- `_get_uuid`, `_get_file_stat`.
abbrev pub uuid_call : Call
uuid_call = to_directory erpc_dirstat stat_data

abbrev pub stat_call : Call
stat_call = to_file erpc_filestat stat_data

-- The calls that an operation of the client can make, in their order.
unfoldable pub calls_of : Operation → List Call
calls_of op_write = uuid_call ∷ stat_call ∷ uuid_call ∷ to_file erpc_csize pure_value ∷ []
calls_of op_read = uuid_call ∷ stat_call ∷ []
calls_of op_mkdir = to_directory erpc_mkdir pure_value ∷ []
calls_of op_open = uuid_call ∷ to_file erpc_access pure_value ∷ to_file erpc_create pure_value ∷ []
calls_of op_rmdir = to_directory erpc_rmdir pure_value ∷ []
calls_of op_unlink = uuid_call ∷ to_file erpc_remove pure_value ∷ []
calls_of op_stat = uuid_call ∷ to_file erpc_filestat stat_data ∷ []
calls_of op_statdir = to_directory erpc_dirstat stat_data ∷ []
calls_of op_readdir =
    to_directory erpc_readdir raw_data
    ∷ uuid_call
    ∷ record {
      server = file_server;
      type = erpc_readdir;
      request = pure_value;
      response = raw_data;
    }
    ∷ []
calls_of op_create = uuid_call ∷ to_file erpc_create pure_value ∷ []

-- A call is answered by a handler that takes and gives what the client passes.
abbrev pub IsTyped : Call → Type 0
IsTyped c =
    (h : Handler) × (handler_of (table_of c.server) (code c.type) ≡ some h)
    × (interprets h ≡ some c.request)
    × (allocates h ≡ c.response)

abbrev pub AllTyped : List Call → Type 0
AllTyped [] = Unit
AllTyped (c ∷ calls) = IsTyped c × AllTyped calls

-- Every call of every operation finds a handler at its server, which interprets the request as the
-- struct that the client sent and allocates the struct that the client copies from the response.
pub calls-AllTyped : (op : Operation) → AllTyped (calls_of op)
unfolding calls_of table_of code interprets allocates
calls-AllTyped op_write = (
  (_, refl, refl, refl),
  ((_, refl, refl, refl), ((_, refl, refl, refl), ((_, refl, refl, refl), tt))),
)
calls-AllTyped op_read = ((_, refl, refl, refl), ((_, refl, refl, refl), tt))
calls-AllTyped op_mkdir = ((_, refl, refl, refl), tt)
calls-AllTyped op_open =
    ((_, refl, refl, refl), ((_, refl, refl, refl), ((_, refl, refl, refl), tt)))
calls-AllTyped op_rmdir = ((_, refl, refl, refl), tt)
calls-AllTyped op_unlink = ((_, refl, refl, refl), ((_, refl, refl, refl), tt))
calls-AllTyped op_stat = ((_, refl, refl, refl), ((_, refl, refl, refl), tt))
calls-AllTyped op_statdir = ((_, refl, refl, refl), tt)
calls-AllTyped op_readdir =
    ((_, refl, refl, refl), ((_, refl, refl, refl), ((_, refl, refl, refl), tt)))
calls-AllTyped op_create = ((_, refl, refl, refl), ((_, refl, refl, refl), tt))

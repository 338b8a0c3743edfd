-- ===== src/Logging.antt =====
-- include/logging.h and the format of src/logging.cc: the attributes that all lines of the log share.
use cs130capstoneproject.Base.{[], ◌++◌}
use cs130capstoneproject.Base.Bytes.{Bytes, codes}

pub record Attributes : Type 0 where
  pub client_ip : Bytes
  pub req_path : Bytes
  pub res_code : Bytes

-- The global attributes that the logger is set up with.
abbrev pub initial : Attributes
initial = record { client_ip = []; req_path = []; res_code = [] }

-- `setIp`, `setPath` and `setStatus`
unfoldable pub set_ip : Bytes → Attributes → Attributes
set_ip ip a = record a { client_ip = codes "[IP: " ++ (ip ++ codes "]") }

unfoldable pub set_path : Bytes → Attributes → Attributes
set_path path a = record a { req_path = codes "[Request_Path: " ++ (path ++ codes "]") }

unfoldable pub set_status : Bytes → Attributes → Attributes
set_status status a = record a { res_code = codes "[Response_Code: " ++ (status ++ codes "]") }

-- `reset` and `resetIp`
unfoldable pub reset : Attributes → Attributes
reset a = record a { req_path = []; res_code = [] }

unfoldable pub reset_ip : Attributes → Attributes
reset_ip a = record a { client_ip = [] }

-- `logFmt`, with the number of the line and the severity as texts
unfoldable pub format_line : Bytes → Bytes → Bytes → Attributes → Bytes
format_line line severity message a =
    (codes "[" ++ (line ++ codes "][ResponseMetrics]"))
    ++ ((a.client_ip ++ (a.req_path ++ a.res_code))
        ++ (codes "[" ++ (severity ++ (codes "] " ++ message))))

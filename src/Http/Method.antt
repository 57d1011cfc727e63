-- ===== src/Http/Method.antt =====
-- The methods of src/c_http.c.
pub mod Names
use c_http.Base.{Bool, Option, none, some, if◌then◌else◌, Bytes, codes, str_eq}

pub data HttpMethod : Type 0 where
  get post put patch delete head options connect trace : HttpMethod

unfoldable pub method_name : HttpMethod → Bytes
method_name get = codes "GET"
method_name post = codes "POST"
method_name put = codes "PUT"
method_name patch = codes "PATCH"
method_name delete = codes "DELETE"
method_name head = codes "HEAD"
method_name options = codes "OPTIONS"
method_name connect = codes "CONNECT"
method_name trace = codes "TRACE"

-- `none` is the -1.
unfoldable pub string_to_http_method : Bytes → Option HttpMethod
string_to_http_method method =
    if str_eq method (codes "GET")
    then some get
    else if str_eq method (codes "POST")
    then some post
    else if str_eq method (codes "PUT")
    then some put
    else if str_eq method (codes "PATCH")
    then some patch
    else if str_eq method (codes "DELETE")
    then some delete
    else if str_eq method (codes "HEAD")
    then some head
    else if str_eq method (codes "OPTIONS")
    then some options
    else if str_eq method (codes "CONNECT")
    then some connect
    else if str_eq method (codes "TRACE")
    then some trace
    else none

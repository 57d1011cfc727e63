-- ===== src/Http/Response/Wire.antt =====
-- A response as a client reads it.
use c_http.Base.{[]}
use c_http.Http.Headers.{HttpHeaders}

abbrev pub no_headers : HttpHeaders
no_headers = record { items = []; capacity = 0 }

-- ===== src/Http/Status.antt =====
-- `Response::StatusCode` of include/response.h. A code is its number: a proxied response may carry
-- one outside the enumeration.
use cs130capstoneproject.Base.{ℕ}

abbrev pub StatusCode : Type 0
StatusCode = ℕ

abbrev pub ok : StatusCode
ok = 200

abbrev pub created : StatusCode
created = 201

abbrev pub accepted : StatusCode
accepted = 202

abbrev pub no_content : StatusCode
no_content = 204

abbrev pub moved_permanently : StatusCode
moved_permanently = 301

abbrev pub moved_temporarily : StatusCode
moved_temporarily = 302

abbrev pub not_modified : StatusCode
not_modified = 304

abbrev pub bad_request : StatusCode
bad_request = 400

abbrev pub unauthorized : StatusCode
unauthorized = 401

abbrev pub forbidden : StatusCode
forbidden = 403

abbrev pub not_found : StatusCode
not_found = 404

abbrev pub internal_server_error : StatusCode
internal_server_error = 500

abbrev pub not_implemented : StatusCode
not_implemented = 501

abbrev pub bad_gateway : StatusCode
bad_gateway = 502

abbrev pub service_unavailable : StatusCode
service_unavailable = 503

abbrev pub gateway_timeout : StatusCode
gateway_timeout = 504

-- ===== src/Headers/Names.antt =====
-- The names of the headers that the handlers read and write, in Go's canonical form.
use nedomi.Prelude.{List, [], ◌∷◌, ◌++◌}
use nedomi.Ranges.Strings.{Text}

-- `Content-Length`
abbrev pub content_length_name : Text
content_length_name =
    67 ∷ 111 ∷ 110 ∷ 116 ∷ 101 ∷ 110 ∷ 116 ∷ 45 ∷ 76 ∷ 101 ∷ 110 ∷ 103 ∷ 116 ∷ 104 ∷ []

-- `Content-Range`
abbrev pub content_range_name : Text
content_range_name = 67 ∷ 111 ∷ 110 ∷ 116 ∷ 101 ∷ 110 ∷ 116 ∷ 45 ∷ 82 ∷ 97 ∷ 110 ∷ 103 ∷ 101 ∷ []

-- `Expires`
abbrev pub expires_name : Text
expires_name = 69 ∷ 120 ∷ 112 ∷ 105 ∷ 114 ∷ 101 ∷ 115 ∷ []

-- `Age`
abbrev pub age_name : Text
age_name = 65 ∷ 103 ∷ 101 ∷ []

-- `Cache-Control`
abbrev pub cache_control_name : Text
cache_control_name = 67 ∷ 97 ∷ 99 ∷ 104 ∷ 101 ∷ 45 ∷ 67 ∷ 111 ∷ 110 ∷ 116 ∷ 114 ∷ 111 ∷ 108 ∷ []

-- `Date`
abbrev pub date_name : Text
date_name = 68 ∷ 97 ∷ 116 ∷ 101 ∷ []

-- `Content-Encoding`
abbrev pub content_encoding_name : Text
content_encoding_name =
    67 ∷ 111 ∷ 110 ∷ 116 ∷ 101 ∷ 110 ∷ 116 ∷ 45 ∷ 69 ∷ 110 ∷ 99 ∷ 111 ∷ 100 ∷ 105 ∷ 110 ∷ 103 ∷ []

-- `Content-Type`
abbrev pub content_type_name : Text
content_type_name = 67 ∷ 111 ∷ 110 ∷ 116 ∷ 101 ∷ 110 ∷ 116 ∷ 45 ∷ 84 ∷ 121 ∷ 112 ∷ 101 ∷ []

-- `Connection`
abbrev pub connection_name : Text
connection_name = 67 ∷ 111 ∷ 110 ∷ 110 ∷ 101 ∷ 99 ∷ 116 ∷ 105 ∷ 111 ∷ 110 ∷ []

-- `Keep-Alive`
abbrev pub keep_alive_name : Text
keep_alive_name = 75 ∷ 101 ∷ 101 ∷ 112 ∷ 45 ∷ 65 ∷ 108 ∷ 105 ∷ 118 ∷ 101 ∷ []

-- `Proxy-Authenticate`
abbrev pub proxy_authenticate_name : Text
proxy_authenticate_name =
    80 ∷ 114 ∷ 111 ∷ 120 ∷ 121 ∷ 45 ∷ 65 ∷ 117 ∷ 116 ∷ 104 ∷ 101 ∷ 110 ∷ 116 ∷ 105 ∷ 99 ∷ 97 ∷ 116
    ∷ 101 ∷ []

-- `Proxy-Authorization`
abbrev pub proxy_authorization_name : Text
proxy_authorization_name =
    80 ∷ 114 ∷ 111 ∷ 120 ∷ 121 ∷ 45 ∷ 65 ∷ 117 ∷ 116 ∷ 104 ∷ 111 ∷ 114 ∷ 105 ∷ 122 ∷ 97 ∷ 116 ∷ 105
    ∷ 111 ∷ 110 ∷ []

-- `Te`
abbrev pub te_name : Text
te_name = 84 ∷ 101 ∷ []

-- `Trailers`
abbrev pub trailers_name : Text
trailers_name = 84 ∷ 114 ∷ 97 ∷ 105 ∷ 108 ∷ 101 ∷ 114 ∷ 115 ∷ []

-- `Transfer-Encoding`
abbrev pub transfer_encoding_name : Text
transfer_encoding_name =
    84 ∷ 114 ∷ 97 ∷ 110 ∷ 115 ∷ 102 ∷ 101 ∷ 114 ∷ 45 ∷ 69 ∷ 110 ∷ 99 ∷ 111 ∷ 100 ∷ 105 ∷ 110 ∷ 103
    ∷ []

-- `Upgrade`
abbrev pub upgrade_name : Text
upgrade_name = 85 ∷ 112 ∷ 103 ∷ 114 ∷ 97 ∷ 100 ∷ 101 ∷ []

-- GetHopByHopHeaders, utils/httputils/headers.go
abbrev pub get_hop_by_hop_headers : List Text
get_hop_by_hop_headers =
    connection_name ∷ keep_alive_name ∷ proxy_authenticate_name ∷ proxy_authorization_name ∷ te_name
    ∷ trailers_name ∷ transfer_encoding_name ∷ upgrade_name ∷ []

-- metadataHeadersToFilter, handler/cache/handler_helpers.go
abbrev pub metadata_headers_to_filter : List Text
metadata_headers_to_filter =
    get_hop_by_hop_headers
    ++ content_length_name ∷ content_range_name ∷ expires_name ∷ age_name ∷ cache_control_name ∷ []

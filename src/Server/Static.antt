-- ===== src/Server/Static.antt =====
-- handleStaticFiles and handleCLIDownload of internal/server/api.go. `read_file` is ReadFile of the
-- embedded files, `none` for an error.
use ib.Prelude.{Str, Bytes, codes, ◌++◌, Option, none, some, str_eq, has_suffix, if◌then◌else◌}
use ib.Server.Api.{Response, failed, static_data}

unfoldable pub content_type : Str → Str
unfolding has_suffix
content_type path =
    if has_suffix path (codes ".js")
    then codes "application/javascript"
    else if has_suffix path (codes ".css")
    then codes "text/css"
    else if has_suffix path (codes ".json")
    then codes "application/json"
    else codes "text/html"

unfoldable pub handle_static_files : (Str → Option Bytes) → Str → Response
unfolding str_eq content_type
handle_static_files read_file url_path =
    let path : Str = if str_eq url_path (codes "/") then codes "/index.html" else url_path in
    elim (read_file (codes "frontend/dist" ++ path)) [
      | some content ↦ static_data (content_type path) content
      | none ↦ elim (read_file (codes "frontend/dist/index.html")) [
        | some content ↦ static_data (content_type path) content
        | none ↦ failed 404 (codes "not found")
      ]
    ]

unfoldable pub handle_cli_download : (Str → Option Bytes) → Str → Str → Response
unfolding str_eq
handle_cli_download read_file os_name arch =
    let stem : Str = codes "ib-" ++ (os_name ++ (codes "-" ++ arch)) in
    let filename : Str = if str_eq os_name (codes "windows") then stem ++ codes ".exe" else stem in
    elim (read_file (codes "dist/clients/" ++ filename)) [
      | none ↦ failed 404 (codes "binary not found for " ++ (os_name ++ (codes "/" ++ arch)))
      | some content ↦ static_data (codes "application/octet-stream") content
    ]

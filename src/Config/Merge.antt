-- ===== src/Config/Merge.antt =====
-- MergeWithFileConfig of pkg/config/file.go. The fields do not depend on one another, so the
-- statements that assign them one by one are one record update. LogLevel is read and ignored.
use single_proxy.Base.{Str, codes, [], not, ◌&&◌, ◌==◌, if◌then◌else◌, str_key}
use single_proxy.Base.Int.{is_zero}
use single_proxy.Config.Types.{
  Config, FileConfig, ServerConfig, ClientConfig, server_mode, client_mode,
}

unfoldable pub merge_server : Config → ServerConfig → Config
merge_server c s = record c {
  listen_port =
      if c.listen_port == codes "443" && not (s.listen_port == [])
      then s.listen_port
      else c.listen_port;
  cert_file = if c.cert_file == [] && not (s.cert_file == []) then s.cert_file else c.cert_file;
  key_file = if c.key_file == [] && not (s.key_file == []) then s.key_file else c.key_file;
  ip_rate_limit =
      if is_zero c.ip_rate_limit && not (is_zero s.ip_rate_limit)
      then s.ip_rate_limit
      else c.ip_rate_limit;
  key_rate_limit =
      if is_zero c.key_rate_limit && not (is_zero s.key_rate_limit)
      then s.key_rate_limit
      else c.key_rate_limit;
}

unfoldable pub merge_client : Config → ClientConfig → Config
merge_client c f = record c {
  server_addr =
      if c.server_addr == [] && not (f.server_addr == []) then f.server_addr else c.server_addr;
  target_addr =
      if c.target_addr == [] && not (f.target_addr == []) then f.target_addr else c.target_addr;
  key = if c.key == codes "default" && not (f.key == []) then f.key else c.key;
  insecure = if not c.insecure && f.insecure then f.insecure else c.insecure;
}

unfoldable pub merge_with_file_config : Config → FileConfig → Str → Config
unfolding merge_server merge_client
merge_with_file_config c file mode =
    if mode == server_mode
    then merge_server c file.server
    else if mode == client_mode
    then merge_client c file.client
    else c

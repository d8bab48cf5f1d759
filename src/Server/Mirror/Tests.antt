-- ===== src/Server/Mirror/Tests.antt =====
-- Mirror fetches on concrete input.
use blossom_rs.Prelude.{
  ◌≡◌, refl, true, false, ◌==◌, nat_key, list_key, none, some, [], ◌∷◌, Text, bytes_of,
  if◌then◌else◌, arith,
}
use blossom_rs.Server.Mirror.{
  v4, v6, is_blocked_mirror_ip, Network, Response, body, failed, blocked_network, fetch_mirror_blob,
}
use blossom_rs.Server.Mirror.Fetch.{FetchSafe, fetch_mirror_blob-safe}

-- 10.1.2.3, alone and in an IPv6 address, and 8.8.8.8.
private_v4 : is_blocked_mirror_ip (v4 10 1 2 3) ≡ true
unfolding is_blocked_mirror_ip
private_v4 = refl

mapped_v6 : is_blocked_mirror_ip (v6 0 0 0 0 0 65535 2561 515) ≡ true
unfolding is_blocked_mirror_ip
mapped_v6 = refl

loopback : is_blocked_mirror_ip (v6 0 0 0 0 0 0 0 1) ≡ true
unfolding is_blocked_mirror_ip
loopback = refl

public_v4 : is_blocked_mirror_ip (v4 8 8 8 8) ≡ false
unfolding is_blocked_mirror_ip
public_v4 = refl

-- "a" redirects to "b"; "c" is at a private address.
abbrev response : Text → Response
response url = record {
  is_redirection = url == bytes_of "a";
  location = some (bytes_of "b");
  is_success = true;
  content_length = none;
  chunks = some (bytes_of "xy") ∷ some (bytes_of "z") ∷ [];
}

abbrev net : Network
net = record {
  Url = Text;
  parse = λ s. some s;
  scheme = λ u. bytes_of "https";
  username = λ u. [];
  password = λ u. none;
  host_str = λ u. some u;
  port_or_known_default = λ u. some 443;
  join = λ u l. some l;
  lookup_host = λ host port.
      if host == bytes_of "c" then some (v4 8 8 8 8 ∷ v4 10 0 0 1 ∷ []) else some (v4 8 8 8 8 ∷ []);
  send = λ u ip. some (response u);
}

redirected_once :
    fetch_mirror_blob net (bytes_of "a") 3 ≡ (v4 8 8 8 8 ∷ v4 8 8 8 8 ∷ [], body (bytes_of "xyz"))
unfolding fetch_mirror_blob is_blocked_mirror_ip
redirected_once = refl

private_refused : fetch_mirror_blob net (bytes_of "c") 3 ≡ ([], failed blocked_network)
unfolding fetch_mirror_blob is_blocked_mirror_ip
private_refused = refl

fetch_mirror_blob-safe_example : FetchSafe net 4 3 (fetch_mirror_blob net (bytes_of "a") 3)
fetch_mirror_blob-safe_example = fetch_mirror_blob-safe net (bytes_of "a") 3 (omega arith)

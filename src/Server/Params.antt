-- ===== src/Server/Params.antt =====
-- src/server/src/sockspp/server/server_params.hpp, and the methods of server.cxx that read the
-- parameters alone: `get_auth_method` and `authenticate`.
use sockspp.Base.{ℕ, Bool, true, false, ◌&&◌, List, [], ◌∷◌, bytes_eq, if◌then◌else◌}
use sockspp.Core.Enums.{AuthMethod, same_method, auth_method_byte}

pub record ServerParams : Type 0 where
  pub listen_ip : List ℕ
  pub listen_port : ℕ
  pub username : List ℕ
  pub password : List ℕ
  pub dns_ip : List ℕ
  pub dns_port : ℕ
  pub client_tcp_nodelay : Bool
  pub client_tcp_keepalive : Bool
  pub remote_tcp_nodelay : Bool
  pub remote_tcp_keepalive : Bool

abbrev pub empty {ℓ} : {A : Type ℓ} → List A → Bool
empty [] = true
empty (x ∷ xs) = false

unfoldable pub get_auth_method : ServerParams → AuthMethod
get_auth_method p =
    if empty p.username && empty p.password then AuthMethod.no_auth else AuthMethod.user_pass

unfoldable pub authenticate : ServerParams → List ℕ → List ℕ → Bool
unfolding get_auth_method same_method auth_method_byte
authenticate p username password =
    if same_method (get_auth_method p) AuthMethod.no_auth
    then true
    else bytes_eq p.username username && bytes_eq p.password password

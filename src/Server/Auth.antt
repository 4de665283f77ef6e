-- ===== src/Server/Auth.antt =====
-- Who the server lets in: `authenticate` of src/server/src/sockspp/server/server.cxx.
use sockspp.Base.{
  ◌≡◌, ◌↔◌, ◌⊎◌, inl, inr, refl, arith, true, Bool-cases, ℕ, List, [], ◌∷◌, ◌&&◌, ◌||◌, bytes_eq,
  eq_of_bytes_eq, bytes_eq_refl,
}
use sockspp.Core.Enums.{same_method, auth_method_byte}
use sockspp.Server.Params.{empty, ServerParams, get_auth_method, authenticate}

empty_iff : (l : List ℕ) → (empty l ≡ true) ↔ (l ≡ [])
empty_iff [] = (λ h. refl, λ h. refl)
empty_iff (x ∷ l) = (λ h. cc, λ h. cc)

accepted :
    (p : ServerParams) (username password : List ℕ)
    → authenticate p username password ≡ (
        (empty p.username && empty p.password)
        || (bytes_eq p.username username && bytes_eq p.password password))
unfolding authenticate get_auth_method same_method auth_method_byte
accepted p username password = ground arith

-- A pair of a user name and a password is accepted exactly if the server asks for none, which is
-- when its own are both empty, or if both are the server's own.
pub authenticate_iff :
    (p : ServerParams) (username password : List ℕ)
    → (authenticate p username password ≡ true) ↔ (
        ((p.username ≡ []) × (p.password ≡ []))
        ⊎ ((p.username ≡ username) × (p.password ≡ password)))
authenticate_iff p username password = (
  λ h. elim (Bool-cases (empty p.username && empty p.password)) [
    | inl e ↦ inl ((empty_iff p.username).0 (ground arith), (empty_iff p.password).0 (ground arith))
    | inr e ↦
        let both : bytes_eq p.username username && bytes_eq p.password password ≡ true =
          ground (arith, accepted p username password) in
        inr (
          eq_of_bytes_eq p.username username (ground arith),
          eq_of_bytes_eq p.password password (ground arith),
        )
  ],
  λ h. elim h [
    | inl (u, q) ↦ ground (
      arith,
      accepted p username password,
      (empty_iff p.username).1 u,
      (empty_iff p.password).1 q,
    )
    | inr (u, q) ↦
        let user : bytes_eq p.username username ≡ true = rw u (bytes_eq_refl username) in
        let pass : bytes_eq p.password password ≡ true = rw q (bytes_eq_refl password) in
        ground (arith, accepted p username password)
  ],
)

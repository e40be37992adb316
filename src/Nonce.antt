-- ===== src/Nonce.antt =====
-- managers/nonce.py: `NonceManager`. An OrderedDict that is only used as an ordered set is the list
-- of its keys, the oldest first.
pub mod Window
pub mod Fresh
use sip_protocol.Prelude.{
  ℕ, List, [], ◌∷◌, ◌++◌, Bool, true, false, not, ◌||◌, Option, none, some, length, drop, ltb,
  if◌then◌else◌, list_eq,
}

pub record NonceManager : Type 0 where
  pub used_nonces : List (List ℕ)

abbrev pub empty : NonceManager
empty = record { used_nonces = [] }

abbrev pub capacity : ℕ
capacity = 1000

-- `nonce in self.used_nonces`
unfoldable pub contains : List ℕ → List (List ℕ) → Bool
contains n [] = false
contains n (m ∷ ms) = list_eq n m || contains n ms

-- `check_and_add`
unfoldable pub check_and_add : NonceManager → List ℕ → NonceManager × Bool
check_and_add manager n =
    if contains n manager.used_nonces
    then (manager, false)
    else let used = manager.used_nonces ++ (n ∷ []) in
      if ltb capacity (length used)
      then (record { used_nonces = drop 1 used }, true)
      else (record { used_nonces = used }, true)

-- `validate_nonce`
unfoldable pub validate_nonce : NonceManager → List ℕ → Bool
validate_nonce manager n = not (contains n manager.used_nonces)

-- `generate_nonce` over the draws of `os.urandom`: the first that is not used is stored and
-- returned; `none` if the draws end before one is found.
unfoldable pub generate_nonce : NonceManager → List (List ℕ) → Option (List ℕ × NonceManager)
generate_nonce manager [] = none
generate_nonce manager (draw ∷ draws) =
    let rest = generate_nonce manager draws in
    if contains draw manager.used_nonces
    then rest
    else some (draw, record { used_nonces = manager.used_nonces ++ (draw ∷ []) })

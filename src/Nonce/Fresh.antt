-- ===== src/Nonce/Fresh.antt =====
-- `generate_nonce` against `check_and_add`.
use sip_protocol.Prelude.{ℕ, ◌≡◌, List, [], ◌∷◌, ◌++◌, true, false, some, arith, list_eq_refl}
use sip_protocol.Nonce.{NonceManager, contains, check_and_add, generate_nonce}

contains-last : (n : List ℕ) (used : List (List ℕ)) → contains n (used ++ (n ∷ [])) ≡ true
unfolding contains
contains-last n [] = rw (list_eq_refl n)
contains-last n (m ∷ used) = ground (arith, contains-last n used)

generated :
    (manager next : NonceManager) (draws : List (List ℕ)) (n : List ℕ)
    → generate_nonce manager draws ≡ some (n, next)
    → (contains n manager.used_nonces ≡ false)
      × (next.used_nonces ≡ manager.used_nonces ++ (n ∷ []))
unfolding generate_nonce
generated manager next [] n h = absurd (cc)
generated manager next (draw ∷ draws) n h = ground (arith, generated manager next draws n)

-- A generated nonce was not used before, so that a check would have accepted it; the next check
-- refuses it; and the manager holds every nonce that it held before, in the same order, and then that
-- nonce: `generate_nonce` never evicts one, however many there are.
pub generate_nonce-fresh :
    (manager next : NonceManager) (draws : List (List ℕ)) (n : List ℕ)
    → generate_nonce manager draws ≡ some (n, next)
    → ((check_and_add manager n).1 ≡ true)
      × (check_and_add next n ≡ (next, false))
      × (next.used_nonces ≡ manager.used_nonces ++ (n ∷ []))
unfolding check_and_add
generate_nonce-fresh manager next draws n h =
    let (unused, grown) = generated manager next draws n h in
    let seen : contains n next.used_nonces ≡ true =
      rw grown (contains-last n manager.used_nonces) in
    (ground (arith, unused), rw seen, grown)

-- ===== src/Nonce/Window.antt =====
-- `check_and_add` against the history of what it accepted.
use mathlib.Core.Path.{subst}
use mathlib.Core.List.{append_assoc, append-nil}
use sip_protocol.Prelude.{
  ℕ, suc, ◌+◌, ◌-◌, ◌<◌, ◌≤◌, ◌≡◌, refl, ap, sym, ◌∙◌, List, [], ◌∷◌, ◌++◌, true, false, arith,
  length, drop, ltb, if◌then◌else◌, Bool-cases, inl, inr, length-append, length-drop, list_eq_refl,
  drop-add, drop-append_le, lt→ltb, ltb→lt, ltb-false,
}
use sip_protocol.Nonce.{NonceManager, empty, capacity, contains, check_and_add, validate_nonce}

-- `xs[-k:]`
pub last_of {ℓ} : {A : Type ℓ} → ℕ → List A → List A
last_of k xs = drop (length xs - k) xs

-- The nonces that a run accepts, in order, and the manager that it leaves.
unfoldable pub run : NonceManager → List (List ℕ) → NonceManager × List (List ℕ)
run manager [] = (manager, [])
run manager (n ∷ ns) =
    let (next, accepted) = check_and_add manager n in
    let (end, rest) = run next ns in (end, if accepted then n ∷ rest else rest)

length-last_of : (k : ℕ) (xs : List (List ℕ)) → k ≤ length xs → length (last_of k xs) ≡ k
unfolding last_of
length-last_of k xs h = omega (arith, length-drop (length xs - k) xs)

last_of_short : (k : ℕ) (xs : List (List ℕ)) → length xs ≤ k → last_of k xs ≡ xs
unfolding last_of
last_of_short k xs h = ap (λ t. drop t xs) (let e : length xs - k ≡ 0 = omega arith in e)

-- The window moves by one where it is full.
last_of-snoc :
    (k : ℕ) (xs : List (List ℕ)) (x : List ℕ)
    → k ≤ length xs
    → drop 1 (last_of k xs ++ (x ∷ [])) ≡ last_of k (xs ++ (x ∷ []))
unfolding last_of
last_of-snoc k xs x h =
    let d = length xs - k in
    let e : length (xs ++ (x ∷ [])) - k ≡ d + 1 = omega (arith, length-append xs (x ∷ [])) in
    ap (drop 1) (sym (drop-append_le d xs (x ∷ []) (omega arith)))
    ∙ sym (drop-add d 1 (xs ++ (x ∷ [])))
    ∙ ap (λ t. drop t (xs ++ (x ∷ []))) (sym e)

-- What an accepted nonce does to the list, with its trimming.
push : List (List ℕ) → List ℕ → List (List ℕ)
push used n =
    if ltb capacity (length (used ++ (n ∷ []))) then drop 1 (used ++ (n ∷ [])) else used ++ (n ∷ [])

push-last_of :
    (history : List (List ℕ)) (n : List ℕ)
    → push (last_of capacity history) n ≡ last_of capacity (history ++ (n ∷ []))
unfolding push
push-last_of history n = elim (Bool-cases (ltb (length history) capacity)) [
  | inl short ↦
      let small : length history < 1000 = ground arith in
      let joined : length (history ++ (n ∷ [])) ≤ 1000 =
        omega (arith, length-append history (n ∷ [])) in
      rw (
        last_of_short capacity history (omega arith),
        ltb-false 1000 (length (history ++ (n ∷ []))) joined,
        last_of_short capacity (history ++ (n ∷ [])) joined,
      )
  | inr full ↦
      let long : 1000 ≤ length history = ground arith in
      let over : 1000 < length (last_of capacity history ++ (n ∷ [])) = omega (
        arith,
        length-append (last_of capacity history) (n ∷ []),
        length-last_of capacity history long,
      ) in
      rw (lt→ltb 1000 (length (last_of capacity history ++ (n ∷ []))) over)
        (last_of-snoc capacity history n long)
]

check_and_add-push :
    (manager : NonceManager) (n : List ℕ)
    → check_and_add manager n ≡ (
        if contains n manager.used_nonces
        then (manager, false)
        else (record { used_nonces = push manager.used_nonces n }, true))
unfolding check_and_add push
check_and_add-push manager n = ground arith

run_from :
    (manager : NonceManager) (history ns : List (List ℕ))
    → manager.used_nonces ≡ last_of capacity history
    → ((run manager ns).0).used_nonces ≡ last_of capacity (history ++ (run manager ns).1)
unfolding run
run_from manager history [] h = rw append-nil h
run_from manager history (n ∷ ns) h = elim (Bool-cases (contains n manager.used_nonces)) [
  | inl seen ↦ rw (check_and_add-push manager n, seen) (run_from manager history ns h)
  | inr fresh ↦
      let next : NonceManager = record { used_nonces = push manager.used_nonces n } in
      let pushed : next.used_nonces ≡ last_of capacity (history ++ (n ∷ [])) =
        ap (λ u. push u n) h ∙ push-last_of history n in
      rw (check_and_add-push manager n, fresh)
        (run_from next (history ++ (n ∷ [])) ns pushed
          ∙ ap (last_of capacity) (append_assoc history (n ∷ []) (run next ns).1))
]

-- From a new manager, whatever nonces are checked, the manager holds exactly the last 1000 of the
-- nonces that it accepted, in the order of acceptance.
pub run-last_of :
    (ns : List (List ℕ)) → ((run empty ns).0).used_nonces ≡ last_of capacity (run empty ns).1
unfolding last_of
run-last_of ns = run_from empty [] ns refl

-- `n` stands in the list with at most `k` nonces behind it.
record Recent (n : List ℕ) (k : ℕ) (used : List (List ℕ)) : Type 0 where
  before : List (List ℕ)
  after : List (List ℕ)
  split : used ≡ before ++ (n ∷ after)
  near : length after ≤ k

contains-middle :
    (n : List ℕ) (before after : List (List ℕ)) → contains n (before ++ (n ∷ after)) ≡ true
unfolding contains
contains-middle n [] after = rw (list_eq_refl n)
contains-middle n (m ∷ before) after = ground (arith, contains-middle n before after)

contains_of_Recent :
    {n : List ℕ} {k : ℕ} {used : List (List ℕ)} → Recent n k used → contains n used ≡ true
contains_of_Recent {n} r = rw r.split (contains-middle n r.before r.after)

-- Fewer than 1000 nonces later it is still there.
push-Recent :
    {n : List ℕ} {k : ℕ} {used : List (List ℕ)} (x : List ℕ)
    → k + 1 < 1000
    → Recent n k used
    → Recent n (k + 1) (push used x)
unfolding push
push-Recent {n} {k} {used} x small r =
    elim (Bool-cases (ltb capacity (length (used ++ (x ∷ []))))) [
      | inr room ↦ rw room (record {
        before = r.before;
        after = r.after ++ (x ∷ []);
        split = ap (λ u. u ++ (x ∷ [])) r.split ∙ append_assoc r.before (n ∷ r.after) (x ∷ []);
        near = omega (arith, length-append r.after (x ∷ []), r.near);
      })
      | inl over ↦ rw over (
          trim r.before
            (ap (λ u. u ++ (x ∷ [])) r.split ∙ append_assoc r.before (n ∷ r.after) (x ∷ []))
            (ltb→lt _ _ over))
    ]
  where
    trim :
        (before : List (List ℕ))
        → used ++ (x ∷ []) ≡ before ++ (n ∷ (r.after ++ (x ∷ [])))
        → 1000 < length (used ++ (x ∷ []))
        → Recent n (k + 1) (drop 1 (used ++ (x ∷ [])))
    trim [] e over = absurd (omega (arith, ap length e, length-append r.after (x ∷ []), r.near))
    trim (b ∷ before) e over = record {
      before = before;
      after = r.after ++ (x ∷ []);
      split = ap (drop 1) e;
      near = omega (arith, length-append r.after (x ∷ []), r.near);
    }

push-Recent_self : (n : List ℕ) (used : List (List ℕ)) → Recent n 0 (push used n)
unfolding push
push-Recent_self n used = elim (Bool-cases (ltb capacity (length (used ++ (n ∷ []))))) [
  | inr room ↦ rw room (record { before = used; after = []; split = refl; near = omega arith })
  | inl over ↦ rw over (trim used (ltb→lt _ _ over))
]
  where
    trim :
        (used : List (List ℕ))
        → 1000 < length (used ++ (n ∷ []))
        → Recent n 0 (drop 1 (used ++ (n ∷ [])))
    trim [] over = absurd (omega arith)
    trim (u ∷ used) over = record { before = used; after = []; split = refl; near = omega arith }

run-Recent :
    {n : List ℕ} (k : ℕ) (manager : NonceManager) (ns : List (List ℕ))
    → k + length ns < 1000
    → Recent n k manager.used_nonces
    → Recent n (k + length ns) ((run manager ns).0).used_nonces
unfolding run
run-Recent {n} k manager [] small r = later k k (k + 0) (omega arith) r
  where
    later : (i j m : ℕ) → i ≤ m → Recent n i manager.used_nonces → Recent n m manager.used_nonces
    later i j m le q = record {
      before = q.before;
      after = q.after;
      split = q.split;
      near = omega (arith, q.near);
    }
run-Recent {n} k manager (x ∷ xs) small r = elim (Bool-cases (contains x manager.used_nonces)) [
  | inl seen ↦
      rw (check_and_add-push manager x, seen) (later (run-Recent k manager xs (omega arith) r))
  | inr fresh ↦
      rw (check_and_add-push manager x, fresh)
        (subst
          (λ j.
            Recent n j
              ((run (record { used_nonces = push manager.used_nonces x }) xs).0).used_nonces)
          (let e : k + 1 + length xs ≡ k + suc (length xs) = omega arith in e)
          (run-Recent (k + 1) (record { used_nonces = push manager.used_nonces x }) xs (omega arith)
            (push-Recent x (omega arith) r)))
]
  where
    later :
        {used : List (List ℕ)} → Recent n (k + length xs) used → Recent n (k + suc (length xs)) used
    later q = record {
      before = q.before;
      after = q.after;
      split = q.split;
      near = omega (arith, q.near);
    }

-- A nonce that was accepted is refused, with the manager left as it is, after any fewer than 1000
-- further checks, whatever manager accepted it.
pub check_and_add_replay :
    (manager : NonceManager) (n : List ℕ) (ns : List (List ℕ))
    → (check_and_add manager n).1 ≡ true
    → length ns < 1000
    → check_and_add (run (check_and_add manager n).0 ns).0 n
      ≡ ((run (check_and_add manager n).0 ns).0, false)
check_and_add_replay manager n ns accepted few =
    elim (Bool-cases (contains n manager.used_nonces)) [
      | inl seen ↦ absurd (cc (rw (check_and_add-push manager n, seen) at accepted))
      | inr fresh ↦
          let first : NonceManager = record { used_nonces = push manager.used_nonces n } in
          let recent : Recent n (0 + length ns) ((run first ns).0).used_nonces =
            run-Recent 0 first ns (omega arith) (push-Recent_self n manager.used_nonces) in
          let is_first : (check_and_add manager n).0 ≡ first =
            rw (check_and_add-push manager n, fresh) in
          rw (is_first, check_and_add-push (run first ns).0 n, contains_of_Recent recent)
    ]

-- `check_and_add` accepts exactly what `validate_nonce` calls unused.
pub validate_nonce-check_and_add :
    (manager : NonceManager) (n : List ℕ) → (check_and_add manager n).1 ≡ validate_nonce manager n
unfolding validate_nonce
validate_nonce-check_and_add manager n = rw (check_and_add-push manager n) (ground arith)
